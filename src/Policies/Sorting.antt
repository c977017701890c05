-- ===== src/Policies/Sorting.antt =====
-- `evaluateCandidateMemories`: the candidates are sorted into the allowed and the denied ones.
use mathlib.Core.List.{append_assoc, append-nil}
use funes_vault.Common.{
  false, ℕ, String, ◌≡◌, refl, sym, ap, ◌∙◌, ◌↔◌, Option, none, some, List, [], ◌∷◌, ◌++◌, In, here,
  there, Option-cases, In-cons, inl, inr, subst, ◌≢◌, Bool, true, if◌then◌else◌, arith,
}
use funes_vault.Vault.Enums.{allow, needs_confirmation, deny, RequestReason}
use funes_vault.Vault.Store.{Memory, Policy}
use funes_vault.Policies.{
  Denied, is_empty, denial_reason, sort_memories, evaluate_candidate_memories,
}
use funes_vault.Policies.Disclosable.{IsDisclosable, denial_reason-eq-none_iff}

abbrev pub add_id : Option RequestReason → Memory → List String → List String
add_id none m ids = m.id ∷ ids
add_id (some r) m ids = ids

abbrev pub add_denied : Option RequestReason → Memory → List Denied → List Denied
add_denied none m ds = ds
add_denied (some r) m ds = (record { memory_id = m.id; reason = r }) ∷ ds

module _ (p : Policy) (now : ℕ) where
  -- The ids of the candidates that meet no reason for denial, in order.
  allowed_ids : List Memory → List String
  allowed_ids [] = []
  allowed_ids (m ∷ ms) = add_id (denial_reason p now m) m (allowed_ids ms)

  denials : List Memory → List Denied
  denials [] = []
  denials (m ∷ ms) = add_denied (denial_reason p now m) m (denials ms)

  sort_memories_lem :
      (ms : List Memory) (ids : List String) (ds : List Denied)
      → sort_memories p now ms (ids, ds) ≡ (ids ++ allowed_ids ms, ds ++ denials ms)
  unfolding sort_memories allowed_ids denials
  sort_memories_lem [] ids ds = λ i. (sym (append-nil ids) i, sym (append-nil ds) i)
  sort_memories_lem (m ∷ ms) ids ds = elim (Option-cases (denial_reason p now m)) [
    | inl e ↦ rw e (
        sort_memories_lem ms (ids ++ m.id ∷ []) ds ∙ λ i.
        (append_assoc ids (m.id ∷ []) (allowed_ids ms) i, ds ++ denials ms))
    | inr (r, e) ↦ rw e (
        let d : Denied = record { memory_id = m.id; reason = r } in
        sort_memories_lem ms ids (ds ++ d ∷ []) ∙ λ i.
        (ids ++ allowed_ids ms, append_assoc ds (d ∷ []) (denials ms) i))
  ]

  allowed_ids_sound :
      (ms : List Memory) (id : String)
      → In id (allowed_ids ms)
      → (m : Memory) × In m ms × (m.id ≡ id) × (denial_reason p now m ≡ none)
  unfolding allowed_ids
  allowed_ids_sound [] id h = elim h [ ]
  allowed_ids_sound (m ∷ ms) id h = elim (Option-cases (denial_reason p now m)) [
    | inl e ↦ elim (In-cons (rw e at h)) [
      | inl q ↦ (m, here refl, sym q, e)
      | inr l ↦ let (k, t, q, n) = allowed_ids_sound ms id l in (k, there t, q, n)
    ]
    | inr (r, e) ↦ let (k, t, q, n) = allowed_ids_sound ms id (rw e at h) in (k, there t, q, n)
  ]

  allowed_ids_complete :
      {m : Memory} {ms : List Memory}
      → In m ms
      → denial_reason p now m ≡ none
      → In m.id (allowed_ids ms)
  unfolding allowed_ids
  allowed_ids_complete (here q) e =
      rw (ap (denial_reason p now) (sym q) ∙ e) (here (ap (λ (y : Memory). y.id) q))
  allowed_ids_complete (there {x} l) e = elim (Option-cases (denial_reason p now x)) [
    | inl n ↦ rw n (there (allowed_ids_complete l e))
    | inr (r, n) ↦ rw n (allowed_ids_complete l e)
  ]

  denials_sound :
      (ms : List Memory) (d : Denied)
      → In d (denials ms)
      → (m : Memory) × In m ms × (m.id ≡ d.memory_id) × (denial_reason p now m ≡ some d.reason)
  unfolding denials
  denials_sound [] d h = elim h [ ]
  denials_sound (m ∷ ms) d h = elim (Option-cases (denial_reason p now m)) [
    | inl e ↦ let (k, t, q, n) = denials_sound ms d (rw e at h) in (k, there t, q, n)
    | inr (r, e) ↦ elim (In-cons (rw e at h)) [
      | inl q ↦ (
        m,
        here refl,
        ap (λ (y : Denied). y.memory_id) (sym q),
        e ∙ ap (λ (y : Denied). some y.reason) (sym q),
      )
      | inr l ↦ let (k, t, q, n) = denials_sound ms d l in (k, there t, q, n)
    ]
  ]

-- The allowed ids of an evaluation are those of the candidates that the policy covers: each belongs
-- to a covered candidate, and the id of each covered candidate is among them.
pub evaluate_candidate_memories-allowed :
    (p : Policy) (now : ℕ) (ms : List Memory) (id : String)
    → In id (evaluate_candidate_memories p ms now).allowed
      ↔ ((m : Memory) × In m ms × (m.id ≡ id) × IsDisclosable p now m)
unfolding evaluate_candidate_memories
evaluate_candidate_memories-allowed p now ms id = (
  λ h.
      let (m, l, e, n) = allowed_ids_sound p now ms id (
        subst (λ (r : List String × List Denied). In id r.0) (sort_memories_lem p now ms [] [])
          h) in
      (m, l, e, (denial_reason-eq-none_iff p now m).0 n),
  λ h.
      let (m, l, e, d) = h in
      subst (λ (r : List String × List Denied). In id r.0) (sym (sort_memories_lem p now ms [] []))
        (subst (λ s. In s (allowed_ids p now ms)) e
          (allowed_ids_complete p now l ((denial_reason-eq-none_iff p now m).1 d))),
)

-- Every denied entry names a candidate with the reason that it meets, so one that the policy does
-- not cover.
pub evaluate_candidate_memories-denied :
    (p : Policy) (now : ℕ) (ms : List Memory) (d : Denied)
    → In d (evaluate_candidate_memories p ms now).denied
    → (m : Memory) × In m ms
      × (m.id ≡ d.memory_id)
      × (denial_reason p now m ≡ some d.reason)
      × ¬ IsDisclosable p now m
unfolding evaluate_candidate_memories
evaluate_candidate_memories-denied p now ms d h =
    let (m, l, e, n) =
      denials_sound p now ms d (
        subst (λ (r : List String × List Denied). In d r.1) (sort_memories_lem p now ms [] []) h) in
    (m, l, e, n, λ c. cc (n, (denial_reason-eq-none_iff p now m).1 c))

not-In_of_empty : {A : Type 0} {a : A} (xs : List A) → is_empty xs ≡ true → ¬ In a xs
not-In_of_empty [] h l = elim l [ ]
not-In_of_empty (x ∷ xs) h l = cc h

empty_of_not-In : {A : Type 0} (xs : List A) → ((a : A) → ¬ In a xs) → is_empty xs ≡ true
empty_of_not-In [] h = refl
empty_of_not-In (x ∷ xs) h = absurd (h x (here refl))

decision_of :
    (confirm : Bool) (ids : List String)
    → let d = if is_empty ids then deny else if confirm then needs_confirmation else allow in
      ((d ≡ deny) ↔ (is_empty ids ≡ true))
      × (d ≢ deny → d ≡ (if confirm then needs_confirmation else allow))
decision_of confirm ids = ground arith

-- Nothing is released without a covered candidate: the decision is to deny exactly when no candidate
-- is covered.
pub evaluate_candidate_memories-decision :
    (p : Policy) (now : ℕ) (ms : List Memory)
    → ((evaluate_candidate_memories p ms now).decision ≡ deny)
      ↔ ((m : Memory) → In m ms → ¬ IsDisclosable p now m)
unfolding evaluate_candidate_memories
evaluate_candidate_memories-decision p now ms =
    let cases =
      decision_of p.requires_confirmation (evaluate_candidate_memories p ms now).allowed in
    let member = evaluate_candidate_memories-allowed p now ms in
    (
      λ h m l d. not-In_of_empty _ (cases.0.0 h) ((member m.id).1 (m, l, refl, d)),
      λ none_covered.
          cases.0.1
            (empty_of_not-In _ λ id l. let (m, k, e, d) = (member id).0 l in none_covered m k d),
    )

-- What is not denied asks the owner exactly when the policy requires confirmation.
pub evaluate_candidate_memories-confirmation :
    (p : Policy) (now : ℕ) (ms : List Memory)
    → (evaluate_candidate_memories p ms now).decision ≢ deny
    → (evaluate_candidate_memories p ms now).decision
      ≡ (if p.requires_confirmation then needs_confirmation else allow)
unfolding evaluate_candidate_memories
evaluate_candidate_memories-confirmation p now ms =
    (decision_of p.requires_confirmation (evaluate_candidate_memories p ms now).allowed).1

released :
    (confirm : Bool) (ids : List String)
    → (if is_empty ids then deny else if confirm then needs_confirmation else allow) ≡ allow
    → (is_empty ids ≡ false) × (confirm ≡ false)
released confirm ids h = ground arith

-- What is released at once is released by a policy that needs no confirmation, and is something.
pub evaluate_candidate_memories-allow :
    (p : Policy) (now : ℕ) (ms : List Memory)
    → (evaluate_candidate_memories p ms now).decision ≡ allow
    → (is_empty (evaluate_candidate_memories p ms now).allowed ≡ false)
      × (p.requires_confirmation ≡ false)
unfolding evaluate_candidate_memories
evaluate_candidate_memories-allow p now ms h =
    released p.requires_confirmation (evaluate_candidate_memories p ms now).allowed h
