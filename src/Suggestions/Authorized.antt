-- ===== src/Suggestions/Authorized.antt =====
-- A client adds a memory only where the owner's policy lets it.
use funes_vault.Common.{
  String, set_of, ◌↔◌, ◌==◌, not, In-filter, In-of_filter, eq_iff, ℕ, ◌≡◌, ◌≢◌, refl, sym, ap, ◌∙◌,
  subst, true, false, some, List, [], ◌∷◌, ◌++◌, ◌⊎◌, inl, inr, Bool-cases, In, here, there, ok,
  arith,
}
use funes_vault.Vault.Enums.{Operation, Decision, allow, deny}
use funes_vault.Vault.Store.{Memory, Policy, Client}
use funes_vault.Policies.{EvaluationResult, is_empty}
use funes_vault.Policies.Authority.{
  HasAuthority, evaluate_for_client-HasAuthority, evaluate_for_client-candidates,
}
use funes_vault.Policies.Disclosable.{IsDisclosable}
use funes_vault.Policies.Sorting.{
  evaluate_candidate_memories-allowed, evaluate_candidate_memories-allow,
}
use funes_vault.Suggestions.Store.{Db, Runtime}
use funes_vault.Suggestions.Intake.{
  SuggestionInput, SuggestionResponse, create_suggestion, writes_directly, evaluate,
  proposed_memory, is_allow,
}
use funes_vault.Suggestions.Taken.{written_memory, create_suggestion-IsTaken}

-- The memory that was proposed, as the owner's.
pub record IsProposed (input : SuggestionInput) (m : Memory) : Type 0 where
  pub owner : m.user_id ≡ input.user_id
  pub title : m.title ≡ input.body.title
  pub body : m.body ≡ input.body.body
  pub sensitivity : m.sensitivity ≡ input.body.sensitivity
  pub expires : m.expires_at ≡ input.body.expires_at
  pub categories : (key : String) → In key m.categories ↔ In key input.body.category_keys

-- What the owner has agreed to, for a memory that is written without a review.
pub record IsAuthorized (db : Db) (input : SuggestionInput) (now : ℕ) (m : Memory) (c : Client)
    (p : Policy) : Type 0 where
  pub authority : HasAuthority db.vault input.user_id input.client_id Operation.write now c p
  pub unconfirmed : p.requires_confirmation ≡ false
  pub covered : IsDisclosable p now m
  pub not_for_review : input.review_only ≡ false

is_allow_sound : (d : Decision) → is_allow d ≡ true → d ≡ allow
is_allow_sound d h = ground arith

first_of : {A : Type 0} (xs : List A) → is_empty xs ≡ false → (x : A) × In x xs
first_of [] h = cc h
first_of (x ∷ xs) h = (x, here refl)

only_one : {A : Type 0} {x y : A} → In x (y ∷ []) → x ≡ y
only_one (here e) = e
only_one (there l) = elim l [ ]

-- The categories are connected as a set, which has the same members.
set_of_iff : (ks : List String) (key : String) → In key (set_of ks) ↔ In key ks
set_of_iff ks key = (sound ks, complete ks)
  where
    sound : (ks : List String) → In key (set_of ks) → In key ks
    sound [] l = l
    sound (k ∷ ks) (here e) = here e
    sound (k ∷ ks) (there l) = there (sound ks (In-filter _ (set_of ks) l).0)

    complete : (ks : List String) → In key ks → In key (set_of ks)
    complete [] l = l
    complete (k ∷ ks) (here e) = here e
    complete (k ∷ ks) (there l) = elim (Bool-cases (key == k)) [
      | inl t ↦ here ((eq_iff key k).0 t)
      | inr f ↦ there (In-of_filter (λ x. not (x == k)) (complete ks l) (rw f))
    ]

written-IsProposed :
    (rt : Runtime) (input : SuggestionInput) (now : ℕ) (db : Db)
    → IsProposed input (written_memory rt input now db)
written-IsProposed rt input now db = record {
  owner = refl;
  title = refl;
  body = refl;
  sensitivity = refl;
  expires = refl;
  categories = set_of_iff input.body.category_keys;
}

-- A policy that covers the evaluated placeholder covers the memory that is written.
written-IsDisclosable :
    (rt : Runtime) (input : SuggestionInput) (now : ℕ) (db : Db) (p : Policy)
    → IsDisclosable p now (proposed_memory input.body)
    → IsDisclosable p now (written_memory rt input now db)
written-IsDisclosable rt input now db p d = record {
  live = refl;
  reviewed = refl;
  unexpired = d.unexpired;
  under_ceiling = d.under_ceiling;
  not_denied = λ key l. d.not_denied key ((set_of_iff input.body.category_keys key).0 l);
  covered = elim d.covered [
    | inl e ↦ inl e
    | inr (key, l, allowed) ↦ inr (key, (set_of_iff input.body.category_keys key).1 l, allowed)
  ];
}

writes_directly-IsAuthorized :
    (rt : Runtime) (db : Db) (input : SuggestionInput) (now : ℕ)
    → writes_directly input now db ≡ true
    → (c : Client) × (p : Policy) × IsAuthorized db input now (written_memory rt input now db) c p
writes_directly-IsAuthorized rt db input now h = elim (Bool-cases input.review_only) [
  | inl t ↦ cc (rw t at h)
  | inr f ↦
      let m = proposed_memory input.body in
      let allowed : (evaluate input Operation.write now db).result.decision ≡ allow =
        is_allow_sound _ (rw f at h) in
      let not_denied : (evaluate input Operation.write now db).result.decision ≢ deny =
        λ e. cc (allowed, e) in
      let (c, p, ec, ep, authority) =
        evaluate_for_client-HasAuthority db.vault input.user_id input.client_id Operation.write now
          (some (m ∷ [])) not_denied in
      let result =
        evaluate_for_client-candidates db.vault input.user_id input.client_id Operation.write now
          (m ∷ []) p not_denied ep in
      let (something, unconfirmed) =
        evaluate_candidate_memories-allow p now (m ∷ [])
          (ap (λ (r : EvaluationResult). r.decision) (sym result) ∙ allowed) in
      let (id, l) = first_of _ something in
      let (x, k, e, covered) = (evaluate_candidate_memories-allowed p now (m ∷ []) id).0 l in
      (
        c,
        p,
        record {
          authority = authority;
          unconfirmed = unconfirmed;
          covered =
              written-IsDisclosable rt input now db p
                (subst (IsDisclosable p now) (only_one k) covered);
          not_for_review = f;
        },
      )
]

-- What a client proposes changes no memory, or adds one, with the title, the body, the sensitivity, the
-- expiry and the categories of the proposal: then it was not meant for review, the client is the owner's
-- and not blocked, and its policy is in force, lets it write, needs no confirmation, and covers the
-- memory that is added.
pub create_suggestion-IsAuthorized :
    (rt : Runtime) (input : SuggestionInput) (now : ℕ) (db : Db) (response : SuggestionResponse)
    (db' : Db)
    → create_suggestion rt input now db ≡ ok (response, db')
    → (db'.vault.memories ≡ db.vault.memories)
      ⊎ ((m : Memory) × (c : Client) × (p : Policy) × (db'.vault.memories
            ≡ db.vault.memories ++ m ∷ [])
          × IsProposed input m
          × IsAuthorized db input now m c p)
create_suggestion-IsAuthorized rt input now db response db' h =
    elim ((create_suggestion-IsTaken rt input now db db' response h).memories) [
      | inl e ↦ inl e
      | inr (direct, e) ↦
          let (c, p, authorized) = writes_directly-IsAuthorized rt db input now direct in
          inr (
            written_memory rt input now db,
            c,
            p,
            e,
            written-IsProposed rt input now db,
            authorized,
          )
    ]
