-- ===== src/Policies/Disclosable.antt =====
-- The filter of policy-evaluation.service.ts against a description of what a policy covers.
use funes_vault.Common.{
  ℕ, ◌≤◌, ◌<◌, String, ◌≡◌, refl, ◌↔◌, ◌⊎◌, inl, inr, true, false, not, ◌&&◌, Option, none, some,
  List, [], ◌∷◌, arith, In, has, has_iff, any, any_sound, any_complete, Bool-cases,
}
use funes_vault.Vault.Enums.{sensitivity_rank, MemoryStatus, ReviewState, is_active, is_reviewed}
use funes_vault.Vault.Store.{Memory, Policy}
use funes_vault.Policies.{denial_reason, has_expired, is_empty}

-- A moment that is never reached, or is still to come.
abbrev pub IsAhead : Option ℕ → ℕ → Type 0
IsAhead none now = Unit {0}
IsAhead (some t) now = now < t

-- A policy covers a memory: it is active, approved and unexpired, not above the ceiling, in none of
-- the denied categories, and in one of the allowed ones if any are listed.
pub record IsDisclosable (p : Policy) (now : ℕ) (m : Memory) : Type 0 where
  pub live : m.status ≡ MemoryStatus.active
  pub reviewed : m.review_state ≡ ReviewState.approved
  pub unexpired : IsAhead m.expires_at now
  pub under_ceiling : sensitivity_rank m.sensitivity ≤ sensitivity_rank p.max_sensitivity
  pub not_denied : (key : String) → In key m.categories → ¬ In key p.denied_categories
  pub covered :
      (p.allowed_categories ≡ [])
      ⊎ ((key : String) × In key m.categories × In key p.allowed_categories)

-- The two category sets have a key in common.
pub shares_key :
    (set keys : List String) → any (has set) keys ≡ true → (key : String) × In key keys × In key set
shares_key set keys h =
    let (key, m, t) = any_sound (has set) keys h in (key, m, (has_iff set key).0 t)

pub no_shared_key :
    (set keys : List String) (key : String)
    → any (has set) keys ≡ false
    → In key keys
    → ¬ In key set
no_shared_key set keys key h m l = cc (any_complete (has set) m ((has_iff set key).1 l))

pub IsAhead-of_unexpired : (e : Option ℕ) (now : ℕ) → has_expired e now ≡ false → IsAhead e now
IsAhead-of_unexpired none now h = tt
IsAhead-of_unexpired (some t) now h = ground arith

pub unexpired_of_ahead : (e : Option ℕ) (now : ℕ) → IsAhead e now → has_expired e now ≡ false
unexpired_of_ahead none now h = refl
unexpired_of_ahead (some t) now h = ground arith

-- The tests of `denial_reason`, all passed.
record Passes (p : Policy) (now : ℕ) (m : Memory) : Type 0 where
  active : is_active m.status ≡ true
  reviewed : is_reviewed m.review_state ≡ true
  unexpired : has_expired m.expires_at now ≡ false
  under_ceiling : sensitivity_rank m.sensitivity ≤ sensitivity_rank p.max_sensitivity
  not_denied : any (has p.denied_categories) m.categories ≡ false
  covered :
      (not (is_empty p.allowed_categories) && not (any (has p.allowed_categories) m.categories))
      ≡ false

denial_reason-Passes :
    (p : Policy) (now : ℕ) (m : Memory) → denial_reason p now m ≡ none → Passes p now m
unfolding denial_reason
denial_reason-Passes p now m h = ground arith

Passes-denial_reason :
    (p : Policy) (now : ℕ) (m : Memory) → Passes p now m → denial_reason p now m ≡ none
unfolding denial_reason
Passes-denial_reason p now m h = ground arith

covered_sound :
    (allowed keys : List String)
    → (not (is_empty allowed) && not (any (has allowed) keys)) ≡ false
    → (allowed ≡ []) ⊎ ((key : String) × In key keys × In key allowed)
covered_sound [] keys h = inl refl
covered_sound (a ∷ rest) keys h = elim (Bool-cases (any (has (a ∷ rest)) keys)) [
  | inl t ↦ inr (shares_key (a ∷ rest) keys t)
  | inr f ↦ cc f
]

covered_complete :
    (allowed keys : List String)
    → (allowed ≡ []) ⊎ ((key : String) × In key keys × In key allowed)
    → (not (is_empty allowed) && not (any (has allowed) keys)) ≡ false
covered_complete [] keys h = refl
covered_complete (a ∷ rest) keys (inl e) = cc
covered_complete (a ∷ rest) keys (inr (key, m, l)) =
    rw (any_complete (has (a ∷ rest)) m ((has_iff (a ∷ rest) key).1 l))

-- A memory meets no reason for denial exactly when the policy covers it.
pub denial_reason-eq-none_iff :
    (p : Policy) (now : ℕ) (m : Memory) → (denial_reason p now m ≡ none) ↔ IsDisclosable p now m
denial_reason-eq-none_iff p now m = (
  λ h.
      let t = denial_reason-Passes p now m h in
      record {
        live = ground arith;
        reviewed = ground arith;
        unexpired = IsAhead-of_unexpired m.expires_at now t.unexpired;
        under_ceiling = t.under_ceiling;
        not_denied = λ key. no_shared_key p.denied_categories m.categories key t.not_denied;
        covered = covered_sound p.allowed_categories m.categories t.covered;
      },
  λ d. Passes-denial_reason p now m (record {
    active = rw d.live;
    reviewed = rw d.reviewed;
    unexpired = unexpired_of_ahead m.expires_at now d.unexpired;
    under_ceiling = d.under_ceiling;
    not_denied = disjoint p m d;
    covered = covered_complete p.allowed_categories m.categories d.covered;
  }),
)
  where
    disjoint :
        (p : Policy) (m : Memory)
        → IsDisclosable p now m
        → any (has p.denied_categories) m.categories ≡ false
    disjoint p m d = elim (Bool-cases (any (has p.denied_categories) m.categories)) [
      | inl t ↦
          let (key, l, k) = shares_key p.denied_categories m.categories t in
          absurd (d.not_denied key l k)
      | inr f ↦ f
    ]
