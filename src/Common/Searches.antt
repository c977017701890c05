-- ===== src/Common/Searches.antt =====
-- Searches of a list after it was updated or extended.
use mathlib.Core.Path.{◌≡◌, refl, ap, ◌∙◌}
use mathlib.Core.Logic.{inl, inr}
use mathlib.Core.Bool.{Bool, true, false}
use mathlib.Core.Option.{none, some}
use mathlib.Core.List.{List, [], ◌∷◌, ◌++◌}
use funes_vault.Common.Tests.{if◌then◌else◌, Bool-cases, some_cancel}
use funes_vault.Common.Lists.{find, filter, update_where, In, here, there}

module _ {ℓ} {A : Type ℓ} where
  -- What a search finds is found after an update that the search does not look at.
  pub find-update_where :
      (p q : A → Bool) (f : A → A) (xs : List A) {x : A}
      → ((y : A) → p (f y) ≡ p y)
      → find p xs ≡ some x
      → find p (update_where q f xs) ≡ some (if q x then f x else x)
  find-update_where p q f [] blind h = cc h
  find-update_where p q f (y ∷ ys) blind h = elim (Bool-cases (p y)) [
    | inl t ↦
        let same = some_cancel (rw t at h) in
        rw (head_passes q y t) (ap (λ z. some (if q z then f z else z)) same)
    | inr t ↦ rw (head_fails q y t) (find-update_where p q f ys blind (rw t at h))
  ]
    where
      head_passes : (q : A → Bool) (y : A) → p y ≡ true → p (if q y then f y else y) ≡ true
      head_passes q y t = elim (Bool-cases (q y)) [ inl u ↦ rw u (blind y ∙ t) | inr u ↦ rw u t ]

      head_fails : (q : A → Bool) (y : A) → p y ≡ false → p (if q y then f y else y) ≡ false
      head_fails q y t = elim (Bool-cases (q y)) [ inl u ↦ rw u (blind y ∙ t) | inr u ↦ rw u t ]

  pub find-append :
      (p : A → Bool) (xs ys : List A) {x : A} → find p xs ≡ some x → find p (xs ++ ys) ≡ some x
  find-append p [] ys h = cc h
  find-append p (y ∷ xs) ys h = elim (Bool-cases (p y)) [
    | inl t ↦ rw t (rw t at h)
    | inr t ↦ rw t (find-append p xs ys (rw t at h))
  ]

  -- What is appended is found where nothing was.
  pub find-append_new :
      (p : A → Bool) (xs : List A) (y : A)
      → find p xs ≡ none
      → p y ≡ true
      → find p (xs ++ y ∷ []) ≡ some y
  find-append_new p [] y h t = rw t refl
  find-append_new p (x ∷ xs) y h t = elim (Bool-cases (p x)) [
    | inl hit ↦ cc (rw hit at h)
    | inr miss ↦ rw miss (find-append_new p xs y (rw miss at h) t)
  ]

  pub find-append_old :
      (p : A → Bool) (xs : List A) (y : A) → p y ≡ false → find p (xs ++ y ∷ []) ≡ find p xs
  find-append_old p [] y h = rw h refl
  find-append_old p (x ∷ xs) y h = elim (Bool-cases (p x)) [
    | inl t ↦ rw t refl
    | inr t ↦ rw t (find-append_old p xs y h)
  ]

  -- An update of other entries does not change what is found.
  pub find-update_where_other :
      (p q : A → Bool) (f : A → A) (xs : List A)
      → ((y : A) → In y xs → q y ≡ true → (p y ≡ false) × (p (f y) ≡ false))
      → find p (update_where q f xs) ≡ find p xs
  find-update_where_other p q f [] h = refl
  find-update_where_other p q f (x ∷ xs) h =
      let rest = find-update_where_other p q f xs (λ y l. h y (there l)) in
      elim (Bool-cases (q x)) [
        | inl t ↦ let (before, after) = h x (here refl) t in rw (t, before, after) rest
        | inr t ↦ rw (t, rest) refl
      ]

  -- Nor does the removal of other entries.
  pub find-filter_other :
      (p q : A → Bool) (xs : List A)
      → ((y : A) → In y xs → q y ≡ false → p y ≡ false)
      → find p (filter q xs) ≡ find p xs
  find-filter_other p q [] h = refl
  find-filter_other p q (x ∷ xs) h =
      let rest = find-filter_other p q xs (λ y l. h y (there l)) in
      elim (Bool-cases (q x)) [ inl t ↦ rw (t, rest) refl | inr t ↦ rw (t, h x (here refl) t) rest ]

  -- Where no entry passes the test, none is found.
  pub find-eq-none :
      (p : A → Bool) (xs : List A) → ((y : A) → In y xs → p y ≡ false) → find p xs ≡ none
  find-eq-none p [] h = refl
  find-eq-none p (x ∷ xs) h = rw (h x (here refl)) (find-eq-none p xs (λ y l. h y (there l)))
