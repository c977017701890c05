-- ===== src/Common/Lists.antt =====
-- Lists searched and filtered by Boolean tests, and the sets and maps that the code builds on them.
use Prim.Native.Nat.{◌-◌, ℕ, zero, suc, ◌+◌, ◌≤◌, min}
use Prim.Native.String.{String}
use mathlib.Core.Path.{◌≡◌, refl, sym, ap, ◌∙◌, subst}
use mathlib.Core.Logic.{◌↔◌, ◌⊎◌, inl, inr}
use mathlib.Core.Bool.{Bool, true, false, not, ◌&&◌, ◌||◌}
use mathlib.Core.Option.{Option, none, some}
use mathlib.Core.List.{List, [], ◌∷◌, ◌++◌, map}
use native.Mathlib.Omega.{arith}
use text.Mathlib.TextEquality.{eq_iff}
use funes_vault.Common.Tests.{◌==◌, if◌then◌else◌, Bool-cases}

module _ {ℓ} {A : Type ℓ} where
  abbrev pub length : List A → ℕ
  length [] = 0
  length (x ∷ xs) = suc (length xs)

  abbrev pub filter : (A → Bool) → List A → List A
  filter p [] = []
  filter p (x ∷ xs) = if p x then x ∷ filter p xs else filter p xs

  abbrev pub find : (A → Bool) → List A → Option A
  find p [] = none
  find p (x ∷ xs) = if p x then some x else find p xs

  abbrev pub any : (A → Bool) → List A → Bool
  any p [] = false
  any p (x ∷ xs) = p x || any p xs

  abbrev pub all : (A → Bool) → List A → Bool
  all p [] = true
  all p (x ∷ xs) = p x && all p xs

  -- Rewrite the entries that pass the test: an `UPDATE … WHERE …`.
  abbrev pub update_where : (A → Bool) → (A → A) → List A → List A
  update_where p f [] = []
  update_where p f (x ∷ xs) = (if p x then f x else x) ∷ update_where p f xs

  abbrev pub take : ℕ → List A → List A
  take zero xs = []
  take (suc n) [] = []
  take (suc n) (x ∷ xs) = x ∷ take n xs

  abbrev pub drop : ℕ → List A → List A
  drop zero xs = xs
  drop (suc n) [] = []
  drop (suc n) (x ∷ xs) = drop n xs

  -- Membership as data: it may be matched.
  pub data In (a : A) : List A → Type ℓ where
    here : {x : A} {xs : List A} → a ≡ x → In a (x ∷ xs)
    there : {x : A} {xs : List A} → In a xs → In a (x ∷ xs)

  pub length-append : (xs ys : List A) → length (xs ++ ys) ≡ length xs + length ys
  length-append [] ys = omega arith
  length-append (x ∷ xs) ys = omega (arith, length-append xs ys)

  pub length-filter-le : (p : A → Bool) (xs : List A) → length (filter p xs) ≤ length xs
  length-filter-le p [] = omega arith
  length-filter-le p (x ∷ xs) = ground (arith, length-filter-le p xs)

  pub length-take : (n : ℕ) (xs : List A) → length (take n xs) ≡ min n (length xs)
  length-take zero xs = omega arith
  length-take (suc n) [] = omega arith
  length-take (suc n) (x ∷ xs) = omega (arith, length-take n xs)

  pub take-append-drop : (n : ℕ) (xs : List A) → take n xs ++ drop n xs ≡ xs
  take-append-drop zero xs = refl
  take-append-drop (suc n) [] = refl
  take-append-drop (suc n) (x ∷ xs) = rw (take-append-drop n xs)

  -- What is found is listed and passes the test.
  pub find_sound :
      (p : A → Bool) (xs : List A) (a : A) → find p xs ≡ some a → In a xs × (p a ≡ true)
  find_sound p [] a h = cc
  find_sound p (x ∷ xs) a h = elim (Bool-cases (p x)) [
    | inl hit ↦ (here (ground arith), ground arith)
    | inr miss ↦ let (m, t) = find_sound p xs a (ground arith) in (there m, t)
  ]

  pub any_sound : (p : A → Bool) (xs : List A) → any p xs ≡ true → (a : A) × In a xs × (p a ≡ true)
  any_sound p [] h = cc
  any_sound p (x ∷ xs) h = elim (Bool-cases (p x)) [
    | inl hit ↦ (x, here refl, hit)
    | inr miss ↦ let (a, m, t) = any_sound p xs (ground arith) in (a, there m, t)
  ]

  pub any_complete : (p : A → Bool) {a : A} {xs : List A} → In a xs → p a ≡ true → any p xs ≡ true
  any_complete p (here e) h = ground arith
  any_complete p (there m) h = ground (arith, any_complete p m h)

  pub all_sound : (p : A → Bool) {a : A} {xs : List A} → all p xs ≡ true → In a xs → p a ≡ true
  all_sound p h (here e) = ground arith
  all_sound p h (there m) = all_sound p (ground arith) m

  pub In-append_left : {a : A} {xs : List A} (ys : List A) → In a xs → In a (xs ++ ys)
  In-append_left ys (here e) = here e
  In-append_left ys (there m) = there (In-append_left ys m)

  pub In-append_right : {a : A} (xs : List A) {ys : List A} → In a ys → In a (xs ++ ys)
  In-append_right [] m = m
  In-append_right (x ∷ xs) m = there (In-append_right xs m)

  pub In-append : {a : A} (xs : List A) {ys : List A} → In a (xs ++ ys) → In a xs ⊎ In a ys
  In-append [] m = inr m
  In-append (x ∷ xs) (here e) = inl (here e)
  In-append (x ∷ xs) (there m) = elim (In-append xs m) [ inl l ↦ inl (there l) | inr r ↦ inr r ]

  pub In-cons : {a x : A} {xs : List A} → In a (x ∷ xs) → (a ≡ x) ⊎ In a xs
  In-cons (here e) = inl e
  In-cons (there m) = inr m

  pub In-filter : (p : A → Bool) (xs : List A) {a : A} → In a (filter p xs) → In a xs × (p a ≡ true)
  In-filter p [] m = (m, elim m [ ])
  In-filter p (x ∷ xs) {a} m = elim (Bool-cases (p x)) [
    | inl hit ↦ elim (In-cons (rw hit at m)) [
      | inl e ↦ (here e, rw e hit)
      | inr l ↦ let (l', t) = In-filter p xs l in (there l', t)
    ]
    | inr miss ↦ let (l, t) = In-filter p xs (rw miss at m) in (there l, t)
  ]

  pub In-of_filter :
      (p : A → Bool) {a : A} {xs : List A} → In a xs → p a ≡ true → In a (filter p xs)
  In-of_filter p (here {x} {xs} e) h = let t : p x ≡ true = ground arith in rw t (here e)
  In-of_filter p (there {x} {xs} m) h = elim (Bool-cases (p x)) [
    | inl hit ↦ rw hit (there (In-of_filter p m h))
    | inr miss ↦ rw miss (In-of_filter p m h)
  ]

  -- An entry after an update is one that was passed over, or the image of one that was not.
  pub In-update_where :
      (p : A → Bool) (f : A → A) (xs : List A) {y : A}
      → In y (update_where p f xs)
      → (x : A) × In x xs × (((p x ≡ true) × (y ≡ f x)) ⊎ ((p x ≡ false) × (y ≡ x)))
  In-update_where p f [] l = elim l [ ]
  In-update_where p f (x ∷ xs) (there l) =
      let (z, k, c) = In-update_where p f xs l in (z, there k, c)
  In-update_where p f (x ∷ xs) (here e) = elim (Bool-cases (p x)) [
    | inl t ↦ (x, here refl, inl (t, e ∙ (rw t)))
    | inr t ↦ (x, here refl, inr (t, e ∙ (rw t)))
  ]

  -- What the update keeps holds of every entry after it.
  pub update_where_keeps {κ} :
      (P : A → Type κ) (p : A → Bool) (f : A → A) (xs : List A)
      → ((x : A) → P x → P (f x))
      → ((x : A) → In x xs → P x)
      → (y : A) → In y (update_where p f xs)
      → P y
  update_where_keeps P p f xs keeps h y l =
      let (x, k, c) = In-update_where p f xs l in
      elim c [
        | inl (t, e) ↦ subst P (sym e) (keeps x (h x k))
        | inr (t, e) ↦ subst P (sym e) (h x k)
      ]

  pub In-update_where_of :
      (p : A → Bool) (f : A → A) {x : A} {xs : List A}
      → In x xs
      → In (if p x then f x else x) (update_where p f xs)
  In-update_where_of p f (here e) = here (ap (λ y. if p y then f y else y) e)
  In-update_where_of p f (there l) = there (In-update_where_of p f l)

module _ {ℓ κ} {A : Type ℓ} {B : Type κ} (f : A → B) where
  pub In-map : (xs : List A) {b : B} → In b (map f xs) → (a : A) × In a xs × (b ≡ f a)
  In-map [] m = elim m [ ]
  In-map (x ∷ xs) m = elim (In-cons m) [
    | inl e ↦ (x, here refl, e)
    | inr l ↦ let (a, k, e) = In-map xs l in (a, there k, e)
  ]

  pub In-of_map : {a : A} {xs : List A} → In a xs → In (f a) (map f xs)
  In-of_map (here e) = here (ap f e)
  In-of_map (there m) = there (In-of_map m)

-- `set.has(key)` and `list.includes(key)`.
abbrev pub has : List String → String → Bool
has keys key = any (λ k. k == key) keys

-- `[...new Set(keys)]`: the first of equal keys is kept.
abbrev pub set_of : List String → List String
set_of [] = []
set_of (k ∷ ks) = k ∷ filter (λ x. not (x == k)) (set_of ks)

pub has_iff : (keys : List String) (key : String) → (has keys key ≡ true) ↔ In key keys
has_iff keys key = (
  λ h.
      let (k, m, t) = any_sound (λ k. k == key) keys h in
      subst (λ s. In s keys) ((eq_iff k key).0 t) m,
  λ m. any_complete (λ k. k == key) m ((eq_iff key key).1 refl),
)

pub not_has : (keys : List String) (key : String) → has keys key ≡ false → ¬ In key keys
not_has keys key h m = cc ((has_iff keys key).1 m)

module _ {ℓ} {A : Type ℓ} where
  pub length-drop : (n : ℕ) (xs : List A) → length (drop n xs) ≡ length xs - n
  length-drop zero xs = omega arith
  length-drop (suc n) [] = omega arith
  length-drop (suc n) (x ∷ xs) = omega (arith, length-drop n xs)

  -- Where nothing is found, nothing listed passes the test.
  pub find_complete :
      (p : A → Bool) {a : A} {xs : List A} → find p xs ≡ none → In a xs → p a ≡ false
  find_complete p h (here e) = ground arith
  find_complete p {xs = x ∷ xs} h (there m) = find_complete p (ground arith) m
