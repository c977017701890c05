-- ===== src/OAuth/Operations.antt =====
-- `resultingOperations` as a union of sets, and what its length tells.
use funes_vault.Common.{
  fun_ext, String, ◌≡◌, refl, sym, ap, ◌∙◌, Bool, true, false, not, ◌&&◌, ◌||◌, List, [], ◌∷◌, ◌++◌,
  inl, inr, Bool-cases, filter, length, length-append, arith,
}
use funes_vault.Vault.Enums.{Operation, same_operation}
use funes_vault.Policies.Authority.{same_operation_sound}
use funes_vault.OAuth.Permissions.{operation_set, resulting_operations, scopes_to_operations}
use funes_vault.OAuth.Consent.Requests.{has_operation}

-- No operation is listed twice.
abbrev pub no_repeats : List Operation → Bool
no_repeats [] = true
no_repeats (o ∷ os) = not (has_operation os o) && no_repeats os

same_operation_refl : (a : Operation) → same_operation a a ≡ true
same_operation_refl a = ground arith

module _ {ℓ} {A : Type ℓ} where
  filter-append : (p : A → Bool) (xs ys : List A) → filter p (xs ++ ys) ≡ filter p xs ++ filter p ys
  filter-append p [] ys = refl
  filter-append p (x ∷ xs) ys = elim (Bool-cases (p x)) [
    | inl t ↦ rw t (ap (λ zs. x ∷ zs) (filter-append p xs ys))
    | inr t ↦ rw t (filter-append p xs ys)
  ]

  filter-filter :
      (p q : A → Bool) (xs : List A) → filter p (filter q xs) ≡ filter (λ x. p x && q x) xs
  filter-filter p q [] = refl
  filter-filter p q (x ∷ xs) = ground (arith, filter-filter p q xs)

  filter_cong : (p q : A → Bool) (xs : List A) → ((x : A) → p x ≡ q x) → filter p xs ≡ filter q xs
  filter_cong p q xs h = ap (λ r. filter r xs) (fun_ext h)

abbrev others : Operation → Operation → Bool
others o x = not (same_operation x o)

filter_absent :
    (o : Operation) (os : List Operation) → has_operation os o ≡ false → filter (others o) os ≡ os
filter_absent o [] h = refl
filter_absent o (x ∷ os) h = ground (arith, filter_absent o os)

-- An operation that is not the one filtered out stays or stays away.
has_operation-filter :
    (o x : Operation) (os : List Operation)
    → same_operation x o ≡ false
    → has_operation (filter (others x) os) o ≡ has_operation os o
has_operation-filter o x [] h = refl
has_operation-filter o x (y ∷ os) h = elim (Bool-cases (same_operation y x)) [
  | inl t ↦
      let miss : same_operation y o ≡ false =
        ap (λ z. same_operation z o) (same_operation_sound y x t) ∙ h in
      rw (t, miss) (has_operation-filter o x os h)
  | inr t ↦ rw (t, has_operation-filter o x os h)
]

-- A set has the operations of its list.
has_operation-operation_set :
    (o : Operation) (os : List Operation) → has_operation (operation_set os) o ≡ has_operation os o
has_operation-operation_set o [] = refl
has_operation-operation_set o (x ∷ os) = elim (Bool-cases (same_operation x o)) [
  | inl t ↦ rw t
  | inr t ↦ rw (t, has_operation-filter o x (operation_set os) t, has_operation-operation_set o os)
]

has_operation-append :
    (o : Operation) (xs ys : List Operation)
    → has_operation (xs ++ ys) o ≡ (has_operation xs o || has_operation ys o)
has_operation-append o [] ys = refl
has_operation-append o (x ∷ xs) ys = ground (arith, has_operation-append o xs ys)

-- The operations of the union.
pub has_operation-resulting_operations :
    (o : Operation) (existing : List Operation) (scopes : List String)
    → has_operation (resulting_operations existing scopes) o
      ≡ (has_operation existing o || has_operation (scopes_to_operations scopes) o)
has_operation-resulting_operations o existing scopes =
    has_operation-operation_set o (existing ++ scopes_to_operations scopes)
    ∙ has_operation-append o existing (scopes_to_operations scopes)

abbrev absent_from : List Operation → Operation → Bool
absent_from xs o = not (has_operation xs o)

-- A list without repetition begins the set of every list that it begins.
operation_set-append :
    (xs ys : List Operation)
    → no_repeats xs ≡ true
    → operation_set (xs ++ ys) ≡ xs ++ filter (absent_from xs) (operation_set ys)
operation_set-append [] ys h = sym (filter_all (operation_set ys))
  where
    filter_all : (zs : List Operation) → filter (absent_from []) zs ≡ zs
    filter_all [] = refl
    filter_all (z ∷ zs) = ap (λ ws. z ∷ ws) (filter_all zs)
operation_set-append (x ∷ xs) ys h =
    let absent : has_operation xs x ≡ false = ground arith in
    ap (λ zs. x ∷ filter (others x) zs) (operation_set-append xs ys (ground arith))
    ∙ ap (λ zs. x ∷ zs)
        (filter-append (others x) xs (filter (absent_from xs) (operation_set ys))
          ∙ ap (λ zs. zs ++ filter (others x) (filter (absent_from xs) (operation_set ys)))
              (filter_absent x xs absent)
          ∙ ap (λ zs. xs ++ zs)
              (filter-filter (others x) (absent_from xs) (operation_set ys)
                ∙ filter_cong _ _ (operation_set ys) (λ o. ground arith)))

-- Where the union is no longer than the list, it adds nothing.
pub resulting_operations_same :
    (existing : List Operation) (scopes : List String)
    → no_repeats existing ≡ true
    → length (resulting_operations existing scopes) ≡ length existing
    → resulting_operations existing scopes ≡ existing
resulting_operations_same existing scopes h e =
    let parts = operation_set-append existing (scopes_to_operations scopes) h in
    let added = filter (absent_from existing) (operation_set (scopes_to_operations scopes)) in
    let none_added : added ≡ [] =
      empty added (omega (arith, length-append existing added, ap length parts)) in
    parts ∙ ap (λ zs. existing ++ zs) none_added ∙ append-nil existing
  where
    empty : (zs : List Operation) → length zs ≡ 0 → zs ≡ []
    empty [] z = refl
    empty (w ∷ zs) z = absurd (omega arith)

    append-nil : (zs : List Operation) → zs ++ [] ≡ zs
    append-nil [] = refl
    append-nil (z ∷ zs) = ap (λ ws. z ∷ ws) (append-nil zs)
