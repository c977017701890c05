-- ===== src/Common/Distinct.antt =====
-- Lists whose keys are pairwise different: the order in which a map or a table with a primary key
-- lists its entries.
use Prim.Native.Nat.{ℕ, zero, suc}
use Prim.Native.String.{String}
use mathlib.Core.Path.{◌≡◌, refl, sym, ap, ◌∙◌}
use mathlib.Core.Logic.{◌≢◌, inl, inr}
use mathlib.Core.Bool.{Bool, true}
use mathlib.Core.Option.{some}
use mathlib.Core.List.{List, [], ◌∷◌, ◌++◌, map}
use text.Mathlib.TextEquality.{eq_iff}
use funes_vault.Common.Tests.{if◌then◌else◌, Bool-cases, ◌==◌, eq_false_of_ne}
use funes_vault.Common.Lists.{
  filter, find, drop, update_where, In-update_where, In, here, there, In-cons, In-append, In-filter,
  In-map,
}

module _ {ℓ} {A : Type ℓ} (key : A → String) where
  -- No entry has the key of another one.
  pub data IsDistinct : List A → Type ℓ where
    nobody : IsDistinct []
    newcomer :
        {x : A} {xs : List A}
        → ((y : A) → In y xs → key y ≢ key x)
        → IsDistinct xs
        → IsDistinct (x ∷ xs)

  pub IsDistinct-append :
      {x : A} {xs : List A}
      → IsDistinct xs
      → ((y : A) → In y xs → key y ≢ key x)
      → IsDistinct (xs ++ x ∷ [])
  IsDistinct-append nobody h = newcomer (λ y l. elim l [ ]) nobody
  IsDistinct-append {x} (newcomer {x = z} {xs = zs} f d) h =
      newcomer
        (λ y l. elim (In-append zs l) [
          | inl k ↦ f y k
          | inr k ↦ elim (In-cons {xs = []} k) [
            | inl e ↦ λ q. h z (here refl) (sym q ∙ ap key e)
            | inr n ↦ elim n [ ]
          ]
        ])
        (IsDistinct-append d (λ y l. h y (there l)))

  pub IsDistinct-filter : (p : A → Bool) {xs : List A} → IsDistinct xs → IsDistinct (filter p xs)
  IsDistinct-filter p nobody = nobody
  IsDistinct-filter p (newcomer {x} {xs} f d) = elim (Bool-cases (p x)) [
    | inl t ↦ rw t (newcomer (λ y l. f y (In-filter p xs l).0) (IsDistinct-filter p d))
    | inr t ↦ rw t (IsDistinct-filter p d)
  ]

  pub IsDistinct-update_where :
      (p : A → Bool) (g : A → A) {xs : List A}
      → ((x : A) → key (g x) ≡ key x)
      → IsDistinct xs
      → IsDistinct (update_where p g xs)
  IsDistinct-update_where p g keeps nobody = nobody
  IsDistinct-update_where p g keeps (newcomer {x} {xs} f d) =
      newcomer
        (λ y l q.
          let (z, k, c) = In-update_where p g xs l in
          let same : key y ≡ key z = elim c [
            | inl (t, e) ↦ ap key e ∙ keeps z
            | inr (t, e) ↦ ap key e
          ] in
          f z k (sym same ∙ q ∙ key_kept p g keeps x))
        (IsDistinct-update_where p g keeps d)
    where
      key_kept :
          (p : A → Bool) (g : A → A)
          → ((x : A) → key (g x) ≡ key x)
          → (x : A) → key (if p x then g x else x) ≡ key x
      key_kept p g keeps x = elim (Bool-cases (p x)) [ inl t ↦ rw t (keeps x) | inr t ↦ rw t refl ]

  pub IsDistinct-drop : (n : ℕ) {xs : List A} → IsDistinct xs → IsDistinct (drop n xs)
  IsDistinct-drop zero d = d
  IsDistinct-drop (suc n) nobody = nobody
  IsDistinct-drop (suc n) (newcomer f d) = IsDistinct-drop n d

  pub IsDistinct-map :
      (g : A → A) {xs : List A}
      → ((x : A) → key (g x) ≡ key x)
      → IsDistinct xs
      → IsDistinct (map g xs)
  IsDistinct-map g keeps nobody = nobody
  IsDistinct-map g keeps (newcomer {x} {xs} f d) =
      newcomer
        (λ y l.
          let (z, k, e) = In-map g xs l in
          λ q. f z k (sym (keeps z) ∙ ap key (sym e) ∙ q ∙ keeps x))
        (IsDistinct-map g keeps d)

  -- Two listed entries with one key are one entry.
  pub IsDistinct-unique :
      {xs : List A} {x y : A} → IsDistinct xs → In x xs → In y xs → key x ≡ key y → x ≡ y
  IsDistinct-unique nobody l m h = elim l [ ]
  IsDistinct-unique (newcomer f d) (here e) (here q) h = e ∙ sym q
  IsDistinct-unique (newcomer f d) (here e) (there m) h = absurd (f _ m (sym h ∙ ap key e))
  IsDistinct-unique (newcomer f d) (there l) (here q) h = absurd (f _ l (h ∙ ap key q))
  IsDistinct-unique (newcomer f d) (there l) (there m) h = IsDistinct-unique d l m h

  -- An entry is found by its key.
  pub IsDistinct-find :
      {xs : List A} {x : A} → IsDistinct xs → In x xs → find (λ y. key y == key x) xs ≡ some x
  IsDistinct-find nobody l = elim l [ ]
  IsDistinct-find {x} (newcomer {x = z} f d) (here e) =
      let hit : (key z == key x) ≡ true = (eq_iff (key z) (key x)).1 (ap key (sym e)) in
      rw hit (ap some (sym e))
  IsDistinct-find {x} (newcomer {x = z} f d) (there l) =
      rw (eq_false_of_ne (key z) (key x) (λ e. f x l (sym e))) (IsDistinct-find d l)
