-- ===== src/Common/Tests.antt =====
-- Boolean tests on numbers, texts and options, and the conditional.
use Prim.Native.Nat.{ℕ, ◌≤◌, ◌<◌, compare, Ordering}
use Prim.Native.String.{String, ◌++◌}
use mathlib.Core.Path.{◌≡◌, refl}
use mathlib.Core.Logic.{◌≢◌, ◌↔◌, ◌⊎◌, inl, inr}
use mathlib.Core.Bool.{Bool, true, false}
use mathlib.Core.Option.{Option, none, some}
use native.Mathlib.Omega.{arith}
use text.Mathlib.Text.{◌==◌ as str_eq}
use text.Mathlib.TextEquality.{eq_iff}

abbrev pub ltb : ℕ → ℕ → Bool
ltb a b = elim (compare a b) [ Ordering.lt ↦ true | _ ↦ false ]

abbrev pub leb : ℕ → ℕ → Bool
leb a b = elim (compare a b) [ Ordering.gt ↦ false | _ ↦ true ]

abbrev pub nat_eq : ℕ → ℕ → Bool
nat_eq a b = elim (compare a b) [ Ordering.eq ↦ true | _ ↦ false ]

-- `===` on identifiers and keys.
infix 50 ◌==◌
abbrev pub ◌==◌ : String → String → Bool
s == t = str_eq s t

-- A template literal.
abbrev pub append : String → String → String
append s t = s ++ t

infix 1 if◌then◌else◌
abbrev pub if◌then◌else◌ {ℓ} : {A : Type ℓ} → Bool → A → A → A
if true then x else y = x
if false then x else y = y

-- `o === s`, where `o` may be null.
abbrev pub opt_is : Option String → String → Bool
opt_is none s = false
opt_is (some t) s = t == s

-- `o === p`, where both may be null.
abbrev pub opt_eq : Option String → Option String → Bool
opt_eq none none = true
opt_eq none (some p) = false
opt_eq (some o) none = false
opt_eq (some o) (some p) = o == p

abbrev pub is_some {ℓ} : {A : Type ℓ} → Option A → Bool
is_some none = false
is_some (some a) = true

pub leb→le : (a b : ℕ) → leb a b ≡ true → a ≤ b
leb→le a b h = ground arith

pub ltb→lt : (a b : ℕ) → ltb a b ≡ true → a < b
ltb→lt a b h = ground arith

pub opt_is_iff : (o : Option String) (s : String) → (opt_is o s ≡ true) ↔ (o ≡ some s)
opt_is_iff none s = ground arith
opt_is_iff (some t) s = ground (arith, eq_iff t s)

pub opt_eq_iff : (o p : Option String) → (opt_eq o p ≡ true) ↔ (o ≡ p)
opt_eq_iff none none = ground arith
opt_eq_iff none (some p) = ground arith
opt_eq_iff (some o) none = ground arith
opt_eq_iff (some o) (some p) = ground (arith, eq_iff o p)

-- To split on a computed value and keep the equation.
pub Bool-cases : (b : Bool) → (b ≡ true) ⊎ (b ≡ false)
Bool-cases true = inl refl
Bool-cases false = inr refl

pub Option-cases {ℓ} : {A : Type ℓ} (o : Option A) → (o ≡ none) ⊎ ((a : A) × (o ≡ some a))
Option-cases none = inl refl
Option-cases (some a) = inr (a, refl)

pub some_cancel {ℓ} : {A : Type ℓ} {a b : A} → some a ≡ some b → a ≡ b
some_cancel h = cc h

pub eq_false_of_ne : (s t : String) → s ≢ t → (s == t) ≡ false
eq_false_of_ne s t h = ground (arith, eq_iff s t)
