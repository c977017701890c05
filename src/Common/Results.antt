-- ===== src/Common/Results.antt =====
-- Outcomes of a call that may throw.
use mathlib.Core.Bool.{Bool, true, false}
use mathlib.Core.Logic.{◌⊎◌, inl, inr}
use mathlib.Core.Path.{◌≡◌, refl}
use funes_vault.Common.Tests.{if◌then◌else◌}
use mathlib.Core.Option.{Option, none, some}

-- A call that returns, or throws.
pub data Result {ℓ κ} (E : Type ℓ) (A : Type κ) : Type (ℓ ⊔ κ) where
  ok : A → Result E A
  err : E → Result E A

-- `if (!test) throw e`
abbrev pub guard {ℓ} : {E : Type ℓ} → Bool → E → Result E (Unit {0})
guard test e = if test then ok tt else err e

infixl 5 ◌>>=◌ ◌>>◌
abbrev pub ◌>>=◌ {ℓ κ μ} :
    {E : Type ℓ} {A : Type κ} {B : Type μ} → Result E A → (A → Result E B) → Result E B
call >>= next = elim call [ err e ↦ err e | ok value ↦ next value ]

abbrev pub ◌>>◌ {ℓ κ} : {E : Type ℓ} {B : Type κ} → Result E (Unit {0}) → Result E B → Result E B
call >> next = call >>= λ _. next

-- `if (!o) throw e`
abbrev pub or_throw {ℓ κ} : {E : Type ℓ} {A : Type κ} → Option A → E → Result E A
or_throw none e = err e
or_throw (some a) e = ok a

pub Result-cases {ℓ κ} :
    {E : Type ℓ} {A : Type κ} (m : Result E A) → ((a : A) × (m ≡ ok a)) ⊎ ((e : E) × (m ≡ err e))
Result-cases (ok a) = inl (a, refl)
Result-cases (err e) = inr (e, refl)

-- Where a sequence of two calls returns, the first has returned, and so has the second on its value.
pub >>=-eq-ok {ℓ κ μ} :
    {E : Type ℓ} {X : Type κ} {Y : Type μ} (first : Result E X) (next : X → Result E Y) {y : Y}
    → first >>= next ≡ ok y
    → (x : X) × (first ≡ ok x) × (next x ≡ ok y)
>>=-eq-ok (err thrown) next returned = cc returned
>>=-eq-ok (ok value) next returned = (value, refl, returned)

-- A guard that lets the call go on has held.
pub >>-guard {ℓ κ} :
    {E : Type ℓ} {B : Type κ} (b : Bool) (e : E) (k : Result E B) {r : B}
    → (guard b e >> k) ≡ ok r
    → (b ≡ true) × (k ≡ ok r)
>>-guard true e k h = (refl, h)
>>-guard false e k h = cc h

-- Where two calls in a row return, so do both.
pub >>-eq-ok {ℓ κ} :
    {E : Type ℓ} {B : Type κ} (first : Result E (Unit {0})) (next : Result E B) {r : B}
    → first >> next ≡ ok r
    → (first ≡ ok tt) × (next ≡ ok r)
>>-eq-ok (err thrown) next h = cc h
>>-eq-ok (ok tt) next h = (refl, h)

pub guard-eq-ok {ℓ} : {E : Type ℓ} (b : Bool) (e : E) {u : Unit {0}} → guard b e ≡ ok u → b ≡ true
guard-eq-ok true e h = refl
guard-eq-ok false e h = cc h

pub or_throw-eq-ok {ℓ κ} :
    {E : Type ℓ} {A : Type κ} (o : Option A) (e : E) {a : A} → or_throw o e ≡ ok a → o ≡ some a
or_throw-eq-ok none e h = cc h
or_throw-eq-ok (some x) e h = cc h

pub ok_cancel {ℓ κ} :
    {E : Type ℓ} {A : Type κ} {a b : A} → ◌≡◌ {A = Result E A} (ok a) (ok b) → a ≡ b
ok_cancel h = cc h

-- Where three calls that feed one another return, each has returned.
pub >>=-chain {ℓ κ μ ν ξ} :
    {E : Type ℓ} {A : Type κ} {B : Type μ} {C : Type ν} {D : Type ξ} (first : Result E A)
    (second : A → Result E B) (third : A → B → Result E C) (last : A → B → C → D) {d : D}
    → first >>= (λ a. second a >>= λ b. third a b >>= λ c. ok (last a b c)) ≡ ok d
    → (a : A) × (b : B) × (c : C) × (first ≡ ok a)
      × (second a ≡ ok b)
      × (third a b ≡ ok c)
      × (last a b c ≡ d)
>>=-chain first second third last h = elim (Result-cases first) [
  | inr (x, e) ↦ cc (rw e at h)
  | inl (a, e) ↦ elim (Result-cases (second a)) [
    | inr (x, e') ↦ cc (rw (e, e') at h)
    | inl (b, e') ↦ elim (Result-cases (third a b)) [
      | inr (x, e'') ↦ cc (rw (e, e', e'') at h)
      | inl (c, e'') ↦ (a, b, c, e, e', e'', ok_cancel (rw (e, e', e'') at h))
    ]
  ]
]

-- A value that is there and passes two guards.
pub or_throw-guarded {ℓ κ μ} :
    {E : Type ℓ} {A : Type κ} {B : Type μ} (o : Option A) (e e1 e2 : E) (p q : A → Bool) (f : A → B)
    {b : B}
    → or_throw o e >>= (λ a. guard (p a) e1 >> guard (q a) e2 >> ok (f a)) ≡ ok b
    → (a : A) × (o ≡ some a) × (p a ≡ true) × (q a ≡ true) × (f a ≡ b)
or_throw-guarded none e e1 e2 p q f h = cc h
or_throw-guarded (some a) e e1 e2 p q f h =
    let (guards, last) = >>-eq-ok (guard (p a) e1 >> guard (q a) e2) (ok (f a)) h in
    let (first, second) = >>-eq-ok (guard (p a) e1) (guard (q a) e2) guards in
    (a, refl, guard-eq-ok (p a) e1 first, guard-eq-ok (q a) e2 second, ok_cancel last)
