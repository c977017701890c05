-- ===== src/CaptureQueue/Store.antt =====
-- The store under `put`: one entry for an id, and what becomes of the counts.
use funes_vault.Common.{
  ℕ, suc, ◌+◌, String, ◌≡◌, refl, sym, ap, ◌∙◌, ◌≢◌, Bool, true, false, ◌==◌, eq_iff, List, [], ◌∷◌,
  In, here, there, any_complete, filter, length, update_where, if◌then◌else◌, arith, inl, inr,
  IsDistinct, nobody, newcomer, eq_false_of_ne, In-update_where,
}
use funes_vault.CaptureQueue.{QueuedCapture, put}

abbrev pub id_of : QueuedCapture → String
id_of c = c.capture_id

abbrev pub count : (QueuedCapture → Bool) → List QueuedCapture → ℕ
count p store = length (filter p store)

abbrev pub one_if : Bool → ℕ
one_if true = 1
one_if false = 0

abbrev pub rewritten : QueuedCapture → List QueuedCapture → List QueuedCapture
rewritten c store =
    update_where (λ (x : QueuedCapture). x.capture_id == c.capture_id) (λ _. c) store

-- A put under a known id replaces its entry.
pub put-eq-rewritten :
    (c : QueuedCapture) {x : QueuedCapture} {store : List QueuedCapture}
    → In x store
    → id_of x ≡ id_of c
    → put c store ≡ rewritten c store
unfolding put
put-eq-rewritten c {x} {store} l e =
    rw (any_complete (λ (y : QueuedCapture). y.capture_id == c.capture_id) l ((eq_iff _ _).1 e))
      refl

-- Where no entry has the id, nothing is rewritten.
rewritten_absent :
    (c : QueuedCapture) (store : List QueuedCapture)
    → ((y : QueuedCapture) → In y store → id_of y ≢ id_of c)
    → rewritten c store ≡ store
rewritten_absent c [] h = refl
rewritten_absent c (x ∷ xs) h =
    rw (eq_false_of_ne x.capture_id c.capture_id (h x (here refl)))
      (ap (◌∷◌ x) (rewritten_absent c xs (λ y l. h y (there l))))

count-cons :
    (p : QueuedCapture → Bool) (x : QueuedCapture) (xs : List QueuedCapture)
    → count p (x ∷ xs) ≡ one_if (p x) + count p xs
count-cons p x xs = ground arith

-- The entry leaves one count and joins another.
pub count-rewritten :
    (p : QueuedCapture → Bool) (c x : QueuedCapture) {store : List QueuedCapture}
    → IsDistinct id_of store
    → In x store
    → id_of x ≡ id_of c
    → count p (rewritten c store) + one_if (p x) ≡ count p store + one_if (p c)
count-rewritten p c x nobody l e = elim l [ ]
count-rewritten p c x (newcomer {x = y} {xs = ys} f d) (here q) e =
    let hit = (eq_iff y.capture_id c.capture_id).1 (ap id_of (sym q) ∙ e) in
    let same = rewritten_absent c ys (λ z k r. f z k (r ∙ sym e ∙ ap id_of q)) in
    rw (hit, same) (omega (arith, count-cons p c ys, count-cons p y ys, ap (λ z. one_if (p z)) q))
count-rewritten p c x (newcomer {x = y} {xs = ys} f d) (there l) e =
    let miss = eq_false_of_ne y.capture_id c.capture_id (λ r. f x l (e ∙ sym r)) in
    rw miss (
      omega
        (arith, count-cons p y (rewritten c ys), count-cons p y ys, count-rewritten p c x d l e))

pub length-rewritten :
    (c : QueuedCapture) (store : List QueuedCapture) → length (rewritten c store) ≡ length store
length-rewritten c [] = refl
length-rewritten c (x ∷ xs) = ap suc (length-rewritten c xs)

-- Entries under other ids stay where they are.
pub In-rewritten :
    (c x : QueuedCapture) {store : List QueuedCapture}
    → In x store
    → id_of x ≢ id_of c
    → In x (rewritten c store)
In-rewritten c x (here {x = y} q) h =
    rw (eq_false_of_ne y.capture_id c.capture_id (λ e. h (ap id_of q ∙ e))) (here q)
In-rewritten c x (there l) h = there (In-rewritten c x l h)

-- The new entry is listed in place of one with its id.
pub In-rewritten_new :
    (c x : QueuedCapture) {store : List QueuedCapture}
    → In x store
    → id_of x ≡ id_of c
    → In c (rewritten c store)
In-rewritten_new c x (here {x = y} q) e =
    rw ((eq_iff y.capture_id c.capture_id).1 (ap id_of (sym q) ∙ e)) (here refl)
In-rewritten_new c x (there l) e = there (In-rewritten_new c x l e)

In-rewritten_id :
    (c : QueuedCapture) (store : List QueuedCapture) (y : QueuedCapture)
    → In y (rewritten c store)
    → (x : QueuedCapture) × In x store × (id_of x ≡ id_of y)
In-rewritten_id c store y l =
    let (x, k, h) =
      In-update_where (λ (z : QueuedCapture). z.capture_id == c.capture_id) _ store l in
    elim h [
      | inl p ↦ (x, k, (eq_iff x.capture_id c.capture_id).0 p.0 ∙ ap id_of (sym p.1))
      | inr p ↦ (x, k, ap id_of (sym p.1))
    ]

pub IsDistinct-rewritten :
    (c : QueuedCapture) {store : List QueuedCapture}
    → IsDistinct id_of store
    → IsDistinct id_of (rewritten c store)
IsDistinct-rewritten c nobody = nobody
IsDistinct-rewritten c (newcomer {x = y} {xs = ys} f d) =
    newcomer (λ z l. let (x, k, e) = In-rewritten_id c ys z l in λ q. f x k (e ∙ q ∙ head_id))
      (IsDistinct-rewritten c d)
  where
    head_id : id_of (if y.capture_id == c.capture_id then c else y) ≡ id_of y
    head_id = ground (arith, eq_iff y.capture_id c.capture_id)
