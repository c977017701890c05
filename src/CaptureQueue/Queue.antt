-- ===== src/CaptureQueue/Queue.antt =====
-- The queue of an upload: pending entries of the store, each once, also after a round.
use funes_vault.Common.{
  suc, String, ◌≡◌, refl, sym, ap, ◌∙◌, ◌≢◌, Bool, true, List, [], ◌∷◌, In, here, there, In-cons,
  In-filter, filter, length, arith, Bool-cases, inl, inr, IsDistinct, nobody, newcomer,
  IsDistinct-filter,
}
use funes_vault.CaptureQueue.Store.{id_of, put-eq-rewritten, In-rewritten, IsDistinct-rewritten}
use funes_vault.CaptureQueue.{
  QueuedCapture, is_pending, sort_by, pending_captures, put, Verdict, accepted, declined, postponed,
  after, insert_by,
}

-- A queue for a store: its entries are pending entries of the store, each once.
pub record IsQueue (cs store : List QueuedCapture) : Type 0 where
  pub keyed : IsDistinct id_of store
  pub once : IsDistinct id_of cs
  pub listed : (c : QueuedCapture) → In c cs → In c store × (is_pending c ≡ true)

In-insert_by :
    (before : String → String → Bool) (c x : QueuedCapture) (xs : List QueuedCapture)
    → In x (insert_by before c xs)
    → In x (c ∷ xs)
In-insert_by before c x [] l = l
In-insert_by before c x (y ∷ ys) l = elim (Bool-cases (before c.captured_at y.captured_at)) [
  | inl t ↦ rw t at l
  | inr t ↦ elim (In-cons (rw t at l)) [
    | inl e ↦ there (here e)
    | inr k ↦ elim (In-cons (In-insert_by before c x ys k)) [
      | inl e ↦ here e
      | inr m ↦ there (there m)
    ]
  ]
]

IsDistinct-insert_by :
    (before : String → String → Bool) (c : QueuedCapture) {xs : List QueuedCapture}
    → ((y : QueuedCapture) → In y xs → id_of y ≢ id_of c)
    → IsDistinct id_of xs
    → IsDistinct id_of (insert_by before c xs)
IsDistinct-insert_by before c h nobody = newcomer {x = c} {xs = []} h nobody
IsDistinct-insert_by before c h (newcomer {x = y} {xs = ys} f d) =
    elim (Bool-cases (before c.captured_at y.captured_at)) [
      | inl t ↦ rw t (newcomer {x = c} {xs = y ∷ ys} h (newcomer {x = y} {xs = ys} f d))
      | inr t ↦ rw t (
          newcomer {x = y} {xs = insert_by before c ys}
            (λ z l. elim (In-cons (In-insert_by before c z ys l)) [
              | inl e ↦ λ q. h y (here refl) (sym q ∙ ap id_of e)
              | inr k ↦ f z k
            ])
            (IsDistinct-insert_by before c (λ z l. h z (there l)) d))
    ]

length-insert_by :
    (before : String → String → Bool) (c : QueuedCapture) (xs : List QueuedCapture)
    → length (insert_by before c xs) ≡ suc (length xs)
length-insert_by before c [] = refl
length-insert_by before c (y ∷ ys) = ground (arith, length-insert_by before c ys)

pub length-sort_by :
    (before : String → String → Bool) (cs : List QueuedCapture)
    → length (sort_by before cs) ≡ length cs
length-sort_by before [] = refl
length-sort_by before (c ∷ cs) =
    length-insert_by before c (sort_by before cs) ∙ ap suc (length-sort_by before cs)

In-sort_by :
    (before : String → String → Bool) (x : QueuedCapture) (cs : List QueuedCapture)
    → In x (sort_by before cs)
    → In x cs
In-sort_by before x [] l = l
In-sort_by before x (c ∷ cs) l = elim (In-cons (In-insert_by before c x (sort_by before cs) l)) [
  | inl e ↦ here e
  | inr k ↦ there (In-sort_by before x cs k)
]

IsDistinct-sort_by :
    (before : String → String → Bool) {cs : List QueuedCapture}
    → IsDistinct id_of cs
    → IsDistinct id_of (sort_by before cs)
IsDistinct-sort_by before nobody = nobody
IsDistinct-sort_by before (newcomer {x = c} {xs = cs} f d) =
    IsDistinct-insert_by before c (λ y l. f y (In-sort_by before y cs l))
      (IsDistinct-sort_by before d)

pub pending_captures-IsQueue :
    (before : String → String → Bool) (store : List QueuedCapture)
    → IsDistinct id_of store
    → IsQueue (pending_captures before store) store
unfolding pending_captures
pending_captures-IsQueue before store d = record {
  keyed = d;
  once = IsDistinct-sort_by before (IsDistinct-filter id_of is_pending d);
  listed = λ c l. In-filter is_pending store (In-sort_by before c (filter is_pending store) l);
}

pub after_id : (c : QueuedCapture) (v : Verdict) → id_of (after c v) ≡ id_of c
after_id c (accepted x) = refl
after_id c (declined m) = refl
after_id c (postponed w m) = refl

-- One round leaves a queue for the new store.
pub IsQueue-step :
    {c : QueuedCapture} {cs store : List QueuedCapture} (v : Verdict)
    → IsQueue (c ∷ cs) store
    → IsQueue cs (put (after c v) store)
IsQueue-step {c} {cs} {store} v q = elim q.once [
  | newcomer f d ↦
      rw (put-eq-rewritten (after c v) (q.listed c (here refl)).0 (sym (after_id c v))) (record {
        keyed = IsDistinct-rewritten (after c v) q.keyed;
        once = d;
        listed = λ x l. (
          In-rewritten (after c v) x (q.listed x (there l)).0 (λ e. f x l (e ∙ after_id c v)),
          (q.listed x (there l)).1,
        );
      })
]
