-- ===== src/CaptureQueue/Kept.antt =====
-- What an upload does to each capture.
use funes_vault.Common.{
  ℕ, ◌+◌, String, ◌≡◌, refl, sym, ap, ◌∙◌, ◌≢◌, ◌⊎◌, inl, inr, Bool, true, ◌==◌, eq_iff, Option,
  none, some, List, [], ◌∷◌, In, here, there, Bool-cases, IsDistinct, newcomer, IsDistinct-unique,
}
use funes_vault.CaptureQueue.Store.{id_of, put-eq-rewritten, In-rewritten, In-rewritten_new}
use funes_vault.CaptureQueue.Queue.{IsQueue, IsQueue-step, after_id, pending_captures-IsQueue}
use funes_vault.CaptureQueue.{
  QueuedCapture, is_pending, pending_captures, put, Reply, Verdict, verdict, after, newly_synced,
  newly_failed, stops, Stopped, SyncOutcome, finish, next_round, sync_loop, sync_captures,
}

In-next :
    {x : QueuedCapture} {store : List QueuedCapture} (o : Option Stopped)
    (rest : List QueuedCapture × SyncOutcome) (s f : ℕ)
    → In x rest.0
    → In x store
    → In x (next_round o rest (finish store s f)).0
In-next none rest s f a b = a
In-next (some why) rest s f a b = b

In-put :
    (c x : QueuedCapture) (v : Verdict) {cs store : List QueuedCapture}
    → IsQueue (c ∷ cs) store
    → In x store
    → id_of x ≢ id_of c
    → In x (put (after c v) store)
In-put c x v q l h =
    rw (put-eq-rewritten (after c v) (q.listed c (here refl)).0 (sym (after_id c v)))
      (In-rewritten (after c v) x l (λ e. h (e ∙ after_id c v)))

In-put_new :
    (c : QueuedCapture) (v : Verdict) {cs store : List QueuedCapture}
    → IsQueue (c ∷ cs) store
    → In (after c v) (put (after c v) store)
In-put_new c v q =
    let listed = (q.listed c (here refl)).0 in
    rw (put-eq-rewritten (after c v) listed (sym (after_id c v)))
      (In-rewritten_new (after c v) c listed (sym (after_id c v)))

-- An entry whose id is not queued stays as it is.
not_queued :
    (fetch : QueuedCapture → Reply) (cs : List QueuedCapture) (s f : ℕ) (store : List QueuedCapture)
    (x : QueuedCapture)
    → IsQueue cs store
    → In x store
    → ((y : QueuedCapture) → In y cs → id_of y ≢ id_of x)
    → In x (sync_loop fetch cs s f store).0
unfolding sync_loop
not_queued fetch [] s f store x q l h = l
not_queued fetch (c ∷ cs) s f store x q l h =
    let v = verdict (fetch c) in
    let kept = In-put c x v q l (λ e. h c (here refl) (sym e)) in
    In-next (stops v) _ _ _
      (not_queued fetch cs (s + newly_synced v) (f + newly_failed v) (put (after c v) store) x
        (IsQueue-step v q) kept (λ y k. h y (there k)))
      kept

-- What becomes of a capture: nothing, or it was pending and has the verdict of the reply to it.
abbrev pub Becomes : (QueuedCapture → Reply) → QueuedCapture → QueuedCapture → Type 0
Becomes fetch c c' = (c' ≡ c) ⊎ ((is_pending c ≡ true) × (c' ≡ after c (verdict (fetch c))))

abbrev Keeps : (QueuedCapture → Reply) → QueuedCapture → List QueuedCapture → Type 0
Keeps fetch c store = (c' : QueuedCapture) × In c' store × Becomes fetch c c'

Keeps-next :
    (fetch : QueuedCapture → Reply) (c : QueuedCapture) {store : List QueuedCapture}
    (o : Option Stopped) (rest : List QueuedCapture × SyncOutcome) (s f : ℕ)
    → Keeps fetch c rest.0
    → Keeps fetch c store
    → Keeps fetch c (next_round o rest (finish store s f)).0
Keeps-next fetch c none rest s f a b = a
Keeps-next fetch c (some why) rest s f a b = b

loop-Keeps :
    (fetch : QueuedCapture → Reply) (cs : List QueuedCapture) (s f : ℕ) (store : List QueuedCapture)
    (c : QueuedCapture)
    → IsQueue cs store
    → In c store
    → Keeps fetch c (sync_loop fetch cs s f store).0
unfolding sync_loop
loop-Keeps fetch [] s f store c q l = (c, l, inl refl)
loop-Keeps fetch (d ∷ cs) s f store c q l =
    let v = verdict (fetch d) in
    let store' = put (after d v) store in
    let (listed, waiting) = q.listed d (here refl) in
    elim (Bool-cases (c.capture_id == d.capture_id)) [
      | inl t ↦
          let same = IsDistinct-unique id_of q.keyed l listed ((eq_iff _ _).0 t) in
          let put_back = In-put_new d v q in
          (
            after d v,
            In-next (stops v) _ _ _
                (not_queued fetch cs (s + newly_synced v) (f + newly_failed v) store' (after d v)
                  (IsQueue-step v q) put_back
                  (elim q.once [ newcomer g u ↦ λ y k e. g y k (e ∙ after_id d v) ]))
                put_back,
            inr (ap is_pending same ∙ waiting, ap (λ x. after x (verdict (fetch x))) (sym same)),
          )
      | inr t ↦
          let kept = In-put d c v q l (λ e. cc (t, (eq_iff _ _).1 e)) in
          Keeps-next fetch c (stops v) _ _ _
            (loop-Keeps fetch cs (s + newly_synced v) (f + newly_failed v) store' c
              (IsQueue-step v q) kept)
            (c, kept, inl refl)
    ]

-- Each capture is still there after an upload: as it was, or, if it was pending, with the verdict of
-- the vault's reply to it.
pub sync_captures_keeps :
    (before : String → String → Bool) (fetch : QueuedCapture → Reply) (store : List QueuedCapture)
    (c : QueuedCapture)
    → IsDistinct id_of store
    → In c store
    → (c' : QueuedCapture) × In c' (sync_captures before fetch store).0 × Becomes fetch c c'
unfolding sync_captures
sync_captures_keeps before fetch store c d l =
    loop-Keeps fetch (pending_captures before store) 0 0 store c
      (pending_captures-IsQueue before store d) l
