-- ===== src/CaptureQueue/Accounts.antt =====
-- The numbers that an upload reports are what has happened to the store.
use funes_vault.Common.{
  Bool-cases, filter, ◌≢◌, ℕ, suc, ◌+◌, String, ◌≡◌, refl, sym, ap, ◌∙◌, Bool, true, Option, none,
  some, List, [], ◌∷◌, here, length, arith, inl, inr, IsDistinct,
}
use funes_vault.CaptureQueue.Store.{
  id_of, count, one_if, put-eq-rewritten, count-rewritten, length-rewritten,
}
use funes_vault.CaptureQueue.Queue.{
  IsQueue, IsQueue-step, after_id, pending_captures-IsQueue, length-sort_by,
}
use funes_vault.CaptureQueue.{
  classify_sync_failure, is_ok, of_failure, next_round, FailureKind, QueuedCapture, is_pending,
  is_synced, is_failed, pending_captures, put, Reply, Verdict, accepted, declined, postponed,
  verdict, after, newly_synced, newly_failed, stops, Stopped, SyncOutcome, completed, finish,
  sync_loop, sync_captures, capture_queue_summary, thrown, response,
}

-- What a round does to a count.
round_count :
    (p : QueuedCapture → Bool) (c : QueuedCapture) (cs store : List QueuedCapture) (v : Verdict)
    → IsQueue (c ∷ cs) store
    → count p (put (after c v) store) + one_if (p c) ≡ count p store + one_if (p (after c v))
round_count p c cs store v q =
    let listed = (q.listed c (here refl)).0 in
    ap (λ s. count p s + one_if (p c)) (put-eq-rewritten (after c v) listed (sym (after_id c v)))
    ∙ count-rewritten p (after c v) c q.keyed listed (sym (after_id c v))

round_length :
    (c : QueuedCapture) (cs store : List QueuedCapture) (v : Verdict)
    → IsQueue (c ∷ cs) store
    → length (put (after c v) store) ≡ length store
round_length c cs store v q =
    ap length (put-eq-rewritten (after c v) (q.listed c (here refl)).0 (sym (after_id c v)))
    ∙ length-rewritten (after c v) store

-- A pending capture counts as neither; after a verdict it counts as the verdict says.
pending_counts :
    (c : QueuedCapture)
    → is_pending c ≡ true
    → (one_if (is_synced c) ≡ 0) × (one_if (is_failed c) ≡ 0) × (one_if (is_pending c) ≡ 1)
pending_counts c h = ground arith

verdict_counts :
    (c : QueuedCapture) (v : Verdict)
    → (one_if (is_synced (after c v)) ≡ newly_synced v)
      × (one_if (is_failed (after c v)) ≡ newly_failed v)
verdict_counts c (accepted x) = (refl, refl)
verdict_counts c (declined m) = (refl, refl)
verdict_counts c (postponed w m) = (refl, refl)

-- The store's changes since the counters stood at `s` and `f`.
abbrev Accounts : List QueuedCapture → ℕ → ℕ → List QueuedCapture × SyncOutcome → Type 0
Accounts store s f (store', out) =
    (length store' ≡ length store)
    × (count is_synced store' + s ≡ count is_synced store + out.synced)
    × (count is_failed store' + f ≡ count is_failed store + out.failed)

Accounts-next :
    (store : List QueuedCapture) (s f : ℕ) (o : Option Stopped)
    (rest : List QueuedCapture × SyncOutcome) (now : Stopped → List QueuedCapture × SyncOutcome)
    → Accounts store s f rest
    → ((why : Stopped) → Accounts store s f (now why))
    → Accounts store s f (next_round o rest now)
Accounts-next store s f none rest now a b = a
Accounts-next store s f (some why) rest now a b = b why

loop-Accounts :
    (fetch : QueuedCapture → Reply) (cs : List QueuedCapture) (s f : ℕ) (store : List QueuedCapture)
    → IsQueue cs store
    → Accounts store s f (sync_loop fetch cs s f store)
unfolding sync_loop
loop-Accounts fetch [] s f store q = (refl, refl, refl)
loop-Accounts fetch (c ∷ cs) s f store q =
    let v = verdict (fetch c) in
    let waiting = pending_counts c (q.listed c (here refl)).1 in
    let moved = verdict_counts c v in
    let same_length = round_length c cs store v q in
    let synced = round_count is_synced c cs store v q in
    let failed = round_count is_failed c cs store v q in
    let (rest_length, rest_synced, rest_failed) =
      loop-Accounts fetch cs (s + newly_synced v) (f + newly_failed v) (put (after c v) store)
        (IsQueue-step v q) in
    Accounts-next store s f (stops v) _ _ (rest_length ∙ same_length, omega arith, omega arith)
      (λ why. (same_length, omega arith, omega arith))

-- An upload loses no capture, and reports as synced and as failed exactly as many captures as have
-- become so.
pub sync_captures_accounts :
    (before : String → String → Bool) (fetch : QueuedCapture → Reply) (store : List QueuedCapture)
    → IsDistinct id_of store
    → (length (sync_captures before fetch store).0 ≡ length store)
      × ((capture_queue_summary (sync_captures before fetch store).0).synced
          ≡ (capture_queue_summary store).synced + (sync_captures before fetch store).1.synced)
      × ((capture_queue_summary (sync_captures before fetch store).0).failed
          ≡ (capture_queue_summary store).failed + (sync_captures before fetch store).1.failed)
unfolding sync_captures capture_queue_summary
sync_captures_accounts before fetch store d =
    let (same_length, synced, failed) =
      loop-Accounts fetch (pending_captures before store) 0 0 store
        (pending_captures-IsQueue before store d) in
    (same_length, omega arith, omega arith)

abbrev Drains : List QueuedCapture → ℕ → List QueuedCapture × SyncOutcome → Type 0
Drains store n (store', out) =
    out.stopped ≡ completed → count is_pending store' + n ≡ count is_pending store

stops-of_failure :
    (p : FailureKind × String) (m : Option String) → stops (of_failure p m) ≢ some completed
stops-of_failure (FailureKind.unreachable, t) m h = cc h
stops-of_failure (FailureKind.unauthorized, t) m h = cc h
stops-of_failure (FailureKind.rejected, t) m h = cc h
stops-of_failure (FailureKind.server, t) m h = cc h

stops-verdict : (r : Reply) → stops (verdict r) ≢ some completed
unfolding verdict
stops-verdict thrown = stops-of_failure _ none
stops-verdict (response status id m) = elim (Bool-cases (is_ok status)) [
  | inl t ↦ rw t (λ h. cc h)
  | inr t ↦ rw t (stops-of_failure (classify_sync_failure (some status)) m)
]

goes_on : (c : QueuedCapture) (v : Verdict) → stops v ≡ none → one_if (is_pending (after c v)) ≡ 0
goes_on c (accepted x) e = refl
goes_on c (declined m) e = refl
goes_on c (postponed w m) e = cc e

Drains-next :
    (store : List QueuedCapture) (n : ℕ) (o : Option Stopped)
    (rest : List QueuedCapture × SyncOutcome) (store' : List QueuedCapture) (s f : ℕ)
    → o ≢ some completed
    → (o ≡ none → Drains store n rest)
    → Drains store n (next_round o rest (finish store' s f))
Drains-next store n none rest store' s f h a = a refl
Drains-next store n (some why) rest store' s f h a = λ e. absurd (h (ap some e))

loop-Drains :
    (fetch : QueuedCapture → Reply) (cs : List QueuedCapture) (s f : ℕ) (store : List QueuedCapture)
    → IsQueue cs store
    → Drains store (length cs) (sync_loop fetch cs s f store)
unfolding sync_loop
loop-Drains fetch [] s f store q = λ _. omega arith
loop-Drains fetch (c ∷ cs) s f store q =
    let v = verdict (fetch c) in
    let waiting = pending_counts c (q.listed c (here refl)).1 in
    let round = round_count is_pending c cs store v q in
    let rest =
      loop-Drains fetch cs (s + newly_synced v) (f + newly_failed v) (put (after c v) store)
        (IsQueue-step v q) in
    Drains-next store (suc (length cs)) (stops v) _ (put (after c v) store) _ _
      (stops-verdict (fetch c))
      (λ e h. let gone = goes_on c v e in let drained = rest h in omega arith)

-- An upload that completes leaves no pending capture.
pub sync_captures_completed :
    (before : String → String → Bool) (fetch : QueuedCapture → Reply) (store : List QueuedCapture)
    → IsDistinct id_of store
    → (sync_captures before fetch store).1.stopped ≡ completed
    → (capture_queue_summary (sync_captures before fetch store).0).pending ≡ 0
unfolding sync_captures capture_queue_summary pending_captures
sync_captures_completed before fetch store d h =
    let drained =
      loop-Drains fetch (pending_captures before store) 0 0 store
        (pending_captures-IsQueue before store d) h in
    let all = length-sort_by before (filter is_pending store) in omega arith
