-- ===== src/Tests/Pages.antt =====
-- An upload of two captures, and a short voice session.
use funes_vault.Common.{
  eq_iff, ◌∙◌, ap, sym, ℕ, ◌+◌, String, ◌≡◌, refl, Bool, true, false, List, [], ◌∷◌, In, here,
  there, some, none, IsDistinct, nobody, newcomer, map, length,
}
use funes_vault.CaptureQueue.{
  QueuedCapture, CaptureStatus, pending, synced, Reply, response, sync_captures, sync_loop,
  pending_captures, verdict, classify_sync_failure, put, capture_queue_summary,
}
use funes_vault.CaptureQueue.Store.{id_of}
use funes_vault.CaptureQueue.Accounts.{sync_captures_accounts, sync_captures_completed}
use funes_vault.CaptureQueue.Kept.{Becomes, sync_captures_keeps}
use funes_vault.VoiceSession.{
  State, Action, initial, run, reduce, new_line, user, mic_granted, start_requested, connected,
  user_transcript_delta,
}
use funes_vault.VoiceSession.Invariant.{IsWell, run-IsWell, initial-IsWell}
use funes_vault.VoiceSession.Live.{live_needs_microphone}
use funes_vault.VoiceSession.Lines.{line_of, deltas_join}

abbrev capture : String → CaptureStatus → QueuedCapture
capture id status = record {
  capture_id = id;
  text = "buy tea";
  captured_at = "2024-01-01";
  status = status;
  error = none;
  attempts = 0;
  suggestion_id = none;
}

abbrev store : List QueuedCapture
store = capture "a" pending ∷ capture "b" synced ∷ []

abbrev before : String → String → Bool
before s t = true

abbrev fetch : QueuedCapture → Reply
fetch c = response 201 (some "s1") none

b-ne-a : id_of (capture "b" synced) ≡ id_of (capture "a" pending) → ⊥
b-ne-a h = cc ((eq_iff "b" "a").1 h)

store-IsDistinct : IsDistinct id_of store
store-IsDistinct =
    newcomer (λ y l. elim l [ here e ↦ λ q. b-ne-a (sym (ap id_of e) ∙ q) | there m ↦ elim m [ ] ])
      (newcomer (λ y l. elim l [ ]) nobody)

sync_captures_accounts_example :
    (length (sync_captures before fetch store).0 ≡ length store)
    × ((capture_queue_summary (sync_captures before fetch store).0).synced
        ≡ (capture_queue_summary store).synced + (sync_captures before fetch store).1.synced)
    × ((capture_queue_summary (sync_captures before fetch store).0).failed
        ≡ (capture_queue_summary store).failed + (sync_captures before fetch store).1.failed)
sync_captures_accounts_example = sync_captures_accounts before fetch store store-IsDistinct

sync_captures_completed_example :
    (capture_queue_summary (sync_captures before fetch store).0).pending ≡ 0
unfolding sync_captures sync_loop pending_captures verdict classify_sync_failure put
sync_captures_completed_example = sync_captures_completed before fetch store store-IsDistinct refl

sync_captures_keeps_example :
    (c' : QueuedCapture) × In c' (sync_captures before fetch store).0
    × Becomes fetch (capture "a" pending) c'
sync_captures_keeps_example =
    sync_captures_keeps before fetch store (capture "a" pending) store-IsDistinct (here refl)

abbrev opening : List (Action ℕ ℕ)
opening = start_requested ∷ mic_granted ∷ connected ∷ []

abbrev fresh : State ℕ ℕ
fresh = initial

run-IsWell_example : IsWell (run fresh opening)
run-IsWell_example = run-IsWell fresh opening (initial-IsWell fresh refl refl)

live_needs_microphone_example : In {A = Action ℕ ℕ} mic_granted opening
unfolding run reduce
live_needs_microphone_example = live_needs_microphone opening refl

deltas_join_example :
    line_of "i1" (run fresh (map (user_transcript_delta "i1") ((104 ∷ []) ∷ (105 ∷ []) ∷ []))).lines
    ≡ some (new_line "i1" user (104 ∷ 105 ∷ []) false)
deltas_join_example = deltas_join "i1" fresh (104 ∷ []) ((105 ∷ []) ∷ []) refl
