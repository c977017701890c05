-- ===== src/CaptureQueue.antt =====
-- apps/web/src/features/capture/capture-queue.ts: the captures of a device, and their upload. The store
-- is the list of its entries in the order of a Map, which has one entry for an id; what the vault
-- replies to a capture is an argument, as is the order of `localeCompare`. During an upload nothing else
-- adds or removes captures.
pub mod Store
pub mod Accounts
pub mod Kept
pub mod Queue
pub mod Cleared
use funes_vault.Common.{
  ℕ, suc, ◌+◌, String, Bool, true, false, not, ◌&&◌, ◌||◌, ◌==◌, leb, ltb, nat_eq, Option, none,
  some, List, [], ◌∷◌, ◌++◌, any, filter, length, update_where, if◌then◌else◌, map,
}

pub data CaptureStatus : Type 0 where
  pending synced failed : CaptureStatus

pub record QueuedCapture : Type 0 where
  pub capture_id : String
  pub text : String
  pub captured_at : String
  pub status : CaptureStatus
  pub error : Option String
  pub attempts : ℕ
  pub suggestion_id : Option String

-- `===` with each status.
abbrev pub is_pending : QueuedCapture → Bool
is_pending c = elim c.status [ pending ↦ true | _ ↦ false ]

abbrev pub is_synced : QueuedCapture → Bool
is_synced c = elim c.status [ synced ↦ true | _ ↦ false ]

abbrev pub is_failed : QueuedCapture → Bool
is_failed c = elim c.status [ failed ↦ true | _ ↦ false ]

-- `newCapture`, with `String.prototype.trim`, the chosen id and the ISO text of the instant.
pub new_capture : (String → String) → String → String → String → QueuedCapture
new_capture trim text id at = record {
  capture_id = id;
  text = trim text;
  captured_at = at;
  status = pending;
  error = none;
  attempts = 0;
  suggestion_id = none;
}

-- `.sort`, which is stable, by a comparison that says whether an entry may stand before another.
abbrev insert_by :
    (String → String → Bool) → QueuedCapture → List QueuedCapture → List QueuedCapture
insert_by before c [] = c ∷ []
insert_by before c (x ∷ xs) =
    let rest = insert_by before c xs in
    if before c.captured_at x.captured_at then c ∷ x ∷ xs else x ∷ rest

abbrev pub sort_by : (String → String → Bool) → List QueuedCapture → List QueuedCapture
sort_by before [] = []
sort_by before (c ∷ cs) = insert_by before c (sort_by before cs)

-- `pendingCaptures`
unfoldable pub pending_captures : (String → String → Bool) → List QueuedCapture → List QueuedCapture
pending_captures before captures = sort_by before (filter is_pending captures)

-- `captureQueueSummary`
pub record Summary : Type 0 where
  pub pending : ℕ
  pub synced : ℕ
  pub failed : ℕ

pub capture_queue_summary : List QueuedCapture → Summary
capture_queue_summary captures = record {
  pending = length (filter is_pending captures);
  synced = length (filter is_synced captures);
  failed = length (filter is_failed captures);
}

-- The store's `put` and `remove`: `Map.set` and `Map.delete`.
unfoldable pub put : QueuedCapture → List QueuedCapture → List QueuedCapture
put c store =
    if any (λ (x : QueuedCapture). x.capture_id == c.capture_id) store
    then update_where (λ (x : QueuedCapture). x.capture_id == c.capture_id) (λ _. c) store
    else store ++ c ∷ []

pub remove : String → List QueuedCapture → List QueuedCapture
remove id store = filter (λ (x : QueuedCapture). not (x.capture_id == id)) store

pub data FailureKind : Type 0 where
  unreachable unauthorized rejected server : FailureKind

-- `classifySyncFailure`
unfoldable pub classify_sync_failure : Option ℕ → FailureKind × String
classify_sync_failure none = (unreachable, "Vault unreachable. Will retry when it is back.")
classify_sync_failure (some status) =
    if nat_eq status 401 || nat_eq status 403
    then (unauthorized, "Sign in to the vault to sync this capture.")
    else if leb 500 status
    then (server, "The vault had a problem. Will retry.")
    else (rejected, "The vault rejected this capture.")

-- What `fetch` gives: it throws, or a response comes, with the suggestion's id and the message that
-- its body holds where the body parses.
pub data Reply : Type 0 where
  thrown : Reply
  response : ℕ → Option String → Option String → Reply

pub data Stopped : Type 0 where
  completed unreachable unauthorized : Stopped

pub record SyncOutcome : Type 0 where
  pub synced : ℕ
  pub failed : ℕ
  pub stopped : Stopped

-- `response.ok`
abbrev is_ok : ℕ → Bool
is_ok status = leb 200 status && ltb status 300

abbrev or_message : Option String → String → String
or_message none fallback = fallback
or_message (some m) fallback = m

-- The branches of the loop's body.
pub data Verdict : Type 0 where
  accepted : Option String → Verdict
  declined : String → Verdict
  postponed : Stopped → String → Verdict

abbrev pub of_failure : FailureKind × String → Option String → Verdict
of_failure (rejected, text) message = declined (or_message message text)
of_failure (unauthorized, text) message = postponed unauthorized text
of_failure (server, text) message = postponed unreachable text
of_failure (unreachable, text) message = postponed unreachable text

unfoldable pub verdict : Reply → Verdict
verdict thrown = of_failure (classify_sync_failure none) none
verdict (response status suggestion_id message) =
    if is_ok status
    then accepted suggestion_id
    else of_failure (classify_sync_failure (some status)) message

-- The capture that is put back.
abbrev pub after : QueuedCapture → Verdict → QueuedCapture
after c (accepted suggestion_id) = record c {
  status = synced;
  error = none;
  attempts = suc c.attempts;
  suggestion_id = suggestion_id;
}
after c (declined message) = record c {
  status = failed;
  attempts = suc c.attempts;
  error = some message;
}
after c (postponed why message) = record c {
  status = pending;
  attempts = suc c.attempts;
  error = some message;
}

abbrev pub newly_synced : Verdict → ℕ
newly_synced (accepted _) = 1
newly_synced _ = 0

abbrev pub newly_failed : Verdict → ℕ
newly_failed (declined _) = 1
newly_failed _ = 0

abbrev pub stops : Verdict → Option Stopped
stops (postponed why _) = some why
stops _ = none

abbrev pub finish : List QueuedCapture → ℕ → ℕ → Stopped → List QueuedCapture × SyncOutcome
finish store s f why = (store, record { synced = s; failed = f; stopped = why })

-- To go on, or to return.
abbrev pub next_round {ℓ} : {A : Type ℓ} → Option Stopped → A → (Stopped → A) → A
next_round none go_on return_now = go_on
next_round (some why) go_on return_now = return_now why

-- The loop of `syncCaptures` over the queue, with the two counters.
unfoldable pub sync_loop :
    (QueuedCapture → Reply)
    → List QueuedCapture
    → ℕ
    → ℕ
    → List QueuedCapture
    → List QueuedCapture × SyncOutcome
sync_loop fetch [] s f store = finish store s f completed
sync_loop fetch (c ∷ cs) s f store =
    let v = verdict (fetch c) in
    let s' = s + newly_synced v in
    let f' = f + newly_failed v in
    let store' = put (after c v) store in
    let rest = sync_loop fetch cs s' f' store' in next_round (stops v) rest (finish store' s' f')

-- `syncCaptures`
unfoldable pub sync_captures :
    (String → String → Bool)
    → (QueuedCapture → Reply)
    → List QueuedCapture
    → List QueuedCapture × SyncOutcome
sync_captures before fetch store = sync_loop fetch (pending_captures before store) 0 0 store

-- `clearSyncedCaptures`
abbrev pub remove_all : List QueuedCapture → List QueuedCapture → List QueuedCapture
remove_all [] store = store
remove_all (c ∷ cs) store = remove_all cs (remove c.capture_id store)

pub clear_synced_captures : List QueuedCapture → List QueuedCapture
clear_synced_captures store = remove_all (filter is_synced store) store
