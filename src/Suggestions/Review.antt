-- ===== src/Suggestions/Review.antt =====
-- suggestion-review.service.ts and suggestion-bulk-review.service.ts of
-- apps/api/src/memory-suggestions. The owner's lists are queries. What a review returns, the rows of
-- the suggestion and of the memory, is read from the tables after it.
use funes_vault.Common.{
  set_of, ℕ, ◌-◌, String, Bool, true, false, ◌&&◌, ◌==◌, Option, none, some, List, [], ◌∷◌, ◌++◌,
  filter, find, map, has, length, if◌then◌else◌, Result, ok, err, guard, or_throw, ◌>>◌, ◌>>=◌,
}
use funes_vault.Vault.Enums.{ActorType, SubjectRole}
use funes_vault.Vault.Store.{Subject}
use funes_vault.Suggestions.Store.{
  SuggestionStatus, Suggestion, EventType, suggestion_approved, suggestion_rejected, memory_created,
  SuggestionEvent, ProvenanceEntry, suggested, Db, Runtime, Error, not_found, not_reviewable,
  is_queued, is_consolidation, find_suggestion, add_event, add_provenance,
}
use funes_vault.Suggestions.Records.{
  assert_exist, claim_suggestion, update_status, create_memory, memory_of_suggestion,
  suggestion_subjects, memory_subject,
}
use funes_vault.Suggestions.Archive.{apply_archive_suggestion}

-- An event of the owner on a suggestion.
abbrev pub owner_event :
    Runtime → Db → EventType → String → Suggestion → Option String → List Subject → SuggestionEvent
owner_event rt db kind user_id s memory_id subjects = record {
  id = rt.event_id db.rows;
  user_id = user_id;
  client_id = none;
  kind = kind;
  actor_type = ActorType.user;
  actor_id = some user_id;
  suggestion_id = some s.id;
  memory_id = memory_id;
  canonical_memory_id = none;
  job_run_id = none;
  policy_id = none;
  policy_version = none;
  denial = none;
  reason = none;
  stated_purpose = none;
  direct_write = false;
  requires_confirmation = false;
  subjects = subjects;
}

abbrev suggestion_provenance : String → Suggestion → String → String → String → ProvenanceEntry
suggestion_provenance user_id s memory_id approval creation = record {
  user_id = user_id;
  memory_id = memory_id;
  kind = suggested;
  actor_type = ActorType.user;
  actor_id = some user_id;
  source_type = s.source_type;
  source_client_id = s.source_client_id;
  suggestion_id = some s.id;
  job_run_id = none;
  audit_event_id = some creation;
  suggestion_event_id = some approval;
  reason = none;
  evidence = s.evidence;
  confidence = s.confidence;
  mode = none;
}

abbrev record_application : Runtime → String → Suggestion → String → Db → Db
record_application rt user_id s memory_id db =
    let subjects =
      memory_subject SubjectRole.created memory_id
      ∷ suggestion_subjects s.id s.source_client_id none in
    let approval = owner_event rt db suggestion_approved user_id s (some memory_id) subjects in
    let db1 = add_event approval db in
    let creation = owner_event rt db1 memory_created user_id s (some memory_id) subjects in
    add_provenance (suggestion_provenance user_id s memory_id approval.id creation.id)
      (add_event creation db1)

-- `enqueueEmbeddingGeneration`, whose failure is ignored.
abbrev pub enqueue_embedding_generation : String → String → Db → Db
enqueue_embedding_generation user_id memory_id db = record db {
  embedding_requests = db.embedding_requests ++ (user_id, memory_id) ∷ [];
}

abbrev opt_equals : Option String → String → Bool
opt_equals none s = false
opt_equals (some t) s = t == s

abbrev pub archives : Suggestion → Bool
archives s = is_consolidation s.source_type && opt_equals s.source_metadata.action "archive_memory"

abbrev pub create_from_suggestion : Runtime → String → Suggestion → ℕ → Db → Result Error Db
create_from_suggestion rt user_id s now db =
    let memory = memory_of_suggestion rt db.rows s now in
    claim_suggestion user_id s.id SuggestionStatus.applied db >>= λ db1.
    create_memory memory db1 >>= λ db2. ok (
      enqueue_embedding_generation user_id memory.id (
        record_application rt user_id s memory.id
          (update_status s.id SuggestionStatus.applied db2)))

-- `applyLoadedUserSuggestion`, on a suggestion that was loaded at some time before.
unfoldable pub apply_loaded_user_suggestion :
    Runtime → String → Suggestion → ℕ → Db → Result Error Db
apply_loaded_user_suggestion rt user_id s now db =
    if archives s
    then apply_archive_suggestion rt user_id s now db
    else create_from_suggestion rt user_id s now db

-- `rejectLoadedUserSuggestion`
unfoldable pub reject_loaded_user_suggestion : Runtime → String → Suggestion → Db → Result Error Db
reject_loaded_user_suggestion rt user_id s db =
    claim_suggestion user_id s.id SuggestionStatus.rejected db >>= λ db1. ok (
      add_event
        (owner_event rt db1 suggestion_rejected user_id s none
          (suggestion_subjects s.id s.source_client_id none))
        (update_status s.id SuggestionStatus.rejected db1))

-- The suggestion that a review begins with.
abbrev pub load_reviewable : Db → String → String → Result Error Suggestion
load_reviewable db user_id id = or_throw (find_suggestion db user_id id) not_found >>= λ s.
    guard (is_queued s.status) not_reviewable >> ok s

-- `applyUserSuggestion`
unfoldable pub apply_user_suggestion : Runtime → String → String → ℕ → Db → Result Error Db
apply_user_suggestion rt user_id id now db = load_reviewable db user_id id >>= λ s.
    assert_exist db s.suggested_categories >> apply_loaded_user_suggestion rt user_id s now db

-- `rejectUserSuggestion`
unfoldable pub reject_user_suggestion : Runtime → String → String → Db → Result Error Db
reject_user_suggestion rt user_id id db =
    load_reviewable db user_id id >>= λ s. reject_loaded_user_suggestion rt user_id s db

pub data BulkAction : Type 0 where
  apply reject : BulkAction

-- What became of one suggestion.
pub data Outcome : Type 0 where
  done : Outcome
  failed : Error → Outcome

abbrev is_failed : Outcome → Bool
is_failed done = false
is_failed (failed e) = true

abbrev pub review_one : Runtime → String → BulkAction → Suggestion → ℕ → Db → Result Error Db
review_one rt user_id apply s now db = apply_loaded_user_suggestion rt user_id s now db
review_one rt user_id reject s now db = reject_loaded_user_suggestion rt user_id s db

-- One round of the loop, on the suggestions that were loaded before it.
abbrev pub bulk_attempt :
    Runtime → String → BulkAction → List Suggestion → ℕ → String → Db → Result Error Db
bulk_attempt rt user_id action loaded now id db =
    or_throw (find (λ (s : Suggestion). s.id == id) loaded) not_found >>= λ s.
    guard (is_queued s.status) not_reviewable >> review_one rt user_id action s now db

abbrev pub settle : String → Result Error Db → Db → (String × Outcome) × Db
settle id (ok after) db = ((id, done), after)
settle id (err e) db = ((id, failed e), db)

abbrev pub then_rest :
    (String × Outcome) → List (String × Outcome) × Db → List (String × Outcome) × Db
then_rest r (rs, db) = (r ∷ rs, db)

unfoldable pub bulk_loop :
    Runtime
    → String
    → BulkAction
    → List Suggestion
    → ℕ
    → List String
    → Db
    → List (String × Outcome) × Db
bulk_loop rt user_id action loaded now [] db = ([], db)
bulk_loop rt user_id action loaded now (id ∷ ids) db =
    let (r, after) = settle id (bulk_attempt rt user_id action loaded now id db) db in
    then_rest r (bulk_loop rt user_id action loaded now ids after)

pub record BulkReport : Type 0 where
  pub requested : ℕ
  pub succeeded : ℕ
  pub failures : ℕ
  pub results : List (String × Outcome)

abbrev pub failed_count : List (String × Outcome) → ℕ
failed_count rs = length (filter (λ (r : String × Outcome). is_failed r.1) rs)

abbrev pub report : List String → List (String × Outcome) × Db → BulkReport × Db
report ids (rs, db) = (
  record {
    requested = length ids;
    succeeded = length ids - failed_count rs;
    failures = failed_count rs;
    results = rs;
  },
  db,
)

abbrev queued_categories : List Suggestion → List String
queued_categories [] = []
queued_categories (s ∷ ss) =
    if is_queued s.status
    then s.suggested_categories ++ queued_categories ss
    else queued_categories ss

abbrev pub categories_checked : BulkAction → List Suggestion → Db → Result Error (Unit {0})
categories_checked apply loaded db = assert_exist db (queued_categories loaded)
categories_checked reject loaded db = ok tt

abbrev pub all_failed : Error → List String → BulkReport
all_failed e ids = record {
  requested = length ids;
  succeeded = 0;
  failures = length ids;
  results = map (λ id. (id, failed e)) ids;
}

-- `bulkReviewUserSuggestions`
unfoldable pub bulk_review_user_suggestions :
    Runtime → String → BulkAction → List String → ℕ → Db → BulkReport × Db
bulk_review_user_suggestions rt user_id action listed now db =
    let ids = set_of listed in
    let loaded = filter (λ (s : Suggestion). has ids s.id && s.user_id == user_id) db.suggestions in
    elim (categories_checked action loaded db) [
      | err e ↦ (all_failed e ids, db)
      | ok _ ↦ report ids (bulk_loop rt user_id action loaded now ids db)
    ]
