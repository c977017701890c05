-- ===== src/Tests/Proposals.antt =====
-- A client proposes memories; the owner applies one, tries it again, and archives another.
use funes_vault.Common.{
  if◌then◌else◌, ltb, String, ◌≡◌, ◌≢◌, refl, false, none, some, [], ◌∷◌, ◌++◌, ◌⊎◌, inr, In,
  Result, ok, err, length,
}
use funes_vault.Vault.Enums.{deny, internal, MemoryStatus, MemoryKind, SourceType, read, write}
use funes_vault.Vault.Store.{Memory, Policy, Client}
use funes_vault.Policies.{
  evaluate_for_client, evaluate_candidate_memories, denial_reason, sort_memories,
}
use funes_vault.Suggestions.Store.{SuggestionStatus, Suggestion, Db, Runtime, Error}
use funes_vault.Suggestions.Records.{SuggestionRequest, new_suggestion, no_metadata}
use funes_vault.Suggestions.Review.{
  apply_loaded_user_suggestion, reject_loaded_user_suggestion, bulk_review_user_suggestions,
  BulkAction,
}
use funes_vault.Suggestions.Archive.{apply_archive_suggestion}
use funes_vault.Suggestions.Intake.{SuggestionInput, SuggestionResponse, create_suggestion}
use funes_vault.Suggestions.Once.{finished, next, proposes, review_once}
use funes_vault.Suggestions.Authorized.{IsProposed, IsAuthorized, create_suggestion-IsAuthorized}
use funes_vault.Suggestions.Survivors.{IsSurvivor, IsShelved, apply_archive_suggestion_keeps}
use funes_vault.Suggestions.Bulk.{Tells, bulk_review-Tells}
use funes_vault.Tests.Sample.{client, policy, tea}

abbrev rt : Runtime
rt = record {
  suggestion_id = λ n. if ltb 2 n then "s3" else "s9";
  memory_id = λ n. "m9";
  event_id = λ n. "e";
  iso = λ n. "now";
  secret_like = λ title body evidence. false;
}

abbrev request : SuggestionRequest
request = record {
  title = 84 ∷ [];
  body = 116 ∷ [];
  kind = MemoryKind.preference;
  sensitivity = internal;
  category_keys = "taste" ∷ [];
  evidence = none;
  purpose = none;
  confidence = none;
  expires_at = none;
}

abbrev note : Suggestion
note =
    new_suggestion rt 0 "u1" SourceType.client_suggestion (some "c1") (some "p1") false
      SuggestionStatus.queued_for_review request

abbrev coffee : Memory
coffee = record tea { id = "m2" }

-- A proposal to archive the second memory in favour of the first.
abbrev archival : Suggestion
archival = record note {
  id = "s2";
  source_type = SourceType.consolidation;
  source_metadata = record no_metadata {
    action = some "archive_memory";
    target_memory_id = some "m2";
    target_version = some "2024-01-01";
    canonical_memory_id = some "m1";
  };
}

abbrev writer : Policy
writer = record policy { operations = read ∷ write ∷ []; requires_confirmation = false }

abbrev start : Db
start = record {
  vault = record {
    clients = client ∷ [];
    policies = writer ∷ [];
    memories = tea ∷ coffee ∷ [];
    requests = [];
    items = [];
    events = [];
    rows = 0;
  };
  categories = "taste" ∷ [];
  suggestions = note ∷ archival ∷ [];
  events = [];
  provenance = [];
  embedding_requests = [];
  rows = 3;
}

abbrev after {ℓ} : {A : Type ℓ} → Result Error (A × Db) → Db
after (ok (a, db)) = db
after (err e) = start

abbrev tables : Result Error Db → Db
tables (ok db) = db
tables (err e) = start

abbrev rejected : Db
rejected = tables (reject_loaded_user_suggestion rt "u1" note start)

abbrev input : SuggestionInput
input = record { user_id = "u1"; client_id = "c1"; review_only = false; body = request }

abbrev no_response : SuggestionResponse
no_response = record {
  suggestion_id = none;
  memory_id = none;
  status = none;
  policy_id = none;
  audit_event_id = "";
  reason = none;
  decision = deny;
  denied = [];
}

abbrev response_of : Result Error (SuggestionResponse × Db) → SuggestionResponse
response_of (ok (r, db)) = r
response_of (err e) = no_response

abbrev proposed : Db
proposed = after (create_suggestion rt input 1500 rejected)

review_once_example :
    (apply_loaded_user_suggestion rt "u1" note 2000 proposed ≢ ok start)
    × (reject_loaded_user_suggestion rt "u1" note proposed ≢ ok start)
unfolding reject_loaded_user_suggestion create_suggestion evaluate_for_client
    evaluate_candidate_memories sort_memories denial_reason
review_once_example =
    review_once rt "u1" note 1000 start rejected proposed "u1" note 2000 start (inr refl)
      (next {db'' = proposed} finished
        (proposes input 1500 (response_of (create_suggestion rt input 1500 rejected)) refl))
      refl

create_suggestion-IsAuthorized_example :
    ((after (create_suggestion rt input 1000 start)).vault.memories ≡ start.vault.memories)
    ⊎ ((m : Memory) × (c : Client) × (p : Policy) × ((after
            (create_suggestion rt input 1000 start)).vault.memories
          ≡ start.vault.memories ++ m ∷ [])
        × IsProposed input m
        × IsAuthorized start input 1000 m c p)
unfolding create_suggestion evaluate_for_client evaluate_candidate_memories sort_memories
    denial_reason
create_suggestion-IsAuthorized_example =
    create_suggestion-IsAuthorized rt input 1000 start
      (response_of (create_suggestion rt input 1000 start))
      (after (create_suggestion rt input 1000 start)) refl

-- The client writes, and the memory is there.
written_at_once : length (after (create_suggestion rt input 1000 start)).vault.memories ≡ 3
unfolding create_suggestion evaluate_for_client evaluate_candidate_memories sort_memories
    denial_reason
written_at_once = refl

abbrev archived : Db
archived = tables (apply_archive_suggestion rt "u1" archival 1000 start)

apply_archive_suggestion_keeps_example :
    (target : Memory) × In target start.vault.memories
    × (archival.source_metadata.target_memory_id ≡ some target.id)
    × (target.user_id ≡ "u1")
    × ((m : Memory) × In m archived.vault.memories
        × (m.id ≡ target.id)
        × IsShelved archival.source_metadata.reason target m)
    × ((m : Memory)
        → In m archived.vault.memories
        → m.id ≡ target.id
        → (m.status ≡ MemoryStatus.archived) ⊎ (m.status ≡ MemoryStatus.expired))
    × ((v : String)
        → some "2024-01-01" ≡ some v
        → v ≢ ""
        → (target.status ≡ MemoryStatus.active) × (target.updated_at ≡ v))
    × ((id : String)
        → some "m1" ≡ some id
        → (m : Memory) × IsSurvivor archived.vault.memories "u1" id target.id 1000 m)
    × ((m : Memory) → In m start.vault.memories → m.id ≢ target.id → In m archived.vault.memories)
unfolding apply_archive_suggestion
apply_archive_suggestion_keeps_example =
    apply_archive_suggestion_keeps rt "u1" archival 1000 start archived refl

bulk_review-Tells_example :
    Tells
      ("s9" ∷ "s2" ∷ [])
      (bulk_review_user_suggestions rt "u1" BulkAction.apply ("s9" ∷ "s2" ∷ "s9" ∷ []) 1000 start).0
      start
      (bulk_review_user_suggestions rt "u1" BulkAction.apply ("s9" ∷ "s2" ∷ "s9" ∷ []) 1000 start).1
bulk_review-Tells_example =
    bulk_review-Tells rt "u1" BulkAction.apply ("s9" ∷ "s2" ∷ "s9" ∷ []) 1000 start
