-- ===== src/Suggestions/Intake.antt =====
-- suggestion-intake.service.ts, suggestion-writer.service.ts and suggestion-denial.ts of
-- apps/api/src/memory-suggestions: a client proposes a memory, and so does the owner's chat. The
-- captures have an intake of their own, capture-intake.ts.
use funes_vault.Common.{
  ℕ, String, Bool, true, false, not, Option, none, some, List, [], ◌∷◌, ◌++◌, if◌then◌else◌, Result,
  ok, guard, ◌>>◌, ◌>>=◌,
}
use funes_vault.Vault.Enums.{
  SourceType, MemoryStatus, ReviewState, ActorType, Operation, Decision, allow, needs_confirmation,
  deny, RequestReason, SubjectRole,
}
use funes_vault.Vault.Store.{Memory, Subject}
use funes_vault.Policies.{Evaluation, Denied, evaluate_for_client}
use funes_vault.Suggestions.Store.{
  SuggestionStatus, Suggestion, EventType, suggestion_created, suggestion_denied, memory_created,
  SuggestionEvent, ProvenanceEntry, suggested, Db, Runtime, Error, secret_content, add_event,
  add_provenance,
}
use funes_vault.Suggestions.Records.{
  SuggestionRequest, assert_exist, new_suggestion, create_suggestion_record, memory_of_suggestion,
  create_memory, suggestion_subjects, memory_subject,
}
use funes_vault.Suggestions.Review.{enqueue_embedding_generation}

-- `ClientSuggestionInput`
pub record SuggestionInput : Type 0 where
  pub user_id : String
  pub client_id : String
  pub review_only : Bool
  pub body : SuggestionRequest

-- `MemorySuggestionResponse`
pub record SuggestionResponse : Type 0 where
  pub suggestion_id : Option String
  pub memory_id : Option String
  -- `DENIED` is none.
  pub status : Option SuggestionStatus
  pub policy_id : Option String
  pub audit_event_id : String
  pub reason : Option RequestReason
  pub decision : Decision
  pub denied : List Denied

-- The memory that the policy is asked about; the fields that it does not read are blank.
abbrev pub proposed_memory : SuggestionRequest → Memory
proposed_memory r = record {
  id = "proposed_memory";
  user_id = "";
  title = [];
  body = [];
  sensitivity = r.sensitivity;
  status = MemoryStatus.active;
  review_state = ReviewState.approved;
  expires_at = r.expires_at;
  updated_at = "";
  categories = r.category_keys;
  kind = r.kind;
  confidence = none;
  source_type = SourceType.client_suggestion;
  source_client_id = none;
  suggestion_id = none;
}

-- An event of a client under an evaluation.
abbrev client_event :
    Runtime
    → Db
    → EventType
    → SuggestionInput
    → Evaluation
    → Option String
    → Option String
    → Bool
    → List Subject
    → SuggestionEvent
client_event rt db kind input policy suggestion_id memory_id direct_write subjects = record {
  id = rt.event_id db.rows;
  user_id = input.user_id;
  client_id = some input.client_id;
  kind = kind;
  actor_type = ActorType.client;
  actor_id = some input.client_id;
  suggestion_id = suggestion_id;
  memory_id = memory_id;
  canonical_memory_id = none;
  job_run_id = none;
  policy_id = policy.result.policy_id;
  policy_version = policy.policy_version;
  denial = if direct_write then none else policy.result.reason;
  reason = none;
  stated_purpose = input.body.purpose;
  direct_write = direct_write;
  requires_confirmation = if direct_write then false else policy.result.requires_confirmation;
  subjects = subjects;
}

abbrev direct_provenance : SuggestionInput → Suggestion → String → String → String → ProvenanceEntry
direct_provenance input s memory_id creation written = record {
  user_id = input.user_id;
  memory_id = memory_id;
  kind = suggested;
  actor_type = ActorType.client;
  actor_id = some input.client_id;
  source_type = SourceType.client_suggestion;
  source_client_id = some input.client_id;
  suggestion_id = some s.id;
  job_run_id = none;
  audit_event_id = some written;
  suggestion_event_id = some creation;
  reason = none;
  evidence = input.body.evidence;
  confidence = input.body.confidence;
  mode = none;
}

abbrev record_direct_write : Runtime → SuggestionInput → Evaluation → Suggestion → String → Db → Db
record_direct_write rt input policy s memory_id db =
    let subjects = suggestion_subjects s.id (some input.client_id) policy.result.policy_id in
    let created = memory_subject SubjectRole.created memory_id in
    let creation =
      client_event rt db suggestion_created input policy (some s.id) (some memory_id) true
        (subjects ++ created ∷ []) in
    let db1 = add_event creation db in
    let written =
      client_event rt db1 memory_created input policy (some s.id) (some memory_id) true
        (created ∷ subjects) in
    add_provenance (direct_provenance input s memory_id creation.id written.id)
      (add_event written db1)

-- `createDirectMemoryFromSuggestion`
abbrev pub create_direct_memory :
    Runtime → SuggestionInput → Evaluation → ℕ → Db → Result Error (SuggestionResponse × Db)
create_direct_memory rt input policy now db =
    let s =
      new_suggestion rt db.rows input.user_id SourceType.client_suggestion (some input.client_id)
        policy.result.policy_id true SuggestionStatus.applied input.body in
    let memory = memory_of_suggestion rt db.rows s now in
    create_suggestion_record s db >>= λ db1. create_memory memory db1 >>= λ db2. ok (
      record {
        suggestion_id = some s.id;
        memory_id = some memory.id;
        status = some s.status;
        policy_id = policy.result.policy_id;
        audit_event_id = rt.event_id db2.rows;
        reason = none;
        decision = allow;
        denied = [];
      },
      record_direct_write rt input policy s memory.id db2,
    )

-- `recordSuggestionDenial`, and the answer.
abbrev pub deny_suggestion : Runtime → SuggestionInput → Evaluation → Db → SuggestionResponse × Db
deny_suggestion rt input policy db = (
  record {
    suggestion_id = none;
    memory_id = none;
    status = none;
    policy_id = policy.result.policy_id;
    audit_event_id = rt.event_id db.rows;
    reason = policy.result.reason;
    decision = policy.result.decision;
    denied = policy.result.denied;
  },
  add_event
      (record (client_event rt db suggestion_denied input policy none none false []) {
        requires_confirmation = false;
      })
      db,
)

abbrev pub queue_suggestion :
    Runtime → SuggestionInput → Evaluation → Db → Result Error (SuggestionResponse × Db)
queue_suggestion rt input policy db =
    let s =
      new_suggestion rt db.rows input.user_id SourceType.client_suggestion (some input.client_id)
        policy.result.policy_id false SuggestionStatus.queued_for_review input.body in
    create_suggestion_record s db >>= λ db1. ok (
      record {
        suggestion_id = some s.id;
        memory_id = none;
        status = some s.status;
        policy_id = policy.result.policy_id;
        audit_event_id = rt.event_id db1.rows;
        reason = policy.result.reason;
        decision = policy.result.decision;
        denied = policy.result.denied;
      },
      add_event
          (client_event rt db1 suggestion_created input policy (some s.id) none false
            (suggestion_subjects s.id (some input.client_id) policy.result.policy_id))
          db1,
    )

abbrev pub answer :
    Runtime → SuggestionInput → Evaluation → Decision → Db → Result Error (SuggestionResponse × Db)
answer rt input policy deny db = ok (deny_suggestion rt input policy db)
answer rt input policy allow db = queue_suggestion rt input policy db
answer rt input policy needs_confirmation db = queue_suggestion rt input policy db

-- `createEvaluatedSuggestion`
abbrev pub create_evaluated_suggestion :
    Runtime → SuggestionInput → Evaluation → Db → Result Error (SuggestionResponse × Db)
create_evaluated_suggestion rt input policy db = answer rt input policy policy.result.decision db

abbrev pub evaluate : SuggestionInput → Operation → ℕ → Db → Evaluation
evaluate input operation now db =
    evaluate_for_client db.vault input.user_id input.client_id operation now
      (some (proposed_memory input.body ∷ []))

abbrev pub is_allow : Decision → Bool
is_allow allow = true
is_allow _ = false

-- `writePolicy?.decision === "ALLOW"`
abbrev pub writes_directly : SuggestionInput → ℕ → Db → Bool
writes_directly input now db =
    if input.review_only
    then false
    else is_allow (evaluate input Operation.write now db).result.decision

-- `prepareSuggestion` and what it prepares, in the transaction of the caller.
abbrev pub intake_transaction :
    Runtime → SuggestionInput → ℕ → Db → Result Error (SuggestionResponse × Db)
intake_transaction rt input now db =
    guard (not (rt.secret_like input.body.title input.body.body input.body.evidence)) secret_content
    >> assert_exist db input.body.category_keys
    >> (if writes_directly input now db
        then create_direct_memory rt input (evaluate input Operation.write now db) now db
        else create_evaluated_suggestion rt input (evaluate input Operation.suggest now db) db)

abbrev pub enqueue_for : String → Option String → Db → Db
enqueue_for user_id none db = db
enqueue_for user_id (some memory_id) db = enqueue_embedding_generation user_id memory_id db

-- `createSuggestion`
unfoldable pub create_suggestion :
    Runtime → SuggestionInput → ℕ → Db → Result Error (SuggestionResponse × Db)
create_suggestion rt input now db = intake_transaction rt input now db >>= λ (response, db1).
    ok (response, enqueue_for input.user_id response.memory_id db1)

abbrev chat_event : Runtime → Db → String → SuggestionRequest → Suggestion → SuggestionEvent
chat_event rt db user_id body s = record {
  id = rt.event_id db.rows;
  user_id = user_id;
  client_id = none;
  kind = suggestion_created;
  actor_type = ActorType.user;
  actor_id = some user_id;
  suggestion_id = some s.id;
  memory_id = none;
  canonical_memory_id = none;
  job_run_id = none;
  policy_id = none;
  policy_version = none;
  denial = none;
  reason = none;
  stated_purpose = body.purpose;
  direct_write = false;
  requires_confirmation = false;
  subjects = suggestion_subjects s.id none none;
}

-- `createUserSuggestion`
unfoldable pub create_user_suggestion :
    Runtime → String → SuggestionRequest → Db → Result Error (Suggestion × Db)
create_user_suggestion rt user_id body db =
    let s =
      new_suggestion rt db.rows user_id SourceType.chat none none false
        SuggestionStatus.queued_for_review body in
    guard (not (rt.secret_like body.title body.body body.evidence)) secret_content
    >> assert_exist db body.category_keys
    >> (create_suggestion_record s db >>= λ db1.
        ok (s, add_event (chat_event rt db1 user_id body s) db1))
