-- ===== src/MemoryRequests/Create.antt =====
-- apps/api/src/memory-requests/memory-requests.service.ts: a client's request, answered at once where
-- its policy allows. The gate is read before the retrieval, from tables that may have changed when the
-- transaction begins.
pub mod Rows
pub mod Answered
pub mod Outcome
pub mod Released
use funes_vault.Common.{
  ℕ, suc, String, Bool, true, false, Option, none, some, List, [], ◌∷◌, ◌++◌, if◌then◌else◌, has,
  filter, map,
}
use funes_vault.Vault.Enums.{
  Decision, allow, needs_confirmation, deny, RequestReason, RequestStatus, Retention, ActorType,
  memory_disclosure, memory_request_denied, SubjectType, SubjectRole, read,
}
use funes_vault.Vault.Store.{
  Memory, BundleItem, blank, MemoryRequest, RequestItem, Subject, AuditEvent, Db, find_memories,
  add_event,
}
use funes_vault.Policies.{Denied, Evaluation, evaluate_for_client, is_empty}
use funes_vault.MemoryRequests.Bundle.{Bundle, Candidate, compile}
use funes_vault.MemoryRequests.Runtime.{Runtime}
use funes_vault.MemoryRequests.Disclosure.{denies}
use funes_vault.MemoryRequests.Preview.{Proposal, memory_by_id, candidate_of}
use funes_vault.MemoryRequests.Review.{Retrieve}
use funes_vault.MemoryRequests.Collection.{Response, stored_items, item_ids}

-- `CreateMemoryBundleRequest`
pub record BundleRequest : Type 0 where
  pub purpose : Option String
  pub task : String
  pub requested_categories : List String
  pub retention : Retention
  pub third_party_processors : List String
  pub token_budget : ℕ

-- The status that the policy's decision gives.
abbrev pub status_of : Decision → RequestStatus
status_of allow = RequestStatus.fulfilled
status_of needs_confirmation = RequestStatus.needs_user_approval
status_of deny = RequestStatus.denied

abbrev when {ℓ} : {A : Type ℓ} → Bool → A → Option A
when true a = some a
when false a = none

abbrev is_fulfilled : RequestStatus → Bool
is_fulfilled RequestStatus.fulfilled = true
is_fulfilled _ = false

abbrev is_denied : RequestStatus → Bool
is_denied RequestStatus.denied = true
is_denied _ = false

-- The proposals that are still there, with the memories' content as it is now.
abbrev add_current : Option Memory → ℕ → List (Memory × ℕ) → List (Memory × ℕ)
add_current none score rest = rest
add_current (some m) score rest = (m, score) ∷ rest

unfoldable pub current_memories : List Memory → List Proposal → List (Memory × ℕ)
current_memories live [] = []
current_memories live (c ∷ cs) =
    add_current (memory_by_id c.id live) c.relevance_score (current_memories live cs)

abbrev new_request : Runtime → Db → String → String → BundleRequest → Evaluation → ℕ → MemoryRequest
new_request rt db user_id client_id body policy now =
    let status = status_of policy.decision in
    record {
      id = rt.cuid db.rows;
      user_id = user_id;
      client_id = client_id;
      stated_purpose = body.purpose;
      policy_id = policy.policy_id;
      policy_version = policy.policy_version;
      decision_reason = policy.reason;
      task = body.task;
      status = status;
      token_budget = body.token_budget;
      requested_categories = body.requested_categories;
      retention = body.retention;
      third_party_processors = body.third_party_processors;
      review_snapshot = blank;
      approval_expires_at = none;
      approved_at = when (is_fulfilled status) now;
      denied_at = when (is_denied status) now;
      fulfilled_at = when (is_fulfilled status) now;
    }

abbrev pub add_request : MemoryRequest → Db → Db
add_request r db = record db { requests = db.requests ++ r ∷ []; rows = suc db.rows }

abbrev request_subjects : MemoryRequest → List Subject
request_subjects r =
    (record { kind = SubjectType.memory_request; id = some r.id; role = SubjectRole.request })
    ∷ (record { kind = SubjectType.client; id = some r.client_id; role = SubjectRole.client })
    ∷ (record { kind = SubjectType.policy; id = r.policy_id; role = SubjectRole.policy })
    ∷ []

abbrev memory_subject : SubjectRole → String → Subject
memory_subject role id = record { kind = SubjectType.memory; id = some id; role = role }

-- `empty`, with the id of the event, if one was written.
abbrev empty_response : MemoryRequest → List Denied → Option String → Response
empty_response r denied event_id = record {
  request_id = r.id;
  status = r.status;
  policy_id = r.policy_id;
  reason = r.decision_reason;
  token_budget = r.token_budget;
  estimated_tokens = 0;
  items = [];
  instructions = [];
  denied = denied;
  audit_event_id = event_id;
}

abbrev denial_event : Runtime → Db → MemoryRequest → Evaluation → AuditEvent
denial_event rt db r policy = record {
  id = rt.cuid db.rows;
  user_id = r.user_id;
  client_id = r.client_id;
  memory_request_id = r.id;
  kind = memory_request_denied;
  actor_type = ActorType.client;
  actor_id = some r.client_id;
  memory_ids = [];
  decision = policy.decision;
  reason = policy.reason;
  requires_confirmation = policy.requires_confirmation;
  policy_id = policy.policy_id;
  policy_version = policy.policy_version;
  estimated_tokens = 0;
  one_time_approval = false;
  subjects = request_subjects r;
}

abbrev disclosure_event : Runtime → Db → MemoryRequest → Evaluation → Bundle → AuditEvent
disclosure_event rt db r policy bundle = record {
  id = rt.cuid db.rows;
  user_id = r.user_id;
  client_id = r.client_id;
  memory_request_id = r.id;
  kind = memory_disclosure;
  actor_type = ActorType.client;
  actor_id = some r.client_id;
  memory_ids = item_ids bundle.items;
  decision = allow;
  reason = none;
  requires_confirmation = false;
  policy_id = r.policy_id;
  policy_version = r.policy_version;
  estimated_tokens = bundle.estimated_tokens;
  one_time_approval = false;
  subjects =
      request_subjects r
      ++ map (memory_subject SubjectRole.disclosed) (item_ids bundle.items)
      ++ map (λ (d : Denied). memory_subject SubjectRole.denied d.memory_id) policy.denied;
}

-- The bundle of the allowed memories.
abbrev allowed_bundle : Evaluation → List (Memory × ℕ) → ℕ → Bundle
allowed_bundle policy current token_budget =
    compile
      (map (λ (c : Memory × ℕ). candidate_of c.0 c.1)
        (filter (λ (c : Memory × ℕ). has policy.allowed c.0.id) current))
      token_budget

-- The answer by the decision, on the tables that hold the new request.
unfoldable pub answer :
    Runtime → Db → MemoryRequest → Evaluation → List (Memory × ℕ) → Decision → Response × Db
answer rt db r policy current deny =
    let event = denial_event rt db r policy in
    (empty_response r policy.denied (some event.id), add_event event db)
answer rt db r policy current needs_confirmation = (empty_response r policy.denied none, db)
answer rt db r policy current allow =
    let bundle = allowed_bundle policy current r.token_budget in
    let event = disclosure_event rt db r policy bundle in
    (
      record (empty_response r policy.denied (some event.id)) {
        items = bundle.items;
        estimated_tokens = bundle.estimated_tokens;
        instructions = bundle.instructions;
      },
      add_event event (record db { items = db.items ++ stored_items r.id bundle.items }),
    )

-- The transaction of `createBundleRequest`, after the gate and the retrieval.
unfoldable pub create_in_transaction :
    Runtime → Db → String → String → BundleRequest → Evaluation → List Proposal → ℕ → Response × Db
create_in_transaction rt db user_id client_id body gate found now =
    let live =
      if denies gate.decision
      then []
      else find_memories db user_id (map (λ (c : Proposal). c.id) found) in
    let current = current_memories live found in
    let policy =
      if denies gate.decision
      then gate
      else evaluate_for_client db user_id client_id read now
          (some (map (λ (c : Memory × ℕ). c.0) current)) in
    let r = new_request rt db user_id client_id body policy now in
    answer rt (add_request r db) r policy current policy.decision

-- `createBundleRequest`: `seen` are the tables before the transaction.
pub create_bundle_request :
    Runtime → Retrieve → Db → Db → String → String → BundleRequest → ℕ → Response × Db
create_bundle_request rt retrieve seen db user_id client_id body now =
    let gate = evaluate_for_client seen user_id client_id read now none in
    let found =
      if denies gate.decision
      then []
      else retrieve seen user_id body.task body.requested_categories in
    create_in_transaction rt db user_id client_id body gate found now
