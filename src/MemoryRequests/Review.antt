-- ===== src/MemoryRequests/Review.antt =====
-- apps/api/src/memory-requests/disclosure-review.service.ts: the owner's preview of a request and
-- the decision on it. A call that throws leaves the tables as they were, since its transaction is
-- rolled back; several `new Date()` of a call are one instant.
pub mod Decisions
pub mod Settled
pub mod Rows
use funes_vault.Common.{
  ℕ, ◌+◌, suc, String, Bool, true, false, not, ◌&&◌, ◌||◌, ◌==◌, Option, none, some, List, [], ◌∷◌,
  ◌++◌, if◌then◌else◌, leb, nat_eq, length, has, any, filter, map, Result, err, ok, or_throw, guard,
  ◌>>=◌, ◌>>◌,
}
use funes_vault.Vault.Enums.{
  Decision, allow, deny, RequestReason, confirmation_required, policy_changed, RequestStatus,
  ActorType, AuditEventType, memory_disclosure, memory_request_approved, memory_request_denied,
  SubjectType, SubjectRole, read,
}
use funes_vault.Vault.Store.{
  BundleItem, Snapshot, ReviewSnapshot, blank, stored, MemoryRequest, RequestItem, Subject,
  AuditEvent, Db, update_request, add_event,
}
use funes_vault.Policies.{Denied, evaluate_for_client}
use funes_vault.MemoryRequests.Bundle.Selection.{total_tokens}
use funes_vault.MemoryRequests.Runtime.{
  Runtime, Error, already_reviewed, preview_changed, not_in_preview, null_access,
}
use funes_vault.MemoryRequests.Disclosure.{
  Context, disclosure_context, lock_disclosure_request, truthy, is_approved, awaits_approval,
  denies, safe_parse, snapshot_is_current, is_later, get,
}
use funes_vault.MemoryRequests.Invalidation.{
  disclosure_approval_ttl_ms, require_fresh_review, record_owner_decision, invalidate,
}
use funes_vault.MemoryRequests.Preview.{Proposal, Preview, preview_disclosure}

-- `ReviewDisclosureRequest`
pub data Review : Type 0 where
  refuse : Review
  approve : String → List String → Review

-- The retrieval of apps/api/src/memory-requests/retrieval.service.ts, by owner, task and categories.
abbrev pub Retrieve : Type 0
Retrieve = Db → String → String → List String → List Proposal

-- `candidates`, which reads before the transaction begins.
pub candidates : Retrieve → Db → String → String → ℕ → Result Error (List Proposal)
candidates retrieve db user_id id now = do
  request ← lock_disclosure_request db user_id id none
  let gate = evaluate_for_client db request.user_id request.client_id read now none
  ok (
      if not (awaits_approval request.status)
        || not (truthy request.policy_id)
        || denies gate.decision
      then []
      else retrieve db user_id request.task request.requested_categories)

-- The transaction of `preview`.
unfoldable pub preview_in_transaction :
    Runtime → Db → String → String → List Proposal → ℕ → Result Error (Preview × Db)
preview_in_transaction rt db user_id id found now = do
  request ← lock_disclosure_request db user_id id none
  shown ← preview_disclosure rt db request found now
  ok (shown.0.1, shown.1)

-- `[...new Set(ids)]`
unfoldable pub unique : List String → List String
unique [] = []
unique (id ∷ ids) = id ∷ filter (λ other. not (other == id)) (unique ids)

-- The versions of the chosen items; an item with none has no entry.
abbrev add_version : Option String → String → List (String × String) → List (String × String)
add_version none id rest = rest
add_version (some v) id rest = (id, v) ∷ rest

unfoldable pub chosen_versions : List BundleItem → List (String × String) → List (String × String)
chosen_versions [] versions = []
chosen_versions (i ∷ is) versions =
    add_version (get i.memory_id versions) i.memory_id (chosen_versions is versions)

abbrev pub chosen_items : Snapshot → List String → List BundleItem
chosen_items s ids = filter (λ (i : BundleItem). has ids i.memory_id) s.items

abbrev pub grant : Snapshot → List String → ℕ → MemoryRequest → MemoryRequest
grant s ids now r =
    let items = chosen_items s ids in
    record r {
      status = RequestStatus.approved;
      approved_at = some now;
      approval_expires_at = some (now + disclosure_approval_ttl_ms);
      review_snapshot =
          stored (record s { items = items; versions = chosen_versions items s.versions });
    }

abbrev pub refuse_request : ℕ → MemoryRequest → MemoryRequest
refuse_request now r = record r {
  status = RequestStatus.denied;
  denied_at = some now;
  review_snapshot = blank;
}

-- The branch of `decide` that approves.
abbrev pub decide_approve :
    Runtime
    → Db
    → MemoryRequest
    → String
    → String
    → List String
    → List Proposal
    → ℕ
    → Result Error Db
decide_approve rt db request id revision memory_ids found now = do
  shown ← preview_disclosure rt db request found now
  let snapshot = shown.0.0
  let preview = shown.0.1
  guard (preview.can_approve && preview.revision == revision) preview_changed
  let ids = unique memory_ids
  guard (nat_eq (length (chosen_items snapshot ids)) (length ids)) not_in_preview
  ok (
      record_owner_decision rt request memory_request_approved allow ids
        (update_request id (grant snapshot ids now) shown.1))

-- The decision on a row that waits for it.
abbrev pub decide_locked :
    Runtime → Db → MemoryRequest → String → Review → List Proposal → ℕ → Result Error Db
decide_locked rt db request id refuse found now = ok (
    record_owner_decision rt request memory_request_denied deny []
      (update_request id (refuse_request now) db))
decide_locked rt db request id (approve revision memory_ids) found now =
    decide_approve rt db request id revision memory_ids found now

-- The transaction of `decide`.
unfoldable pub decide :
    Runtime → Db → String → String → Review → List Proposal → ℕ → Result Error Db
unfolding unique chosen_versions
decide rt db user_id id review found now = do
  request ← lock_disclosure_request db user_id id none
  guard (awaits_approval request.status) already_reviewed
  decide_locked rt db request id review found now
