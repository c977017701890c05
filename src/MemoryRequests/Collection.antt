-- ===== src/MemoryRequests/Collection.antt =====
-- apps/api/src/memory-requests/disclosure-review.service.ts: `result`, by which a client collects what
-- the owner approved, once. A call that throws leaves the tables as they were.
pub mod Delivery
pub mod Granted
pub mod Rows
use funes_vault.Common.{
  ℕ, ◌+◌, suc, String, Bool, true, false, not, ◌&&◌, ◌||◌, ◌==◌, Option, none, some, List, [], ◌∷◌,
  ◌++◌, if◌then◌else◌, leb, nat_eq, length, has, any, filter, map, Result, err, ok, or_throw, guard,
  ◌>>=◌, ◌>>◌,
}
use funes_vault.Vault.Enums.{
  Decision, allow, deny, RequestReason, confirmation_required, policy_changed, RequestStatus,
  ActorType, AuditEventType, memory_disclosure, memory_request_approved, memory_request_denied,
  SubjectType, SubjectRole, read,
}
use funes_vault.Vault.Store.{
  BundleItem, Snapshot, ReviewSnapshot, blank, stored, MemoryRequest, RequestItem, Subject,
  AuditEvent, Db, update_request, add_event,
}
use funes_vault.Policies.{Denied, evaluate_for_client}
use funes_vault.MemoryRequests.Bundle.Selection.{total_tokens}
use funes_vault.MemoryRequests.Runtime.{
  Runtime, Error, already_reviewed, preview_changed, not_in_preview, null_access,
}
use funes_vault.MemoryRequests.Disclosure.{
  Context, disclosure_context, lock_disclosure_request, truthy, is_approved, awaits_approval,
  denies, safe_parse, snapshot_is_current, is_later, get,
}
use funes_vault.MemoryRequests.Invalidation.{
  disclosure_approval_ttl_ms, require_fresh_review, record_owner_decision, invalidate,
}

-- `MemoryRequestBundleResponse`
pub record Response : Type 0 where
  pub request_id : String
  pub status : RequestStatus
  pub policy_id : Option String
  pub reason : Option RequestReason
  pub token_budget : ℕ
  pub estimated_tokens : ℕ
  pub items : List BundleItem
  pub instructions : List String
  pub denied : List Denied
  pub audit_event_id : Option String

abbrev nothing_shared : String → MemoryRequest → Response
nothing_shared id r = record {
  request_id = id;
  status = r.status;
  policy_id = r.policy_id;
  reason = r.decision_reason;
  token_budget = r.token_budget;
  estimated_tokens = 0;
  items = [];
  instructions = [];
  denied = [];
  audit_event_id = none;
}

abbrev sent_back : String → MemoryRequest → RequestReason → Response
sent_back id r reason = record (nothing_shared id r) {
  status = RequestStatus.needs_user_approval;
  reason = some reason;
}

-- The table's uniqueness of a request and a memory is not tested.
abbrev pub stored_items : String → List BundleItem → List RequestItem
stored_items id = map (λ i. record { memory_request_id = id; item = i })

abbrev pub item_ids : List BundleItem → List String
item_ids = map (λ i. i.memory_id)

-- The event of a one-time delivery.
abbrev pub delivery_event :
    Runtime → Db → MemoryRequest → String → String → String → Snapshot → AuditEvent
delivery_event rt db r user_id client_id id s = record {
  id = rt.cuid db.rows;
  user_id = user_id;
  client_id = client_id;
  memory_request_id = id;
  kind = memory_disclosure;
  actor_type = ActorType.client;
  actor_id = some client_id;
  memory_ids = item_ids s.items;
  decision = allow;
  reason = none;
  requires_confirmation = true;
  policy_id = r.policy_id;
  policy_version = r.policy_version;
  estimated_tokens = total_tokens s.items;
  one_time_approval = true;
  subjects =
      (record { kind = SubjectType.policy; id = r.policy_id; role = SubjectRole.policy })
        ∷ (map
            (λ (i : BundleItem). record {
              kind = SubjectType.memory;
              id = some i.memory_id;
              role = SubjectRole.disclosed;
            })
            s.items)
      ++ (record { kind = SubjectType.memory_request; id = some id; role = SubjectRole.request })
        ∷ (record { kind = SubjectType.client; id = some client_id; role = SubjectRole.client })
        ∷ [];
}

abbrev pub consume : ℕ → MemoryRequest → MemoryRequest
consume now r = record r {
  status = RequestStatus.fulfilled;
  fulfilled_at = some now;
  decision_reason = none;
  review_snapshot = blank;
}

-- What a current snapshot is turned into: the stored items, the event and the spent request.
abbrev pub deliver :
    Runtime → Db → MemoryRequest → String → String → String → Snapshot → ℕ → Response × Db
deliver rt db r user_id client_id id s now =
    let event = delivery_event rt db r user_id client_id id s in
    (
      record (nothing_shared id r) {
        status = RequestStatus.fulfilled;
        policy_id = some s.policy_id;
        reason = none;
        items = s.items;
        instructions = s.instructions;
        estimated_tokens = total_tokens s.items;
        audit_event_id = some event.id;
      },
      update_request id (consume now)
          (add_event event (record db { items = db.items ++ stored_items id s.items })),
    )

-- The answer after an invalidation.
abbrev policy_moved : String → MemoryRequest → MemoryRequest × Db → Result Error (Response × Db)
policy_moved id r (updated, db') = ok (sent_back id r policy_changed, db')

-- The branch of `result` with a snapshot that has not run out.
abbrev deliver_current :
    Runtime
    → Db
    → MemoryRequest
    → String
    → String
    → String
    → Snapshot
    → ℕ
    → Result Error (Response × Db)
deliver_current rt db r user_id client_id id s now =
    let context = disclosure_context db r (item_ids s.items) now in
    if snapshot_is_current rt r s context now
    then ok (deliver rt db r user_id client_id id s now)
    else invalidate rt r context db >>= policy_moved id r

-- `!parsed.success || !request.approvalExpiresAt || request.approvalExpiresAt <= new Date()`
abbrev unspoilt : MemoryRequest → ℕ → Option Snapshot
unspoilt r now = if is_later r.approval_expires_at now then safe_parse r.review_snapshot else none

-- The branch of `result` for an approved request.
abbrev collect :
    Runtime
    → Db
    → MemoryRequest
    → String
    → String
    → String
    → ℕ
    → Option Snapshot
    → Result Error (Response × Db)
collect rt db r user_id client_id id now none = ok (
  sent_back id r confirmation_required,
  require_fresh_review r.id (some confirmation_required) none db,
)
collect rt db r user_id client_id id now (some s) =
    deliver_current rt db r user_id client_id id s now

-- `result`
unfoldable pub result : Runtime → Db → String → String → String → ℕ → Result Error (Response × Db)
result rt db user_id client_id id now = do
  r ← lock_disclosure_request db user_id id (some client_id)
  if is_approved r.status
      then collect rt db r user_id client_id id now (unspoilt r now)
      else ok (nothing_shared id r, db)
