-- ===== src/MemoryRequests/Invalidation.antt =====
-- apps/api/src/memory-requests: disclosure-state.ts and disclosure-audit.ts, and `invalidate` of
-- disclosure-review.service.ts.
pub mod Rows
use funes_vault.Common.{
  or_throw, ◌>>=◌, ℕ, ◌*◌, String, Bool, true, false, Option, none, some, List, [], ◌∷◌, ◌++◌,
  if◌then◌else◌, Result, err, ok,
}
use funes_vault.Vault.Enums.{
  Decision, deny, RequestReason, policy_changed, RequestStatus, ActorType, AuditEventType,
  memory_request_denied, SubjectType, SubjectRole,
}
use funes_vault.Vault.Store.{Policy, blank, MemoryRequest, Subject, Db, update_request, add_event}
use funes_vault.MemoryRequests.Runtime.{Runtime, Error, null_access}
use funes_vault.MemoryRequests.Disclosure.{Context, truthy}

abbrev pub disclosure_approval_ttl_ms : ℕ
disclosure_approval_ttl_ms = 15 * 60000

-- `requireFreshReview`, on the row: the version is left as it is where none is given.
abbrev pub fresh_review :
    Option RequestReason → Option (Option String) → MemoryRequest → MemoryRequest
fresh_review reason version r = record r {
  status = RequestStatus.needs_user_approval;
  decision_reason = reason;
  policy_version = elim version [ none ↦ r.policy_version | some v ↦ v ];
  approved_at = none;
  approval_expires_at = none;
  review_snapshot = blank;
}

abbrev pub require_fresh_review : String → Option RequestReason → Option (Option String) → Db → Db
require_fresh_review id reason version = update_request id (fresh_review reason version)

-- The subjects of `recordDisclosureDecision`.
abbrev decision_subjects : MemoryRequest → List Subject
decision_subjects r =
    (if truthy r.policy_id
      then (record { kind = SubjectType.policy; id = r.policy_id; role = SubjectRole.policy }) ∷ []
      else [])
    ++ (record { kind = SubjectType.memory_request; id = some r.id; role = SubjectRole.request })
      ∷ (record { kind = SubjectType.client; id = some r.client_id; role = SubjectRole.client })
      ∷ []

-- `recordDisclosureDecision` by the owner.
abbrev pub record_owner_decision :
    Runtime → MemoryRequest → AuditEventType → Decision → List String → Db → Db
record_owner_decision rt r kind decision memory_ids db =
    add_event
      (record {
        id = rt.cuid db.rows;
        user_id = r.user_id;
        client_id = r.client_id;
        memory_request_id = r.id;
        kind = kind;
        actor_type = ActorType.user;
        actor_id = some r.user_id;
        memory_ids = memory_ids;
        decision = decision;
        reason = none;
        requires_confirmation = true;
        policy_id = r.policy_id;
        policy_version = r.policy_version;
        estimated_tokens = 0;
        one_time_approval = false;
        subjects = decision_subjects r;
      })
      db

-- The event of an invalidation, which names the system.
abbrev record_invalidation : Runtime → MemoryRequest → Bool → Db → Db
record_invalidation rt r requires_confirmation db =
    add_event
      (record {
        id = rt.cuid db.rows;
        user_id = r.user_id;
        client_id = r.client_id;
        memory_request_id = r.id;
        kind = memory_request_denied;
        actor_type = ActorType.system;
        actor_id = none;
        memory_ids = [];
        decision = deny;
        reason = some policy_changed;
        requires_confirmation = requires_confirmation;
        policy_id = r.policy_id;
        policy_version = r.policy_version;
        estimated_tokens = 0;
        one_time_approval = false;
        subjects = decision_subjects r;
      })
      db

-- The version that an invalidation records: the live one, if the request is bound to the policy.
abbrev pub live_version : Context → Option (Option String)
live_version context = if context.bound then some context.policy_version else none

abbrev wants_review : Option Policy → Bool
wants_review none = false
wants_review (some p) = p.requires_confirmation

-- `invalidate`: the row after the update, and the tables.
unfoldable pub invalidate :
    Runtime → MemoryRequest → Context → Db → Result Error (MemoryRequest × Db)
invalidate rt request context db = do
  client ← or_throw context.client null_access
  let updated = fresh_review (some policy_changed) (live_version context) request
  ok (
    updated,
    record_invalidation rt updated (wants_review context.policy)
        (require_fresh_review request.id (some policy_changed) (live_version context) db),
  )
