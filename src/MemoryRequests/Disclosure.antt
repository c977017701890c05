-- ===== src/MemoryRequests/Disclosure.antt =====
-- apps/api/src/memory-requests: disclosure-context.ts and disclosure-snapshot.ts. A
-- transaction's body is a function of the tables; `new Date()` is `now`.
pub mod Lock
pub mod Entries
pub mod Current
use funes_vault.Common.{
  ℕ, ◌*◌, String, Bool, true, false, not, ◌&&◌, ◌==◌, Option, none, some, List, [], ◌∷◌, ◌++◌,
  if◌then◌else◌, leb, ltb, all, has, find, map, is_some, opt_is, opt_eq, Result, err, ok, or_throw,
  ◌>>=◌,
}
use funes_vault.Vault.Enums.{
  Decision, allow, deny, RequestReason, policy_changed, RequestStatus, ActorType, AuditEventType,
  memory_request_approved, memory_request_denied, SubjectType, SubjectRole, read,
}
use funes_vault.Vault.Store.{
  Memory, Policy, Client, BundleItem, Snapshot, ReviewSnapshot, blank, stored, MemoryRequest,
  Subject, AuditEvent, Db, find_memories, update_request, add_event,
}
use funes_vault.Policies.{
  Evaluation, EvaluationResult, evaluate_for_client, evaluate_candidate_memories, is_empty, id_of,
}
use funes_vault.MemoryRequests.Runtime.{Runtime, Error, not_found, null_access, client_revision}

-- A string that is neither null nor empty.
abbrev pub truthy : Option String → Bool
truthy none = false
truthy (some s) = not (s == "")

abbrev pub is_approved : RequestStatus → Bool
is_approved RequestStatus.approved = true
is_approved _ = false

abbrev pub awaits_approval : RequestStatus → Bool
awaits_approval RequestStatus.needs_user_approval = true
awaits_approval _ = false

abbrev pub denies : Decision → Bool
denies deny = true
denies _ = false

-- What `disclosureContext` returns. The code claims that the client is there (`client!`).
pub record Context : Type 0 where
  pub client : Option Client
  pub policy : Option Policy
  pub memories : List Memory
  pub allowed : List String
  pub bound : Bool
  pub policy_version : Option String

-- The evaluation of the memories under the gate's policy, or the gate's own refusal.
abbrev context_result : Evaluation → List Memory → ℕ → EvaluationResult
context_result gate memories now = if denies gate.decision then gate.result else elim gate.policy [
  | none ↦ gate.result
  | some p ↦ evaluate_candidate_memories p memories now
]

-- `disclosureContext`
unfoldable pub disclosure_context : Db → MemoryRequest → List String → ℕ → Context
disclosure_context db request ids now =
    let gate = evaluate_for_client db request.user_id request.client_id read now none in
    let memories =
      if denies gate.decision
      then []
      else if truthy request.policy_id
      then find_memories db request.user_id ids
      else [] in
    let result = context_result gate memories now in
    let bound = is_some request.policy_id && opt_eq request.policy_id result.policy_id in
    record {
      client = gate.client;
      policy = gate.policy;
      memories = memories;
      allowed = if bound then result.allowed else [];
      bound = bound;
      policy_version = gate.policy_version;
    }

abbrev matches_client : Option String → MemoryRequest → Bool
matches_client none r = true
matches_client (some client_id) r = r.client_id == client_id

-- `lockDisclosureRequest`: the row lock makes the transactions on a request one after the other.
unfoldable pub lock_disclosure_request :
    Db → String → String → Option String → Result Error MemoryRequest
lock_disclosure_request db user_id id client_id =
    or_throw
      (find
        (λ (r : MemoryRequest). r.id == id && r.user_id == user_id && matches_client client_id r)
        db.requests)
      not_found

-- `memoryBundleItemSchema`
abbrev item_is_valid : BundleItem → Bool
item_is_valid i = not (i.memory_id == "") && not (is_empty i.text) && leb 1 i.estimated_tokens

-- `snapshotSchema.safeParse(request.reviewSnapshot)`
abbrev pub safe_parse : ReviewSnapshot → Option Snapshot
safe_parse blank = none
safe_parse (stored s) = if all item_is_valid s.items then some s else none

-- `map.get(key)` and `object[key]` over the entries of a map: a later entry replaces an earlier one.
abbrev pub get {ℓ} : {V : Type ℓ} → String → List (String × V) → Option V
get key [] = none
get key ((k, v) ∷ entries) = elim (get key entries) [
  | none ↦ if k == key then some v else none
  | some w ↦ some w
]

abbrev pub versions_of : List Memory → List (String × String)
versions_of = map (λ m. (m.id, m.updated_at))

abbrev pub is_later : Option ℕ → ℕ → Bool
is_later none now = false
is_later (some t) now = ltb now t

abbrev pub same_client : Runtime → Option Client → String → Bool
same_client rt none version = false
same_client rt (some c) version = client_revision rt c == version

-- The tests on the request, the policy and the client. The client's revision is read only where
-- the context is bound, so where the client is there.
abbrev pub header_is_current : Runtime → MemoryRequest → Snapshot → Context → ℕ → Bool
header_is_current rt request s context now =
    is_later request.approval_expires_at now
    && context.bound
    && opt_is request.policy_id s.policy_id
    && opt_is request.policy_version s.policy_version
    && opt_is (id_of context.policy) s.policy_id
    && opt_is context.policy_version s.policy_version
    && same_client rt context.client s.client_version

-- The tests on one item: allowed still, and at the recorded version.
abbrev pub item_is_current : Snapshot → Context → BundleItem → Bool
item_is_current s context i =
    has context.allowed i.memory_id
    && opt_eq (get i.memory_id (versions_of context.memories)) (get i.memory_id s.versions)

-- `snapshotIsCurrent`
unfoldable pub snapshot_is_current : Runtime → MemoryRequest → Snapshot → Context → ℕ → Bool
snapshot_is_current rt request s context now =
    header_is_current rt request s context now && all (item_is_current s context) s.items
