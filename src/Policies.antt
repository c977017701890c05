-- ===== src/Policies.antt =====
-- apps/api/src/policies/policy-evaluation.service.ts: which memories a client may be given.
-- `new Date()` is the argument `now`, and the tables are those of `Vault.Store`.
pub mod Disclosable
pub mod Sorting
pub mod Authority
use funes_vault.Common.{
  ℕ, String, Bool, true, false, not, Option, none, some, List, [], ◌∷◌, ◌++◌, ◌&&◌, ◌||◌, ◌==◌,
  if◌then◌else◌, leb, ltb, any, find, has, is_some,
}
use funes_vault.Vault.Enums.{
  Sensitivity, sensitivity_rank, is_active, is_reviewed, is_blocked, Operation, same_operation,
  RequestReason, unknown_or_blocked_client, no_client_policy, policy_expired, operation_not_allowed,
  no_matching_memories, no_allowed_memories, confirmation_required, inactive_memory,
  unapproved_memory, expired_memory, above_sensitivity_ceiling, denied_category,
  category_not_allowed, Decision, allow, needs_confirmation, deny,
}
use funes_vault.Vault.Store.{Memory, Policy, Client, Db, find_client, client_policy}

pub record Denied : Type 0 where
  pub memory_id : String
  pub reason : RequestReason

-- `PolicyEvaluationResult`
pub record EvaluationResult : Type 0 where
  pub decision : Decision
  pub policy_id : Option String
  pub allowed : List String
  pub denied : List Denied
  pub requires_confirmation : Bool
  pub reason : Option RequestReason

-- What `evaluateForClient` returns: the live authority and the result.
pub record Evaluation : Type 0 where
  pub client : Option Client
  pub policy : Option Policy
  pub policy_version : Option String
  pub result : EvaluationResult
  pub open result use *

-- `expiresAt && expiresAt <= now`
abbrev pub has_expired : Option ℕ → ℕ → Bool
has_expired none now = false
has_expired (some t) now = leb t now

abbrev pub is_empty {ℓ} : {A : Type ℓ} → List A → Bool
is_empty [] = true
is_empty (_ ∷ _) = false

-- `denialReason`
unfoldable pub denial_reason : Policy → ℕ → Memory → Option RequestReason
denial_reason p now m =
    if not (is_active m.status)
    then some inactive_memory
    else if not (is_reviewed m.review_state)
    then some unapproved_memory
    else if has_expired m.expires_at now
    then some expired_memory
    else if ltb (sensitivity_rank p.max_sensitivity) (sensitivity_rank m.sensitivity)
    then some above_sensitivity_ceiling
    else if any (has p.denied_categories) m.categories
    then some denied_category
    else if not (is_empty p.allowed_categories) && not (any (has p.allowed_categories) m.categories)
    then some category_not_allowed
    else none

-- One round of the loop: the memory joins the denied or the allowed ones.
abbrev sort_memory :
    Option RequestReason → Memory → List String × List Denied → List String × List Denied
sort_memory none m (allowed, denied) = (allowed ++ m.id ∷ [], denied)
sort_memory (some r) m (allowed, denied) =
    (allowed, denied ++ (record { memory_id = m.id; reason = r }) ∷ [])

unfoldable pub sort_memories :
    Policy → ℕ → List Memory → List String × List Denied → List String × List Denied
sort_memories p now [] sorted = sorted
sort_memories p now (m ∷ ms) sorted =
    sort_memories p now ms (sort_memory (denial_reason p now m) m sorted)

-- `evaluateCandidateMemories`
unfoldable pub evaluate_candidate_memories : Policy → List Memory → ℕ → EvaluationResult
evaluate_candidate_memories p candidates now =
    let (allowed, denied) = sort_memories p now candidates ([], []) in
    record {
      decision =
          if is_empty allowed
          then deny
          else if p.requires_confirmation
          then needs_confirmation
          else allow;
      policy_id = some p.id;
      allowed = allowed;
      denied = denied;
      requires_confirmation = p.requires_confirmation;
      reason =
          if is_empty candidates
          then some no_matching_memories
          else if is_empty allowed
          then some no_allowed_memories
          else if p.requires_confirmation
          then some confirmation_required
          else none;
    }

-- The chain of conditions that decides whether the client has any authority.
abbrev gate_reason : Option Client → Option Policy → Operation → ℕ → Option RequestReason
gate_reason none policy operation now = some unknown_or_blocked_client
gate_reason (some c) none operation now =
    if is_blocked c.trust_level then some unknown_or_blocked_client else some no_client_policy
gate_reason (some c) (some p) operation now =
    if is_blocked c.trust_level
    then some unknown_or_blocked_client
    else if has_expired p.expires_at now
    then some policy_expired
    else if not (any (same_operation operation) p.operations)
    then some operation_not_allowed
    else none

abbrev bind_policy : Db → Option Client → Option Policy
bind_policy db none = none
bind_policy db (some c) = client_policy db c

abbrev pub version_of : Option Policy → Option String
version_of none = none
version_of (some p) = some p.updated_at

abbrev pub id_of : Option Policy → Option String
id_of none = none
id_of (some p) = some p.id

abbrev pub wants_confirmation : Option Policy → Bool
wants_confirmation none = false
wants_confirmation (some p) = p.requires_confirmation

-- The early return: no authority, so nothing is allowed.
abbrev refusal : Option Policy → Option RequestReason → EvaluationResult
refusal policy reason = record {
  decision = deny;
  policy_id = id_of policy;
  allowed = [];
  denied = [];
  requires_confirmation = wants_confirmation policy;
  reason = reason;
}

-- The result under a policy in force: a bare gate, or the candidates' evaluation.
abbrev granted : Policy → Option (List Memory) → ℕ → EvaluationResult
granted p none now = record {
  decision = allow;
  policy_id = some p.id;
  allowed = [];
  denied = [];
  requires_confirmation = p.requires_confirmation;
  reason = none;
}
granted p (some candidates) now = evaluate_candidate_memories p candidates now

-- `reason || !policy`
abbrev conclude : Option RequestReason → Option Policy → Option (List Memory) → ℕ → EvaluationResult
conclude (some reason) policy candidates now = refusal policy (some reason)
conclude none none candidates now = refusal none none
conclude none (some p) candidates now = granted p candidates now

-- `evaluateForClient`
unfoldable pub evaluate_for_client :
    Db → String → String → Operation → ℕ → Option (List Memory) → Evaluation
evaluate_for_client db user_id client_id operation now candidates =
    let client = find_client db user_id client_id in
    let policy = bind_policy db client in
    record {
      client = client;
      policy = policy;
      policy_version = version_of policy;
      result = conclude (gate_reason client policy operation now) policy candidates now;
    }
