-- ===== src/Vault/Enums.antt =====
-- packages/shared/src/enums.ts and domain.ts: the enumerations and the order of sensitivities.
use funes_vault.Common.{ℕ, Bool, true, false, leb, nat_eq}

pub data Sensitivity : Type 0 where
  public low internal sensitive restricted secret : Sensitivity

pub data MemoryStatus : Type 0 where
  suggested active archived expired deleted : MemoryStatus

pub data ReviewState : Type 0 where
  pending approved rejected : ReviewState

pub data TrustLevel : Type 0 where
  unknown approved blocked : TrustLevel

pub data ClientType : Type 0 where
  local_agent mcp_client cli web_app browser_extension hosted_app other : ClientType

pub data Retention : Type 0 where
  no_storage session persistent unknown : Retention

pub data Operation : Type 0 where
  read suggest write summarize export : Operation

pub data RequestReason : Type 0 where
  unknown_or_blocked_client no_client_policy policy_expired operation_not_allowed : RequestReason
  no_matching_memories no_allowed_memories confirmation_required policy_changed : RequestReason
  inactive_memory unapproved_memory expired_memory above_sensitivity_ceiling : RequestReason
  denied_category category_not_allowed : RequestReason

pub data SourceType : Type 0 where
  manual import chat client_suggestion consolidation api derived : SourceType

pub data MemoryKind : Type 0 where
  fact preference instruction goal project_context relationship constraint event summary :
      MemoryKind

pub data RequestStatus : Type 0 where
  pending approved needs_user_approval denied fulfilled failed : RequestStatus

pub data ActorType : Type 0 where
  user client system job : ActorType

-- `sensitivityRank`
abbrev pub sensitivity_rank : Sensitivity → ℕ
sensitivity_rank public = 0
sensitivity_rank low = 1
sensitivity_rank internal = 2
sensitivity_rank sensitive = 3
sensitivity_rank restricted = 4
sensitivity_rank secret = 5

-- `isAtMostSensitivity`
abbrev pub is_at_most_sensitivity : Sensitivity → Sensitivity → Bool
is_at_most_sensitivity value maximum = leb (sensitivity_rank value) (sensitivity_rank maximum)

-- `===` on the enumerations, as the code uses it.
abbrev pub is_active : MemoryStatus → Bool
is_active active = true
is_active _ = false

abbrev pub is_reviewed : ReviewState → Bool
is_reviewed approved = true
is_reviewed _ = false

abbrev pub is_trusted : TrustLevel → Bool
is_trusted approved = true
is_trusted _ = false

abbrev pub is_blocked : TrustLevel → Bool
is_blocked blocked = true
is_blocked _ = false

abbrev operation_index : Operation → ℕ
operation_index read = 0
operation_index suggest = 1
operation_index write = 2
operation_index summarize = 3
operation_index export = 4

abbrev pub same_operation : Operation → Operation → Bool
same_operation a b = nat_eq (operation_index a) (operation_index b)

pub data Decision : Type 0 where
  allow needs_confirmation deny : Decision

-- The audit events that the modelled services write.
pub data AuditEventType : Type 0 where
  memory_disclosure memory_request_approved memory_request_denied : AuditEventType

pub data SubjectType : Type 0 where
  memory memory_request client policy memory_suggestion job_run : SubjectType

pub data SubjectRole : Type 0 where
  disclosed denied request client policy created suggestion archived canonical job : SubjectRole
