-- ===== src/Suggestions/Store.antt =====
-- The tables that apps/api/src/memory-suggestions reads and writes beside the vault's: the
-- suggestions, their audit events, and the provenance of memories. A confidence is counted in
-- hundredths.
use funes_vault.Common.{
  ℕ, suc, String, Bool, true, false, Option, List, [], ◌∷◌, ◌++◌, ◌&&◌, ◌==◌, find,
}
use funes_vault.Vault.Enums.{Sensitivity, MemoryKind, SourceType, ActorType, RequestReason}
use funes_vault.Vault.Store.{Text, Memory, Subject}

pub data SuggestionStatus : Type 0 where
  queued_for_review approved rejected applied dismissed : SuggestionStatus

-- `sourceMetadata`: its entries that the code reads, where they are texts, and whether the memory was
-- written at once.
pub record SourceMetadata : Type 0 where
  pub action : Option String
  pub target_memory_id : Option String
  pub target_version : Option String
  pub canonical_memory_id : Option String
  pub canonical_version : Option String
  pub reason : Option String
  pub job_run_id : Option String
  pub mode : Option String
  pub direct_write : Bool

pub record Suggestion : Type 0 where
  pub id : String
  pub user_id : String
  pub source_type : SourceType
  pub source_client_id : Option String
  pub stated_purpose : Option String
  pub policy_id : Option String
  pub title : Text
  pub body : Text
  pub suggested_kind : MemoryKind
  pub suggested_sensitivity : Sensitivity
  pub suggested_categories : List String
  pub evidence : Option String
  pub source_metadata : SourceMetadata
  pub confidence : Option ℕ
  pub status : SuggestionStatus
  pub expires_at : Option ℕ

pub data EventType : Type 0 where
  suggestion_created suggestion_denied suggestion_approved suggestion_rejected : EventType
  memory_created memory_archived : EventType

-- The columns of an audit event, and of its metadata the memory, the suggestion, the policy, the
-- reasons, and whether the memory was written at once.
pub record SuggestionEvent : Type 0 where
  pub id : String
  pub user_id : String
  pub client_id : Option String
  pub kind : EventType
  pub actor_type : ActorType
  pub actor_id : Option String
  pub suggestion_id : Option String
  pub memory_id : Option String
  pub canonical_memory_id : Option String
  pub job_run_id : Option String
  pub policy_id : Option String
  pub policy_version : Option String
  pub denial : Option RequestReason
  pub reason : Option String
  pub stated_purpose : Option String
  pub direct_write : Bool
  pub requires_confirmation : Bool
  pub subjects : List Subject

pub data ProvenanceType : Type 0 where
  suggested consolidation_applied : ProvenanceType

pub record ProvenanceEntry : Type 0 where
  pub user_id : String
  pub memory_id : String
  pub kind : ProvenanceType
  pub actor_type : ActorType
  pub actor_id : Option String
  pub source_type : SourceType
  pub source_client_id : Option String
  pub suggestion_id : Option String
  pub job_run_id : Option String
  pub audit_event_id : Option String
  pub suggestion_event_id : Option String
  pub reason : Option String
  pub evidence : Option String
  pub confidence : Option ℕ
  pub mode : Option String

-- The tables; of the categories, their keys. `embedding_requests` lists the owners and the memories
-- that an embedding was asked for, and `rows` counts the ids that were given.
pub record Db : Type 0 where
  pub vault : funes_vault.Vault.Store.Db
  pub categories : List String
  pub suggestions : List Suggestion
  pub events : List SuggestionEvent
  pub provenance : List ProvenanceEntry
  pub embedding_requests : List (String × String)
  pub rows : ℕ

-- The ids of the n-th row of each table, an instant's ISO text, and the test of secret-like content,
-- on the title, the body and the evidence.
pub record Runtime : Type 0 where
  pub suggestion_id : ℕ → String
  pub memory_id : ℕ → String
  pub event_id : ℕ → String
  pub iso : ℕ → String
  pub secret_like : Text → Text → Option String → Bool

pub data Error : Type 0 where
  not_found not_reviewable unknown_categories secret_content duplicate_id : Error
  not_a_consolidation no_target target_not_found stale_target stale_survivor : Error

abbrev pub is_queued : SuggestionStatus → Bool
is_queued queued_for_review = true
is_queued _ = false

abbrev pub is_consolidation : SourceType → Bool
is_consolidation SourceType.consolidation = true
is_consolidation _ = false

-- `memorySuggestion.findFirst({ where: { id, userId } })`
abbrev pub find_suggestion : Db → String → String → Option Suggestion
find_suggestion db user_id id =
    find (λ (s : Suggestion). s.id == id && s.user_id == user_id) db.suggestions

-- `memory.findFirst({ where: { id, userId } })`
abbrev pub find_memory : Db → String → String → Option Memory
find_memory db user_id id =
    find (λ (m : Memory). m.id == id && m.user_id == user_id) db.vault.memories

abbrev pub add_event : SuggestionEvent → Db → Db
add_event e db = record db { events = db.events ++ e ∷ []; rows = suc db.rows }

abbrev pub add_provenance : ProvenanceEntry → Db → Db
add_provenance p db = record db { provenance = db.provenance ++ p ∷ [] }
