-- ===== src/Suggestions/Archive.antt =====
-- apps/api/src/memory-suggestions/archive-suggestion-applier.ts: the owner applies a proposal to
-- archive a memory.
use funes_vault.Common.{
  ℕ, String, Bool, true, false, not, ◌&&◌, ◌||◌, ◌==◌, leb, Option, none, some, List, [], ◌∷◌, find,
  update_where, if◌then◌else◌, Result, ok, guard, or_throw, ◌>>◌, ◌>>=◌,
}
use funes_vault.Vault.Enums.{
  MemoryStatus, SourceType, ActorType, SubjectType, SubjectRole, is_active, is_reviewed,
}
use funes_vault.Vault.Store.{Memory, Subject}
use funes_vault.Suggestions.Store.{
  SuggestionStatus, SourceMetadata, Suggestion, EventType, memory_archived, suggestion_approved,
  SuggestionEvent, ProvenanceEntry, consolidation_applied, Db, Runtime, Error, not_a_consolidation,
  no_target, target_not_found, stale_target, stale_survivor, is_consolidation, find_memory,
  add_event, add_provenance,
}
use funes_vault.Suggestions.Records.{claim_suggestion, update_status, set_memories, memory_subject}

-- `stringMetadata`: a text that is not empty.
abbrev pub string_metadata : Option String → Option String
string_metadata none = none
string_metadata (some text) = if text == "" then none else some text

-- `recorded && version !== recorded`, negated.
abbrev pub is_version : Option String → String → Bool
is_version none version = true
is_version (some recorded) version = recorded == "" || version == recorded

-- `sourceMetadata.targetVersion && (target.status !== ACTIVE || …)`, negated.
abbrev pub target_is_current : Option String → Memory → Bool
target_is_current none m = true
target_is_current (some recorded) m =
    recorded == "" || is_active m.status && m.updated_at == recorded

-- The survivor is looked for among the owner's active and approved memories.
abbrev pub find_survivor : Db → String → String → Option Memory
find_survivor db user_id id =
    find
      (λ (m : Memory).
        m.id == id && m.user_id == user_id && is_active m.status && is_reviewed m.review_state)
      db.vault.memories

abbrev pub has_passed : Option ℕ → ℕ → Bool
has_passed none now = false
has_passed (some t) now = leb t now

abbrev pub survives : Memory → Option String → ℕ → Option Memory → Bool
survives target version now none = false
survives target version now (some m) =
    not (m.id == target.id) && not (has_passed m.expires_at now) && is_version version m.updated_at

abbrev pub survivor_is_current : Db → String → Memory → SourceMetadata → ℕ → Option String → Bool
survivor_is_current db user_id target meta now none = true
survivor_is_current db user_id target meta now (some id) =
    survives target meta.canonical_version now (find_survivor db user_id id)

abbrev opt_equals : Option String → String → Bool
opt_equals none s = false
opt_equals (some t) s = t == s

abbrev pub archived_status : Option String → MemoryStatus
archived_status reason =
    if opt_equals reason "expired" then MemoryStatus.expired else MemoryStatus.archived

-- An update sets the column `updatedAt`.
abbrev pub set_archived : MemoryStatus → String → Memory → Memory
set_archived status version m = record m { status = status; updated_at = version }

abbrev pub archive_memory : String → MemoryStatus → String → Db → Db
archive_memory id status version db =
    set_memories
      (update_where (λ (m : Memory). m.id == id) (set_archived status version) db.vault.memories) db

abbrev canonical_of : Db → String → Option String → Option String
canonical_of db user_id none = none
canonical_of db user_id (some id) = elim (find_memory db user_id id) [
  | none ↦ none
  | some m ↦ some m.id
]

-- `archiveAuditSubjects`
abbrev archive_subjects : String → String → Option String → Option String → List Subject
archive_subjects suggestion_id target canonical job =
    memory_subject SubjectRole.archived target
    ∷ (record { kind = SubjectType.memory; id = canonical; role = SubjectRole.canonical })
    ∷ (record {
      kind = SubjectType.memory_suggestion;
      id = some suggestion_id;
      role = SubjectRole.suggestion;
    })
    ∷ (record { kind = SubjectType.job_run; id = job; role = SubjectRole.job })
    ∷ []

abbrev archive_event :
    Runtime → Db → EventType → String → Suggestion → String → Option String → SuggestionEvent
archive_event rt db kind user_id s target canonical =
    let job = string_metadata s.source_metadata.job_run_id in
    record {
      id = rt.event_id db.rows;
      user_id = user_id;
      client_id = none;
      kind = kind;
      actor_type = ActorType.user;
      actor_id = some user_id;
      suggestion_id = some s.id;
      memory_id = some target;
      canonical_memory_id = canonical;
      job_run_id = job;
      policy_id = none;
      policy_version = none;
      denial = none;
      reason = string_metadata s.source_metadata.reason;
      stated_purpose = none;
      direct_write = false;
      requires_confirmation = false;
      subjects = archive_subjects s.id target canonical job;
    }

abbrev or_review_only : Option String → Option String
or_review_only none = some "REVIEW_ONLY"
or_review_only (some mode) = some mode

abbrev archive_provenance : String → Suggestion → String → String → String → ProvenanceEntry
archive_provenance user_id s target approval archival = record {
  user_id = user_id;
  memory_id = target;
  kind = consolidation_applied;
  actor_type = ActorType.user;
  actor_id = some user_id;
  source_type = SourceType.consolidation;
  source_client_id = none;
  suggestion_id = some s.id;
  job_run_id = string_metadata s.source_metadata.job_run_id;
  audit_event_id = some archival;
  suggestion_event_id = some approval;
  reason = string_metadata s.source_metadata.reason;
  evidence = s.evidence;
  confidence = s.confidence;
  mode = or_review_only (string_metadata s.source_metadata.mode);
}

-- The two audit events and the entry of provenance.
abbrev pub record_archival : Runtime → String → Suggestion → String → Db → Db
record_archival rt user_id s target db =
    let canonical =
      canonical_of db user_id (string_metadata s.source_metadata.canonical_memory_id) in
    let approval = archive_event rt db suggestion_approved user_id s target canonical in
    let db1 = add_event approval db in
    let archival = archive_event rt db1 memory_archived user_id s target canonical in
    add_provenance (archive_provenance user_id s target approval.id archival.id)
      (add_event archival db1)

-- The transaction, on the suggestion that was loaded before it.
abbrev pub archive_transaction : Runtime → String → Suggestion → String → ℕ → Db → Result Error Db
archive_transaction rt user_id s target_id now db =
    claim_suggestion user_id s.id SuggestionStatus.applied db >>= λ db1.
    or_throw (find_memory db1 user_id target_id) target_not_found >>= λ target.
    guard (target_is_current s.source_metadata.target_version target) stale_target
    >> guard
        (survivor_is_current db1 user_id target s.source_metadata now
          s.source_metadata.canonical_memory_id)
        stale_survivor
    >> ok (
        record_archival rt user_id s target.id (
          update_status s.id SuggestionStatus.applied
            (archive_memory target.id (archived_status s.source_metadata.reason) (rt.iso now) db1)))

-- `applyArchiveSuggestion`
unfoldable pub apply_archive_suggestion : Runtime → String → Suggestion → ℕ → Db → Result Error Db
apply_archive_suggestion rt user_id s now db =
    guard (is_consolidation s.source_type) not_a_consolidation
    >> (or_throw (string_metadata s.source_metadata.target_memory_id) no_target >>= λ target_id.
        archive_transaction rt user_id s target_id now db)
