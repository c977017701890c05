-- ===== src/Suggestions/Records.antt =====
-- suggestion-records.ts, claim-suggestion.ts and suggestion-subjects.ts of
-- apps/api/src/memory-suggestions, and `assertExist` of memories/categories.service.ts.
use funes_vault.Common.{
  set_of, ℕ, suc, String, Bool, false, not, ◌&&◌, ◌==◌, nat_eq, Option, none, some, List, [], ◌∷◌,
  ◌++◌, filter, any, all, has, length, update_where, Result, ok, guard, ◌>>◌,
}
use funes_vault.Vault.Enums.{
  Sensitivity, MemoryKind, MemoryStatus, ReviewState, SourceType, SubjectType, SubjectRole,
}
use funes_vault.Vault.Store.{Text, Memory, Subject}
use funes_vault.Suggestions.Store.{
  SuggestionStatus, SourceMetadata, Suggestion, Db, Runtime, Error, not_reviewable,
  unknown_categories, duplicate_id, is_queued,
}

-- `CreateMemorySuggestionRequest`, its fields but the caller's metadata, which is stored as it is.
pub record SuggestionRequest : Type 0 where
  pub title : Text
  pub body : Text
  pub kind : MemoryKind
  pub sensitivity : Sensitivity
  pub category_keys : List String
  pub evidence : Option String
  pub purpose : Option String
  pub confidence : Option ℕ
  pub expires_at : Option ℕ

-- `assertExist`
abbrev pub assert_exist : Db → List String → Result Error (Unit {0})
assert_exist db keys = guard (all (has db.categories) keys) unknown_categories

abbrev pub no_metadata : SourceMetadata
no_metadata = record {
  action = none;
  target_memory_id = none;
  target_version = none;
  canonical_memory_id = none;
  canonical_version = none;
  reason = none;
  job_run_id = none;
  mode = none;
  direct_write = false;
}

abbrev pub new_suggestion :
    Runtime
    → ℕ
    → String
    → SourceType
    → Option String
    → Option String
    → Bool
    → SuggestionStatus
    → SuggestionRequest
    → Suggestion
new_suggestion rt n user_id source_type client_id policy_id direct_write status request = record {
  id = rt.suggestion_id n;
  user_id = user_id;
  source_type = source_type;
  source_client_id = client_id;
  stated_purpose = request.purpose;
  policy_id = policy_id;
  title = request.title;
  body = request.body;
  suggested_kind = request.kind;
  suggested_sensitivity = request.sensitivity;
  suggested_categories = request.category_keys;
  evidence = request.evidence;
  source_metadata = record no_metadata { direct_write = direct_write };
  confidence = request.confidence;
  status = status;
  expires_at = request.expires_at;
}

-- `createSuggestionRecord`. The column `id` is a primary key: to create a second row of an id throws.
abbrev pub create_suggestion_record : Suggestion → Db → Result Error Db
create_suggestion_record s db =
    guard (not (any (λ (x : Suggestion). x.id == s.id) db.suggestions)) duplicate_id
    >> ok (record db { suggestions = db.suggestions ++ s ∷ []; rows = suc db.rows })

abbrev pub memory_of_suggestion : Runtime → ℕ → Suggestion → ℕ → Memory
memory_of_suggestion rt n s now = record {
  id = rt.memory_id n;
  user_id = s.user_id;
  title = s.title;
  body = s.body;
  sensitivity = s.suggested_sensitivity;
  status = MemoryStatus.active;
  review_state = ReviewState.approved;
  expires_at = s.expires_at;
  updated_at = rt.iso now;
  categories = set_of s.suggested_categories;
  kind = s.suggested_kind;
  confidence = s.confidence;
  source_type = s.source_type;
  source_client_id = s.source_client_id;
  suggestion_id = some s.id;
}

abbrev pub set_memories : List Memory → Db → Db
set_memories ms db = record db { vault = record db.vault { memories = ms } }

-- `createMemoryFromSuggestion`, on the memory it creates.
abbrev pub create_memory : Memory → Db → Result Error Db
create_memory m db =
    guard (not (any (λ (x : Memory). x.id == m.id) db.vault.memories)) duplicate_id
    >> ok (set_memories (db.vault.memories ++ m ∷ []) db)

abbrev pub set_status : SuggestionStatus → Suggestion → Suggestion
set_status status s = record s { status = status }

-- `where: { id, userId, status: QUEUED_FOR_REVIEW }`
abbrev pub is_claimable : String → String → Suggestion → Bool
is_claimable user_id id s = s.id == id && s.user_id == user_id && is_queued s.status

-- `claimSuggestion`, without its lock on the owner's row.
abbrev pub claim_suggestion : String → String → SuggestionStatus → Db → Result Error Db
claim_suggestion user_id id status db =
    guard (nat_eq (length (filter (is_claimable user_id id) db.suggestions)) 1) not_reviewable
    >> ok (record db {
      suggestions = update_where (is_claimable user_id id) (set_status status) db.suggestions;
    })

-- `memorySuggestion.update({ where: { id }, data: { status } })`
abbrev pub update_status : String → SuggestionStatus → Db → Db
update_status id status db = record db {
  suggestions = update_where (λ (s : Suggestion). s.id == id) (set_status status) db.suggestions;
}

-- `suggestionAuditSubjects`
abbrev pub suggestion_subjects : String → Option String → Option String → List Subject
suggestion_subjects suggestion_id client_id policy_id =
    (record {
      kind = SubjectType.memory_suggestion;
      id = some suggestion_id;
      role = SubjectRole.suggestion;
    })
    ∷ (record { kind = SubjectType.client; id = client_id; role = SubjectRole.client })
    ∷ (record { kind = SubjectType.policy; id = policy_id; role = SubjectRole.policy })
    ∷ []

-- `auditMemorySubject`
abbrev pub memory_subject : SubjectRole → String → Subject
memory_subject role id = record { kind = SubjectType.memory; id = some id; role = role }
