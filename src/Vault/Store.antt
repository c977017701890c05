-- ===== src/Vault/Store.antt =====
-- packages/db/prisma/schema.prisma: the tables that the memory requests and the policies read and
-- write. An instant is a number of milliseconds; `updated_at` is the ISO text of the column, the
-- only form in which the code reads it. A text whose characters the code counts is the list of its
-- UTF-16 code units; a relevance score is counted in millionths.
use funes_vault.Common.{
  ℕ, suc, String, Bool, Option, List, [], ◌∷◌, ◌++◌, ◌&&◌, ◌==◌, find, filter, has, update_where,
}
use funes_vault.Vault.Enums.{
  ClientType, MemoryKind, SourceType, Sensitivity, MemoryStatus, ReviewState, TrustLevel, Retention,
  Operation, RequestReason, RequestStatus, ActorType, Decision, AuditEventType, SubjectType,
  SubjectRole,
}

abbrev pub Text : Type 0
Text = List ℕ

pub record Memory : Type 0 where
  pub id : String
  pub user_id : String
  pub title : Text
  pub body : Text
  pub sensitivity : Sensitivity
  pub status : MemoryStatus
  pub review_state : ReviewState
  pub expires_at : Option ℕ
  pub updated_at : String
  pub categories : List String
  pub kind : MemoryKind
  pub confidence : Option ℕ
  pub source_type : SourceType
  pub source_client_id : Option String
  -- `sourceMetadata.suggestionId`
  pub suggestion_id : Option String

pub record Policy : Type 0 where
  pub id : String
  pub user_id : String
  pub client_id : String
  pub max_sensitivity : Sensitivity
  pub operations : List Operation
  pub requires_confirmation : Bool
  pub expires_at : Option ℕ
  pub allowed_categories : List String
  pub denied_categories : List String
  pub updated_at : String

pub record Client : Type 0 where
  pub id : String
  pub user_id : String
  pub name : String
  pub kind : ClientType
  pub trust_level : TrustLevel
  pub declared_retention : Retention
  pub token_hash : Option String
  pub oauth_registration_id : Option String

-- `memoryBundleItemSchema`, the snapshot of one disclosed memory.
pub record BundleItem : Type 0 where
  pub memory_id : String
  pub text : Text
  pub category : Option String
  pub sensitivity : Sensitivity
  pub relevance_score : ℕ
  pub estimated_tokens : ℕ

-- `snapshotSchema`
pub record Snapshot : Type 0 where
  pub items : List BundleItem
  pub versions : List (String × String)
  pub policy_id : String
  pub policy_version : String
  pub client_version : String
  pub instructions : List String

-- The column `reviewSnapshot`: `{}`, or a snapshot that was written.
pub data ReviewSnapshot : Type 0 where
  blank : ReviewSnapshot
  stored : Snapshot → ReviewSnapshot

pub record MemoryRequest : Type 0 where
  pub id : String
  pub user_id : String
  pub client_id : String
  pub stated_purpose : Option String
  pub policy_id : Option String
  pub policy_version : Option String
  pub decision_reason : Option RequestReason
  pub task : String
  pub status : RequestStatus
  pub token_budget : ℕ
  pub requested_categories : List String
  pub retention : Retention
  pub third_party_processors : List String
  pub review_snapshot : ReviewSnapshot
  pub approval_expires_at : Option ℕ
  pub approved_at : Option ℕ
  pub denied_at : Option ℕ
  pub fulfilled_at : Option ℕ

-- A row of `MemoryRequestItem`: what was shared, kept for good.
pub record RequestItem : Type 0 where
  pub memory_request_id : String
  pub item : BundleItem

pub record Subject : Type 0 where
  pub kind : SubjectType
  pub id : Option String
  pub role : SubjectRole

-- The columns of an audit event, and of its metadata those that say what was decided and shared.
pub record AuditEvent : Type 0 where
  pub id : String
  pub user_id : String
  pub client_id : String
  pub memory_request_id : String
  pub kind : AuditEventType
  pub actor_type : ActorType
  pub actor_id : Option String
  pub memory_ids : List String
  pub decision : Decision
  pub reason : Option RequestReason
  pub requires_confirmation : Bool
  pub policy_id : Option String
  pub policy_version : Option String
  pub estimated_tokens : ℕ
  pub one_time_approval : Bool
  pub subjects : List Subject

-- The tables, each oldest row first. `rows` counts the ids that requests and
-- events were given.
pub record Db : Type 0 where
  pub clients : List Client
  pub policies : List Policy
  pub memories : List Memory
  pub requests : List MemoryRequest
  pub items : List RequestItem
  pub events : List AuditEvent
  pub rows : ℕ

-- `client.findFirst({ where: { id, userId } })`
abbrev pub find_client : Db → String → String → Option Client
find_client db user_id id = find (λ (c : Client). c.id == id && c.user_id == user_id) db.clients

-- `client.policies[0]`: the relation joins the client's id and its owner.
abbrev pub client_policy : Db → Client → Option Policy
client_policy db c =
    find (λ (p : Policy). p.client_id == c.id && p.user_id == c.user_id) db.policies

-- `memory.findMany({ where: { id: { in: ids }, userId } })`
abbrev pub find_memories : Db → String → List String → List Memory
find_memories db user_id ids =
    filter (λ (m : Memory). has ids m.id && m.user_id == user_id) db.memories

-- `memoryRequest.update({ where: { id }, data })`
abbrev pub update_request : String → (MemoryRequest → MemoryRequest) → Db → Db
update_request id f db = record db {
  requests = update_where (λ (r : MemoryRequest). r.id == id) f db.requests;
}

abbrev pub add_event : AuditEvent → Db → Db
add_event e db = record db { events = db.events ++ e ∷ []; rows = suc db.rows }
