-- ===== src/Administration.antt =====
-- apps/api/src/policies/policies.service.ts, the permissions that an owner gives to apps, with the
-- tables of packages/db/prisma/schema.prisma that it uses.
use funes_vault.Common.{
  ℕ, suc, String, Bool, false, not, any, ◌==◌, ◌&&◌, ◌||◌, if◌then◌else◌, Option, none, some, List,
  [], ◌∷◌, ◌++◌, map, length, find, filter, all, has, set_of, update_where, Result, ok, guard,
  or_throw, ◌>>=◌, ◌>>◌,
}
use funes_vault.Vault.Enums.{Sensitivity, secret, sensitive, Operation, read, suggest, write}
use funes_vault.Vault.Store.{Client, Policy}
use funes_vault.Vault.Apps.{
  web_chat_client_name, voice_client_name, is_first_party_client, app_permissions_label,
}
use funes_vault.OAuth.Permissions.{named_sensitivity}
pub mod Permissions
pub mod Steps
pub mod Asked
pub mod Kept
pub mod Refined
pub mod Clients
pub mod Frames
pub mod CutOff

-- `FirstPartyDefinition`
pub record FirstPartyDefinition : Type 0 where
  pub client_name : String
  pub first_party_default : String
  pub max_sensitivity : Sensitivity
  pub operations : List Operation
  pub requires_confirmation : Bool

-- `firstPartyPolicyFacts`
pub record PolicyFacts : Type 0 where
  pub first_party_default : String
  pub operations : List Operation
  pub max_sensitivity : Sensitivity
  pub requires_confirmation : Bool
  pub allowed_category_count : ℕ

-- The type of an audit event, with its metadata: the id of the policy, the defaults that it was made
-- of or the fields that changed, and its label.
pub data Detail : Type 0 where
  policy_created : String → Option PolicyFacts → String → Detail
  policy_updated : String → String → List String → Detail
  policy_deleted : String → String → Detail

-- An event of a user.
pub record Event : Type 0 where
  pub user_id : String
  pub client_id : String
  pub detail : Detail

-- The tables; of the categories, their keys in the order of their names. `rows` counts the policies
-- that were ever created.
pub record Db : Type 0 where
  pub clients : List Client
  pub policies : List Policy
  pub categories : List String
  pub events : List Event
  pub rows : ℕ

-- The id of the n-th policy, an instant's ISO text, and the configured ceiling of voice sessions.
pub record Runtime : Type 0 where
  pub policy_id : ℕ → String
  pub iso : ℕ → String
  pub voice_max_sensitivity : Option String

pub data Error : Type 0 where
  app_not_found no_defaults unknown_client unknown_categories : Error
  already_has_permissions policy_not_found : Error

pub record CreatePolicyRequest : Type 0 where
  pub client_id : String
  pub allowed_category_keys : List String
  pub denied_category_keys : List String
  pub max_sensitivity : Sensitivity
  pub operations : List Operation
  pub requires_confirmation : Bool
  pub expires_at : Option ℕ

-- A field that is not given is `none`; `expiresAt` may be given as null.
pub record UpdatePolicyRequest : Type 0 where
  pub allowed_category_keys : Option (List String)
  pub denied_category_keys : Option (List String)
  pub max_sensitivity : Option Sensitivity
  pub operations : Option (List Operation)
  pub requires_confirmation : Option Bool
  pub expires_at : Option (Option ℕ)

pub record PolicyResponse : Type 0 where
  pub id : String
  pub client_id : String
  pub client_name : Option String
  pub allowed_category_keys : List String
  pub denied_category_keys : List String
  pub max_sensitivity : Sensitivity
  pub operations : List Operation
  pub requires_confirmation : Bool
  pub expires_at : Option ℕ
  pub updated_at : String

-- `{ id: clientId, userId }`
abbrev pub find_client : Db → String → String → Option Client
find_client db user_id id = find (λ (c : Client). c.id == id && c.user_id == user_id) db.clients

-- `{ id, userId }`
abbrev pub find_policy : Db → String → String → Option Policy
find_policy db user_id id = find (λ (p : Policy). p.id == id && p.user_id == user_id) db.policies

-- `ensureClientBelongsToUser`
abbrev pub ensure_client_belongs_to_user : Db → String → String → Result Error Client
ensure_client_belongs_to_user db user_id client_id =
    or_throw (find_client db user_id client_id) unknown_client

-- `assertExist`
abbrev pub assert_exist : Db → List String → Result Error (Unit {0})
assert_exist db keys = guard (all (has db.categories) keys) unknown_categories

abbrev pub name_of : Option Client → Option String
name_of none = none
name_of (some c) = some c.name

-- `include: policyInclude`: the client is a foreign key, with the owner.
abbrev pub client_name : Db → Policy → Option String
client_name db p = name_of (find_client db p.user_id p.client_id)

-- `toPolicyResponse`
abbrev pub to_policy_response : Db → Policy → PolicyResponse
to_policy_response db p = record {
  id = p.id;
  client_id = p.client_id;
  client_name = client_name db p;
  allowed_category_keys = p.allowed_categories;
  denied_category_keys = p.denied_categories;
  max_sensitivity = p.max_sensitivity;
  operations = p.operations;
  requires_confirmation = p.requires_confirmation;
  expires_at = p.expires_at;
  updated_at = p.updated_at;
}

-- `createAuditEvent`
abbrev pub audited : String → Policy → Detail → Db → Db
audited user_id p detail db = record db {
  events = db.events ++ record { user_id = user_id; client_id = p.client_id; detail = detail } ∷ [];
}

abbrev configured_or_sensitive : Option Sensitivity → Sensitivity
configured_or_sensitive none = sensitive
configured_or_sensitive (some s) = s

-- `defaultVoiceMaxSensitivity`
abbrev pub default_voice_max_sensitivity : Runtime → Sensitivity
default_voice_max_sensitivity rt =
    configured_or_sensitive (named_sensitivity rt.voice_max_sensitivity)

-- `webChatDefinition`
abbrev pub web_chat_definition : FirstPartyDefinition
web_chat_definition = record {
  client_name = web_chat_client_name;
  first_party_default = "web_chat";
  max_sensitivity = secret;
  operations = read ∷ suggest ∷ write ∷ [];
  requires_confirmation = false;
}

-- `voiceDefinition`
abbrev pub voice_definition : Runtime → FirstPartyDefinition
voice_definition rt = record {
  client_name = voice_client_name;
  first_party_default = "voice";
  max_sensitivity = default_voice_max_sensitivity rt;
  operations = read ∷ suggest ∷ [];
  requires_confirmation = false;
}

-- `firstPartyPolicyFacts`
abbrev pub first_party_policy_facts : FirstPartyDefinition → ℕ → PolicyFacts
first_party_policy_facts d count = record {
  first_party_default = d.first_party_default;
  operations = d.operations;
  max_sensitivity = d.max_sensitivity;
  requires_confirmation = d.requires_confirmation;
  allowed_category_count = count;
}
