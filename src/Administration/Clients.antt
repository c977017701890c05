-- ===== src/Administration/Clients.antt =====
-- apps/api/src/clients/clients.service.ts: the clients of an owner, on the tables of OAuth.Store, which
-- do not hold requests and suggestions. A credential that a call generates is an argument of it.
use funes_vault.Common.{
  ℕ, suc, String, Bool, true, false, not, any, ◌==◌, ◌&&◌, ◌||◌, if◌then◌else◌, opt_is, is_some,
  Option, none, some, List, [], ◌∷◌, ◌++◌, find, filter, map, update_where, Result, ok, guard,
  or_throw, ◌>>=◌, ◌>>◌,
}
use funes_vault.Vault.Enums.{ClientType, TrustLevel, Retention, ActorType, is_blocked}
use funes_vault.Vault.Store.{Client, Policy}
use funes_vault.OAuth.Store.{
  Code, Token, Event, Db, Runtime, Error, client_not_found, name_taken, client_added,
  client_updated, client_token_rotated, client_deleted, Detail,
}
use funes_vault.OAuth.Tokens.{revoke_tokens_for_client}
use funes_vault.OAuth.Consent.Grants.{owner_event}

pub record CreateClientRequest : Type 0 where
  pub name : String
  pub kind : ClientType
  pub trust_level : TrustLevel
  pub declared_retention : Retention

pub record UpdateClientRequest : Type 0 where
  pub name : Option String
  pub kind : Option ClientType
  pub trust_level : Option TrustLevel
  pub declared_retention : Option Retention
  pub rotate_token : Option Bool

pub record ClientResponse : Type 0 where
  pub id : String
  pub name : String
  pub kind : ClientType
  pub trust_level : TrustLevel
  pub declared_retention : Retention
  pub has_token : Bool
  pub has_policy : Bool
  pub oauth_connector : Bool

-- `toClientResponse`
abbrev pub to_client_response : Client → Bool → ClientResponse
to_client_response c has_policy = record {
  id = c.id;
  name = c.name;
  kind = c.kind;
  trust_level = c.trust_level;
  declared_retention = c.declared_retention;
  has_token = is_some c.token_hash;
  has_policy = has_policy;
  oauth_connector = is_some c.oauth_registration_id;
}

-- `policyCountInclude`
abbrev pub has_policies : Db → String → Bool
has_policies db id = any (λ (p : Policy). p.client_id == id) db.policies

abbrev same_hash : Option String → Option String → Bool
same_hash none other = false
same_hash (some h) other = opt_is other h

-- The unique columns of the table, the id aside; among those of other rows.
abbrev pub clashes : Client → Client → Bool
clashes c other =
    c.user_id == other.user_id && c.name == other.name || same_hash c.token_hash other.token_hash

abbrev pub new_client : Runtime → Db → String → String → CreateClientRequest → Client
new_client rt db token user_id input = record {
  id = rt.grant_client_id db.rows;
  user_id = user_id;
  name = input.name;
  kind = input.kind;
  trust_level = input.trust_level;
  declared_retention = input.declared_retention;
  token_hash = some (rt.hash token);
  oauth_registration_id = none;
}

abbrev pub insert_client : Client → Db → Db
insert_client c db = record db { clients = db.clients ++ c ∷ []; rows = suc db.rows }

-- `createClient`
unfoldable pub create_client :
    Runtime
    → Db
    → String
    → String
    → CreateClientRequest
    → Result Error ((ClientResponse × String) × Db)
create_client rt db token user_id input =
    let c = new_client rt db token user_id input in
    guard (not (any (λ other. c.id == other.id || clashes c other) db.clients)) name_taken
    >> ok (
      (to_client_response c false, token),
      owner_event user_id (some c.id) (client_added c.id c.name c.trust_level) (insert_client c db),
    )

abbrev given {ℓ} : {A : Type ℓ} → Option A → A → A
given none old = old
given (some new) old = new

abbrev is_truthy : Option Bool → Bool
is_truthy none = false
is_truthy (some b) = b

-- `toUpdateData`, written to a row
abbrev pub with_client_data : Runtime → String → UpdateClientRequest → Client → Client
with_client_data rt token input c = record c {
  name = given input.name c.name;
  kind = given input.kind c.kind;
  trust_level = given input.trust_level c.trust_level;
  declared_retention = given input.declared_retention c.declared_retention;
  token_hash = if is_truthy input.rotate_token then some (rt.hash token) else c.token_hash;
}

abbrev asks_to_block : Option TrustLevel → Bool
asks_to_block none = false
asks_to_block (some t) = is_blocked t

-- An update that blocks a connector.
abbrev pub is_blocking : Client → UpdateClientRequest → Bool
is_blocking existing input =
    is_some existing.oauth_registration_id
    && asks_to_block input.trust_level
    && not (is_blocked existing.trust_level)

abbrev key_of {ℓ} : {A : Type ℓ} → Option A → String → List String
key_of none name = []
key_of (some a) name = name ∷ []

-- `Object.keys(input)` without `rotateToken`, in the order of the schema
abbrev pub changed_client_fields : UpdateClientRequest → List String
changed_client_fields input =
    key_of input.name "name"
    ++ (key_of input.kind "type"
        ++ (key_of input.trust_level "trustLevel"
            ++ key_of input.declared_retention "declaredRetention"))

abbrev pub update_detail : String → UpdateClientRequest → Detail
update_detail id input =
    if is_truthy input.rotate_token
    then client_token_rotated id (changed_client_fields input)
    else client_updated id (changed_client_fields input)

abbrev pub write_client : Runtime → String → UpdateClientRequest → String → Db → Db
write_client rt token input id db = record db {
  clients = update_where (λ (c : Client). c.id == id) (with_client_data rt token input) db.clients;
}

abbrev pub cut_off_if : Bool → String → String → String → ℕ → Db → Db
cut_off_if false id user_id reason now db = db
cut_off_if true id user_id reason now db =
    revoke_tokens_for_client id reason ActorType.user (some user_id) now db

-- `{ id, userId }`
abbrev pub own_client : Db → String → String → Option Client
own_client db user_id id = find (λ (c : Client). c.id == id && c.user_id == user_id) db.clients

-- `updateClient`; the credential is told if it was rotated.
unfoldable pub update_client :
    Runtime
    → Db
    → String
    → String
    → String
    → UpdateClientRequest
    → ℕ
    → Result Error ((ClientResponse × Option String) × Db)
update_client rt db token user_id id input now =
    or_throw (own_client db user_id id) client_not_found >>= λ existing.
    let updated = with_client_data rt token input existing in
    guard (not (any (λ other. not (existing.id == other.id) && clashes updated other) db.clients))
      name_taken
    >> ok (
      (
        to_client_response updated (has_policies db existing.id),
        if is_truthy input.rotate_token then some token else none,
      ),
      owner_event user_id (some existing.id) (update_detail existing.id input) (
          cut_off_if (is_blocking existing input) existing.id user_id "grant_blocked" now
            (write_client rt token input existing.id db)),
    )

abbrev pub forget_client : String → Event → Event
forget_client id e = if opt_is e.client_id id then record e { client_id = none } else e

-- A deletion, with the `onDelete` of the tables that refer to a client.
abbrev pub erase_client : String → Db → Db
erase_client id db = record db {
  clients = filter (λ (c : Client). not (c.id == id)) db.clients;
  policies = filter (λ (p : Policy). not (p.client_id == id)) db.policies;
  codes = filter (λ (c : Code). not (c.client_id == id)) db.codes;
  tokens = filter (λ (t : Token). not (t.client_id == id)) db.tokens;
  events = map (forget_client id) db.events;
}

-- `deleteClient`
unfoldable pub delete_client : Db → String → String → ℕ → Result Error (ClientResponse × Db)
delete_client db user_id id now =
    or_throw (own_client db user_id id) client_not_found >>= λ existing. ok (
      to_client_response (record existing { token_hash = none }) false,
      owner_event user_id none (client_deleted existing.id existing.name) (
          erase_client existing.id (
            cut_off_if (is_some existing.oauth_registration_id) existing.id user_id "grant_revoked"
              now db)),
    )
