-- ===== src/OAuth/Store.antt =====
-- The tables of packages/db/prisma/schema.prisma that apps/api/src/oauth and apps/api/src/clients read
-- and write, and what they use and do not implement.
use funes_vault.Common.{ℕ, String, Bool, true, false, ◌==◌, Option, List, find}
use funes_vault.Vault.Enums.{ActorType, Operation, TrustLevel}
use funes_vault.Vault.Store.{Client, Policy}

pub data RegistrationStatus : Type 0 where
  pending approved blocked : RegistrationStatus

pub data TokenType : Type 0 where
  access refresh : TokenType

pub record Registration : Type 0 where
  pub id : String
  pub client_id : String
  pub name : String
  pub redirect_uris : List String
  pub token_endpoint_auth_method : String
  pub grant_types : List String
  pub scope : Option String
  pub client_uri : Option String
  pub logo_uri : Option String
  pub contacts : List String
  pub software_id : Option String
  pub software_version : Option String
  pub created_at : ℕ
  pub status : RegistrationStatus

-- A request of a connector for a grant, which its owner decides.
pub record AuthorizationRequest : Type 0 where
  pub id : String
  pub registration_id : String
  pub redirect_uri : String
  pub code_challenge : String
  pub scopes : List String
  pub state : Option String
  pub resource : Option String
  pub csrf_token_hash : String
  pub expires_at : ℕ
  pub decided_at : Option ℕ

pub record Code : Type 0 where
  pub id : String
  pub registration_id : String
  pub user_id : String
  pub client_id : String
  pub code_hash : String
  pub redirect_uri : String
  pub code_challenge : String
  pub scopes : List String
  pub resource : Option String
  pub expires_at : ℕ
  pub consumed_at : Option ℕ

pub record Token : Type 0 where
  pub id : String
  pub registration_id : String
  pub user_id : String
  pub client_id : String
  pub kind : TokenType
  pub token_hash : String
  pub scopes : List String
  pub resource : Option String
  pub source_code_id : Option String
  pub expires_at : ℕ
  pub revoked_at : Option ℕ

-- The type of an audit event, with what its metadata says: the grant type of an issue; the reason of a
-- revocation and how many tokens it revoked; the connector and the scopes of a decision, and where an
-- approval redirects to; a client and the connector it is for; a policy, its label and its operations,
-- before and after an update; a client of a user, with its name and trust or the fields that changed.
pub data Detail : Type 0 where
  token_issued : String → Detail
  token_revoked : String → ℕ → Detail
  grant_approved : String → String → List String → String → Detail
  grant_denied : String → String → List String → Detail
  client_created : String → String → TrustLevel → String → Detail
  policy_created : Policy → String → Detail
  policy_updated : String → String → List Operation → List Operation → Detail
  client_added : String → String → TrustLevel → Detail
  client_updated : String → List String → Detail
  client_token_rotated : String → List String → Detail
  client_deleted : String → String → Detail

pub record Event : Type 0 where
  pub user_id : String
  pub client_id : Option String
  pub actor_type : ActorType
  pub actor_id : Option String
  pub detail : Detail

-- The tables; of the categories, their keys. `issued` counts the pairs of credentials that were
-- generated, and `rows` the other rows.
pub record Db : Type 0 where
  pub registrations : List Registration
  pub requests : List AuthorizationRequest
  pub clients : List Client
  pub policies : List Policy
  pub categories : List String
  pub codes : List Code
  pub tokens : List Token
  pub events : List Event
  pub issued : ℕ
  pub rows : ℕ

-- The protocol and the host's name of a URL.
pub record Url : Type 0 where
  pub protocol : String
  pub hostname : String

-- SHA-256, random credentials and ids of the n-th issue or row, the prefix of access tokens, a
-- resource's URL without its fragment and final slashes, the URL that is served, the lifetimes and the
-- other configured values, an instant's ISO text, the parts of a URL, a URL with query parameters set,
-- the page of consent, and of texts the trimmed one and the first eight characters.
pub record Runtime : Type 0 where
  pub hash : String → String
  pub access_token : ℕ → String
  pub refresh_token : ℕ → String
  pub access_id : ℕ → String
  pub refresh_id : ℕ → String
  pub has_access_prefix : String → Bool
  pub normalized : String → String
  pub served : String
  pub access_ttl_seconds : ℕ
  pub refresh_ttl_seconds : ℕ
  pub code : ℕ → String
  pub nonce : ℕ → String
  pub registration_id : ℕ → String
  pub request_id : ℕ → String
  pub code_id : ℕ → String
  pub grant_client_id : ℕ → String
  pub policy_id : ℕ → String
  pub max_pending_registrations : ℕ
  pub connector_max_sensitivity : Option String
  pub iso : ℕ → String
  pub parse_url : String → Option Url
  pub host : String → String
  pub origin : String → String
  pub with_params : String → List (String × String) → String
  pub consent_page : String
  pub trim : String → String
  pub start_of : String → String

pub data Error : Type 0 where
  invalid_grant already_used expired redirect_mismatch not_approved : Error
  invalid_target invalid_scope : Error
  invalid_client_metadata duplicate_id : Error
  request_not_found already_decided request_expired invalid_nonce : Error
  client_blocked permissions_changed : Error
  client_not_found name_taken : Error

abbrev pub is_approved : RegistrationStatus → Bool
is_approved approved = true
is_approved _ = false

abbrev pub is_access : TokenType → Bool
is_access access = true
is_access refresh = false

abbrev pub is_refresh : TokenType → Bool
is_refresh access = false
is_refresh refresh = true

abbrev pub is_pending : RegistrationStatus → Bool
is_pending pending = true
is_pending _ = false

abbrev pub is_barred : RegistrationStatus → Bool
is_barred blocked = true
is_barred _ = false

-- `include: { registration: true, client: true }`; the relations are foreign keys.
abbrev pub registration_of : Db → String → Option Registration
registration_of db id = find (λ (r : Registration). r.id == id) db.registrations

abbrev pub client_of : Db → String → Option Client
client_of db id = find (λ (c : Client). c.id == id) db.clients
