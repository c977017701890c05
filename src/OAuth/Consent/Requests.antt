-- ===== src/OAuth/Consent/Requests.antt =====
-- `authorize` and `challengeForAuthorizationCode` of oauth-provider.service.ts, and
-- `loadPendingRequest` and `getConsentContext` of oauth-grants.service.ts.
use funes_vault.Common.{
  ◌*◌, ℕ, suc, ◌+◌, String, Bool, true, false, not, ◌&&◌, ◌==◌, leb, Option, none, some, List, [],
  ◌∷◌, ◌++◌, find, filter, any, if◌then◌else◌, is_some, Result, ok, guard, or_throw, ◌>>=◌, ◌>>◌,
}
use funes_vault.Vault.Enums.{Sensitivity, Operation, same_operation}
use funes_vault.Vault.Store.{Client, Policy}
use funes_vault.OAuth.Store.{
  Registration, RegistrationStatus, AuthorizationRequest, Db, Runtime, Error, invalid_grant,
  invalid_target, request_not_found, already_decided, request_expired, invalid_nonce, is_barred,
  registration_of,
}
use funes_vault.OAuth.Provider.{is_served, find_code, is_registered_as}
use funes_vault.OAuth.Registrations.{find_registration}
use funes_vault.OAuth.Permissions.{
  resolve_requested_scopes, scopes_to_operations, resulting_operations,
  default_connector_max_sensitivity, consent_client,
}

-- `AuthorizationParams`
pub record AuthorizationParams : Type 0 where
  pub scopes : Option (List String)
  pub resource : Option String
  pub redirect_uri : String
  pub code_challenge : String
  pub state : Option String

-- The return of `assertResourceAllowed`.
abbrev pub served_resource : Runtime → Option String → Option String
served_resource rt none = none
served_resource rt (some url) = some (rt.normalized url)

abbrev authorization_request_ttl_ms : ℕ
authorization_request_ttl_ms = 10 * 60 * 1000

abbrev pub new_request :
    Runtime → ℕ → String → AuthorizationParams → List String → ℕ → AuthorizationRequest
new_request rt n registration_id params scopes now = record {
  id = rt.request_id n;
  registration_id = registration_id;
  redirect_uri = params.redirect_uri;
  code_challenge = params.code_challenge;
  scopes = scopes;
  state = params.state;
  resource = served_resource rt params.resource;
  csrf_token_hash = rt.hash (rt.nonce n);
  expires_at = now + authorization_request_ttl_ms;
  decided_at = none;
}

-- `authorize`, with the URL that it redirects to.
unfoldable pub authorize :
    Runtime → Db → String → AuthorizationParams → ℕ → Result Error (String × Db)
authorize rt db client_id params now = resolve_requested_scopes params.scopes >>= λ scopes.
    guard (is_served rt params.resource) invalid_target
    >> (or_throw (find_registration db client_id) invalid_grant >>= λ registration. ok (
      rt.with_params rt.consent_page
          (("request", rt.request_id db.rows) ∷ ("nonce", rt.nonce db.rows) ∷ []),
      record db {
        requests = db.requests ++ new_request rt db.rows registration.id params scopes now ∷ [];
        rows = suc db.rows;
      },
    ))

-- `challengeForAuthorizationCode`
pub challenge_for_authorization_code : Runtime → Db → String → String → Result Error String
challenge_for_authorization_code rt db client_id code =
    or_throw (find_code rt db code) invalid_grant >>= λ c.
    guard (is_registered_as (registration_of db c.registration_id) client_id) invalid_grant
    >> ok c.code_challenge

-- `oAuthAuthorizationRequest.findUnique({ where: { id } })`
abbrev pub find_request : Db → String → Option AuthorizationRequest
find_request db id = find (λ (r : AuthorizationRequest). r.id == id) db.requests

-- `nonce !== undefined && !credentialMatchesHash(nonce, request.csrfTokenHash)`, negated.
abbrev pub nonce_matches : Runtime → Option String → String → Bool
nonce_matches rt none hash = true
nonce_matches rt (some nonce) hash = rt.hash nonce == hash

-- A request whose registration was loaded with it.
abbrev pub open_request :
    Runtime
    → Option String
    → ℕ
    → AuthorizationRequest
    → Registration
    → Result Error (AuthorizationRequest × Registration)
open_request rt nonce now request registration =
    guard (not (is_barred registration.status)) request_not_found
    >> guard (not (is_some request.decided_at)) already_decided
    >> guard (not (leb request.expires_at now)) request_expired
    >> guard (nonce_matches rt nonce request.csrf_token_hash) invalid_nonce
    >> ok (request, registration)

-- `loadPendingRequest`
unfoldable pub load_pending_request :
    Runtime → Db → String → Option String → ℕ → Result Error (AuthorizationRequest × Registration)
load_pending_request rt db request_id nonce now =
    or_throw (find_request db request_id) request_not_found >>= λ request.
    or_throw (registration_of db request.registration_id) request_not_found >>= λ registration.
    open_request rt nonce now request registration

-- `policy.findUnique({ where: { userId, clientId } })` and `client.policies[0]`
abbrev pub grant_policy : Db → String → String → Option Policy
grant_policy db user_id client_id =
    find (λ (p : Policy). p.client_id == client_id && p.user_id == user_id) db.policies

-- `ConsentContext`
pub record ConsentContext : Type 0 where
  pub request_id : String
  pub client_name : String
  pub client_uri : Option String
  pub logo_uri : Option String
  pub redirect_host : String
  pub redirect_origin : String
  pub scopes : List String
  pub registration_status : RegistrationStatus
  pub operations : List Operation
  pub added_operations : List Operation
  pub recreating : Bool
  pub creates_permissions : Bool
  pub allowed_categories : List String
  pub denied_categories : List String
  pub requires_confirmation : Bool
  pub expires_at : Option ℕ
  pub max_sensitivity : Sensitivity

abbrev pub has_operation : List Operation → Operation → Bool
has_operation operations o = any (λ x. same_operation x o) operations

-- What the page says of a client without permissions.
abbrev without_policy :
    Runtime → Db → Bool → Bool → AuthorizationRequest → Registration → ConsentContext
without_policy rt db signed_in known r g = record {
  request_id = r.id;
  client_name = g.name;
  client_uri = g.client_uri;
  logo_uri = g.logo_uri;
  redirect_host = rt.host r.redirect_uri;
  redirect_origin = rt.origin r.redirect_uri;
  scopes = r.scopes;
  registration_status = g.status;
  operations = resulting_operations [] r.scopes;
  added_operations = scopes_to_operations r.scopes;
  recreating = known;
  creates_permissions = true;
  allowed_categories = if signed_in then db.categories else [];
  denied_categories = [];
  requires_confirmation = false;
  expires_at = none;
  max_sensitivity = default_connector_max_sensitivity rt;
}

abbrev with_policy : Option Policy → ConsentContext → ConsentContext
with_policy none context = context
with_policy (some p) context = record context {
  operations = resulting_operations p.operations context.scopes;
  added_operations = filter (λ o. not (has_operation p.operations o)) context.added_operations;
  recreating = false;
  creates_permissions = false;
  allowed_categories = p.allowed_categories;
  denied_categories = p.denied_categories;
  requires_confirmation = p.requires_confirmation;
  expires_at = p.expires_at;
  max_sensitivity = p.max_sensitivity;
}

abbrev policy_of : Db → Option Client → Option Policy
policy_of db none = none
policy_of db (some c) = grant_policy db c.user_id c.id

-- The client is looked for when a user is signed in.
abbrev client_of_user : Db → Option String → String → Result Error (Option Client)
client_of_user db none registration_id = ok none
client_of_user db (some user_id) registration_id = consent_client db user_id registration_id

-- `getConsentContext`
unfoldable pub get_consent_context :
    Runtime → Db → String → Option String → ℕ → Result Error ConsentContext
get_consent_context rt db request_id user_id now =
    load_pending_request rt db request_id none now >>= λ (r, g).
    client_of_user db user_id r.registration_id >>= λ client. ok (
      with_policy (policy_of db client)
        (without_policy rt db (is_some user_id) (is_some client) r g))
