-- ===== src/OAuth/Consent/Grants.antt =====
-- `approve` and `deny` of oauth-grants.service.ts. The columns that the schema declares unique are
-- tested where a row is created: to break one throws P2002, which an approval turns into a conflict.
use funes_vault.Common.{
  ◌||◌, ℕ, suc, ◌+◌, ◌*◌, String, Bool, false, not, ◌&&◌, ◌==◌, nat_eq, Option, none, some, List,
  [], ◌∷◌, ◌++◌, any, length, update_where, append, if◌then◌else◌, is_some, Result, ok, guard,
  ◌>>=◌, ◌>>◌,
}
use funes_vault.Vault.Apps.{app_permissions_label}
use funes_vault.Vault.Enums.{ClientType, ActorType, TrustLevel, Retention, Operation, is_trusted}
use funes_vault.Vault.Store.{Client, Policy}
use funes_vault.OAuth.Store.{
  Registration, RegistrationStatus, AuthorizationRequest, Code, Detail, grant_approved,
  grant_denied, client_created, policy_created, policy_updated, Db, Runtime, Error,
  permissions_changed, is_pending, client_of,
}
use funes_vault.OAuth.Provider.{find_code}
use funes_vault.OAuth.Permissions.{
  scopes_to_operations, resulting_operations, default_connector_max_sensitivity, consent_client,
}
use funes_vault.OAuth.Consent.Requests.{load_pending_request, grant_policy}

-- `ConsentDecisionInput`
pub record DecisionInput : Type 0 where
  pub user_id : String
  pub request_id : String
  pub nonce : String

-- `auditService.createAuditEvent`
abbrev pub owner_event : String → Option String → Detail → Db → Db
owner_event user_id client_id detail db = record db {
  events =
      db.events
      ++ record {
        user_id = user_id;
        client_id = client_id;
        actor_type = ActorType.user;
        actor_id = some user_id;
        detail = detail;
      }
        ∷ [];
}

abbrev pub set_trusted : Client → Client
set_trusted c = record c { trust_level = TrustLevel.approved }

abbrev pub has_name : Db → String → String → Bool
has_name db user_id name = any (λ (c : Client). c.user_id == user_id && c.name == name) db.clients

abbrev pub grant_name : Runtime → Db → String → Registration → String
grant_name rt db user_id g =
    if has_name db user_id g.name
    then append g.name (append " (" (append (rt.start_of g.client_id) ")"))
    else g.name

abbrev pub grant_client : Runtime → Db → String → Registration → Client
grant_client rt db user_id g = record {
  id = rt.grant_client_id db.rows;
  user_id = user_id;
  name = grant_name rt db user_id g;
  kind = ClientType.mcp_client;
  trust_level = TrustLevel.approved;
  declared_retention = Retention.unknown;
  token_hash = none;
  oauth_registration_id = some g.id;
}

abbrev pub add_client : String → Client → Registration → Db → Db
add_client user_id c g db =
    owner_event user_id (some c.id) (client_created c.id c.name c.trust_level g.client_id)
      (record db { clients = db.clients ++ c ∷ [] })

-- The client that there is, or a new one.
abbrev pub ensured_client :
    Runtime → Db → String → Registration → Option Client → Result Error (Client × Db)
ensured_client rt db user_id g (some c) =
    if is_trusted c.trust_level
    then ok (c, db)
    else ok (
      set_trusted c,
      record db { clients = update_where (λ (x : Client). x.id == c.id) set_trusted db.clients },
    )
ensured_client rt db user_id g none =
    let c = grant_client rt db user_id g in
    guard (not (is_some (client_of db c.id))) permissions_changed
    >> guard (not (has_name db user_id c.name)) permissions_changed
    >> ok (c, add_client user_id c g db)

-- `ensureGrantClient`
abbrev pub ensure_grant_client : Runtime → Db → String → Registration → Result Error (Client × Db)
ensure_grant_client rt db user_id g =
    consent_client db user_id g.id >>= λ existing. ensured_client rt db user_id g existing

abbrev pub new_policy : Runtime → Db → String → Client → List String → ℕ → Policy
new_policy rt db user_id c scopes now = record {
  id = rt.policy_id db.rows;
  user_id = user_id;
  client_id = c.id;
  max_sensitivity = default_connector_max_sensitivity rt;
  operations = scopes_to_operations scopes;
  requires_confirmation = false;
  expires_at = none;
  allowed_categories = db.categories;
  denied_categories = [];
  updated_at = rt.iso now;
}

abbrev pub set_operations : List Operation → String → Policy → Policy
set_operations operations version p = record p { operations = operations; updated_at = version }

abbrev pub merge_policy : Runtime → String → Policy → Client → List Operation → ℕ → Db → Db
merge_policy rt user_id p c merged now db =
    owner_event user_id (some c.id)
      (policy_updated p.id (app_permissions_label (some c.name)) p.operations merged)
      (record db {
        policies =
            update_where (λ (x : Policy). x.id == p.id) (set_operations merged (rt.iso now))
              db.policies;
      })

abbrev pub add_policy : String → Policy → Client → Db → Db
add_policy user_id p c db =
    owner_event user_id (some c.id) (policy_created p (app_permissions_label (some c.name)))
      (record db { policies = db.policies ++ p ∷ [] })

-- The policy that there is, its operations extended, or a new one.
abbrev pub ensured_policy :
    Runtime → String → Client → List String → ℕ → Db → Option Policy → Result Error Db
ensured_policy rt user_id c scopes now db (some p) =
    let merged = resulting_operations p.operations scopes in
    ok (
      if nat_eq (length merged) (length p.operations)
      then db
      else merge_policy rt user_id p c merged now db)
ensured_policy rt user_id c scopes now db none =
    let p = new_policy rt db user_id c scopes now in
    guard (not (any (λ (x : Policy). x.client_id == c.id || x.id == p.id) db.policies))
      permissions_changed
    >> ok (add_policy user_id p c db)

-- `ensureGrantPolicy`
abbrev pub ensure_grant_policy : Runtime → String → Client → List String → ℕ → Db → Result Error Db
ensure_grant_policy rt user_id c scopes now db =
    ensured_policy rt user_id c scopes now db (grant_policy db user_id c.id)

abbrev pub set_approved : Registration → Registration
set_approved g = record g { status = RegistrationStatus.approved }

abbrev pub approve_registration : Registration → Db → Db
approve_registration g db =
    if is_pending g.status
    then record db {
      registrations =
          update_where (λ (x : Registration). x.id == g.id) set_approved db.registrations;
    }
    else db

abbrev pub authorization_code_ttl_ms : ℕ
authorization_code_ttl_ms = 5 * 60 * 1000

abbrev pub new_code : Runtime → ℕ → String → Client → AuthorizationRequest → ℕ → Code
new_code rt n user_id c r now = record {
  id = rt.code_id n;
  registration_id = r.registration_id;
  user_id = user_id;
  client_id = c.id;
  code_hash = rt.hash (rt.code n);
  redirect_uri = r.redirect_uri;
  code_challenge = r.code_challenge;
  scopes = r.scopes;
  resource = r.resource;
  expires_at = now + authorization_code_ttl_ms;
  consumed_at = none;
}

abbrev pub add_code : Runtime → ℕ → Code → Db → Result Error Db
add_code rt n c db =
    guard (not (is_some (find_code rt db (rt.code n)))) permissions_changed
    >> ok (record db { codes = db.codes ++ c ∷ [] })

abbrev pub set_decided : ℕ → AuthorizationRequest → AuthorizationRequest
set_decided now r = record r { decided_at = some now }

abbrev pub decide_request : String → ℕ → Db → Db
decide_request id now db = record db {
  requests = update_where (λ (x : AuthorizationRequest). x.id == id) (set_decided now) db.requests;
  rows = suc db.rows;
}

-- The transaction of `approve`, on the request that was loaded before it.
unfoldable pub approve_transaction :
    Runtime → Db → String → AuthorizationRequest → Registration → ℕ → Result Error Db
approve_transaction rt db user_id r g now = ensure_grant_client rt db user_id g >>= λ (c, db1).
    ensure_grant_policy rt user_id c r.scopes now db1 >>= λ db2.
    add_code rt db.rows (new_code rt db.rows user_id c r now) (approve_registration g db2)
    >>= λ db3. ok (
        owner_event user_id (some c.id)
          (grant_approved g.client_id g.name r.scopes (rt.host r.redirect_uri))
          (decide_request r.id now db3))

abbrev pub with_state : Option String → List (String × String)
with_state none = []
with_state (some state) = if state == "" then [] else ("state", state) ∷ []

-- `approve`, with the URL that it redirects to.
unfoldable pub approve : Runtime → Db → DecisionInput → ℕ → Result Error (String × Db)
approve rt db input now =
    load_pending_request rt db input.request_id (some input.nonce) now >>= λ (r, g).
    approve_transaction rt db input.user_id r g now >>= λ db'.
    ok (rt.with_params r.redirect_uri (("code", rt.code db.rows) ∷ with_state r.state), db')

-- `deny`, with the URL that it redirects to.
unfoldable pub deny : Runtime → Db → DecisionInput → ℕ → Result Error (String × Db)
deny rt db input now =
    load_pending_request rt db input.request_id (some input.nonce) now >>= λ (r, g). ok (
      rt.with_params r.redirect_uri (
          ("error", "access_denied")
          ∷ ("error_description", "The user denied access")
          ∷ with_state r.state),
      owner_event input.user_id none (grant_denied g.client_id g.name r.scopes)
          (decide_request r.id now db),
    )
