-- ===== src/OAuth/Steps.antt =====
-- The calls of the connectors and of the users in any order.
use funes_vault.Common.{ℕ, ◌≤◌, String, ◌≡◌, Option, List, In, all, has, true, ok}
use funes_vault.OAuth.Store.{Registration, AuthorizationRequest, Code, Token, Db, Runtime}
use funes_vault.OAuth.Registrations.{
  ClientInformation, register_client, is_allowed_redirect_uri, pending_count,
}
use funes_vault.OAuth.Permissions.{supported_scopes}
use funes_vault.OAuth.Provider.{exchange_authorization_code, exchange_refresh_token, revoke_token}
use funes_vault.OAuth.Consent.Requests.{AuthorizationParams, authorize}
use funes_vault.OAuth.Consent.Grants.{DecisionInput, approve, deny}

-- A call that writes, with the tables before and after it. A call that throws in a transaction writes
-- nothing; a failing exchange may have written.
pub data Step (rt : Runtime) (db db' : Db) : Type 0 where
  registers :
      (c : ClientInformation) (now : ℕ) (info : ClientInformation)
      → register_client rt db c now ≡ ok (info, db')
      → Step rt db db'
  authorizes :
      (client_id : String) (params : AuthorizationParams) (now : ℕ) (url : String)
      → authorize rt db client_id params now ≡ ok (url, db')
      → Step rt db db'
  approves :
      (input : DecisionInput) (now : ℕ) (url : String)
      → approve rt db input now ≡ ok (url, db')
      → Step rt db db'
  denies :
      (input : DecisionInput) (now : ℕ) (url : String)
      → deny rt db input now ≡ ok (url, db')
      → Step rt db db'
  redeems :
      (client_id code : String) (redirect resource : Option String) (now : ℕ)
      → (exchange_authorization_code rt db client_id code redirect resource now).1 ≡ db'
      → Step rt db db'
  refreshes :
      (client_id token : String) (scopes : Option (List String)) (resource : Option String)
      (now : ℕ)
      → (exchange_refresh_token rt db client_id token scopes resource now).1 ≡ db'
      → Step rt db db'
  revokes :
      (client_id token : String) (now : ℕ)
      → revoke_token rt db client_id token now ≡ db'
      → Step rt db db'

pub data Steps (rt : Runtime) (db : Db) : Db → Type 0 where
  done : Steps rt db db
  next : {db' db'' : Db} → Steps rt db db' → Step rt db' db'' → Steps rt db db''

-- No scope but those that are supported.
abbrev pub IsSupported : List String → Type 0
IsSupported scopes = all (has supported_scopes) scopes ≡ true

-- No credential and no request for one has an unsupported scope, no connector redirects to a place
-- that is not allowed, and no more registrations are pending than may be.
pub record IsSound (rt : Runtime) (db : Db) : Type 0 where
  pub bounded : pending_count db.registrations ≤ rt.max_pending_registrations
  pub redirects :
      (g : Registration)
      → In g db.registrations
      → all (is_allowed_redirect_uri rt) g.redirect_uris ≡ true
  pub requests : (r : AuthorizationRequest) → In r db.requests → IsSupported r.scopes
  pub codes : (c : Code) → In c db.codes → IsSupported c.scopes
  pub tokens : (t : Token) → In t db.tokens → IsSupported t.scopes
