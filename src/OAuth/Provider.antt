-- ===== src/OAuth/Provider.antt =====
-- apps/api/src/oauth/oauth-provider.service.ts: the exchanges. A call that fails may have written, so
-- an exchange gives its outcome and the tables. The statements of an exchange follow one another with
-- no other call between them.
use funes_vault.Common.{
  ℕ, String, Bool, true, false, not, ◌&&◌, ◌||◌, ◌==◌, nat_eq, leb, Option, none, some, List, [],
  ◌∷◌, find, filter, has, length, update_where, if◌then◌else◌, is_some, Result, ok, err,
}
use funes_vault.Vault.Enums.{ActorType}
use funes_vault.OAuth.Store.{
  Registration, Code, Token, Db, Runtime, Error, invalid_grant, already_used, expired,
  redirect_mismatch, not_approved, invalid_target, invalid_scope, is_refresh, registration_of,
  client_of,
}
use funes_vault.OAuth.Tokens.{
  IssueInput, IssuedPair, issue_token_pair, is_approved_registration, is_trusted_client, Verified,
  valid, reused, invalid, verify_refresh_token, revoke_access_token, revoke_token_by_id,
  revoke_tokens_for_source_code, revoke_tokens_for_client,
}

abbrev pub is_registered_as : Option Registration → String → Bool
is_registered_as none client_id = false
is_registered_as (some r) client_id = r.client_id == client_id

-- `assertResourceAllowed`, as a test: no resource, or the one that is served.
abbrev pub is_served : Runtime → Option String → Bool
is_served rt none = true
is_served rt (some url) = rt.normalized url == rt.served

-- `code.resource && requestedResource && code.resource !== requestedResource`, negated.
abbrev pub agrees : Runtime → Option String → Option String → Bool
agrees rt none requested = true
agrees rt (some own) none = true
agrees rt (some own) (some url) = own == "" || rt.normalized url == "" || own == rt.normalized url

-- `redirectUri && redirectUri !== code.redirectUri`, negated.
abbrev pub same_redirect : Option String → String → Bool
same_redirect none uri = true
same_redirect (some given) uri = given == "" || given == uri

abbrev pub find_code : Runtime → Db → String → Option Code
find_code rt db code = find (λ (c : Code). c.code_hash == rt.hash code) db.codes

-- The checks after the replay check, in order.
abbrev pub check_code : Runtime → Db → Code → Option String → Option String → ℕ → Option Error
check_code rt db c redirect resource now =
    if leb c.expires_at now
    then some expired
    else if not (same_redirect redirect c.redirect_uri)
    then some redirect_mismatch
    else if not (is_served rt resource)
    then some invalid_target
    else if not (agrees rt c.resource resource)
    then some invalid_target
    else if not (is_approved_registration (registration_of db c.registration_id))
        || not (is_trusted_client (client_of db c.client_id))
    then some not_approved
    else none

abbrev pub consume_code : String → ℕ → Db → Db
consume_code id now db = record db {
  codes =
      update_where (λ (c : Code). c.id == id && not (is_some c.consumed_at))
        (λ c. record c { consumed_at = some now }) db.codes;
}

abbrev pub code_input : Code → IssueInput
code_input c = record {
  registration_id = c.registration_id;
  user_id = c.user_id;
  client_id = c.client_id;
  scopes = c.scopes;
  resource = c.resource;
  source_code_id = some c.id;
  grant_type = "authorization_code";
}

abbrev pub Exchanged : Type 0
Exchanged = Result Error IssuedPair × Db

abbrev pub returned : IssuedPair × Db → Exchanged
returned (pair, db) = (ok pair, db)

-- The exchange of a code that was found.
abbrev pub exchange_found :
    Runtime → Db → String → Option String → Option String → ℕ → Option Code → Exchanged
exchange_found rt db client_id redirect resource now none = (err invalid_grant, db)
exchange_found rt db client_id redirect resource now (some c) =
    if not (is_registered_as (registration_of db c.registration_id) client_id)
    then (err invalid_grant, db)
    else if is_some c.consumed_at
    then (err already_used, revoke_tokens_for_source_code c.id "authorization_code_reuse" now db)
    else elim (check_code rt db c redirect resource now) [
      | some e ↦ (err e, db)
      | none ↦ returned (issue_token_pair rt (code_input c) now (consume_code c.id now db))
    ]

-- `exchangeAuthorizationCode`
unfoldable pub exchange_authorization_code :
    Runtime → Db → String → String → Option String → Option String → ℕ → Exchanged
exchange_authorization_code rt db client_id code redirect resource now =
    exchange_found rt db client_id redirect resource now (find_code rt db code)

-- `scopes && scopes.length > 0 ? scopes : verified.token.scopes`
abbrev pub requested_scopes : Option (List String) → List String → List String
requested_scopes none own = own
requested_scopes (some []) own = own
requested_scopes (some (s ∷ ss)) own = s ∷ ss

abbrev pub narrowed : List String → List String → List String
narrowed requested own = filter (λ s. has own s) requested

abbrev pub refresh_input : Token → List String → IssueInput
refresh_input t scopes = record {
  registration_id = t.registration_id;
  user_id = t.user_id;
  client_id = t.client_id;
  scopes = scopes;
  resource = t.resource;
  source_code_id = t.source_code_id;
  grant_type = "refresh_token";
}

abbrev pub exchange_verified :
    Runtime → Db → String → Option (List String) → Option String → ℕ → Verified → Exchanged
exchange_verified rt db client_id scopes resource now invalid = (err invalid_grant, db)
exchange_verified rt db client_id scopes resource now (reused t) = (
  err invalid_grant,
  revoke_tokens_for_client t.client_id "refresh_token_reuse" ActorType.system none now db,
)
exchange_verified rt db client_id scopes resource now (valid t) =
    let requested = requested_scopes scopes t.scopes in
    let kept = narrowed requested t.scopes in
    if not (is_registered_as (registration_of db t.registration_id) client_id)
    then (err invalid_grant, db)
    else if not (nat_eq (length kept) (length requested))
    then (err invalid_scope, db)
    else if not (is_served rt resource)
    then (err invalid_target, db)
    else if not (agrees rt t.resource resource)
    then (err invalid_target, db)
    else returned (issue_token_pair rt (refresh_input t kept) now (revoke_token_by_id t.id now db))

-- `exchangeRefreshToken`
unfoldable pub exchange_refresh_token :
    Runtime → Db → String → String → Option (List String) → Option String → ℕ → Exchanged
exchange_refresh_token rt db client_id token scopes resource now =
    exchange_verified rt db client_id scopes resource now (verify_refresh_token rt db token now)

abbrev pub revoke_row : Option Token → ℕ → Db → Db
revoke_row none now db = db
revoke_row (some t) now db =
    if is_some t.revoked_at
    then db
    else if is_refresh t.kind
    then revoke_tokens_for_client t.client_id "connector_revocation" ActorType.client
        (some t.client_id) now db
    else revoke_access_token t "connector_revocation" now db

-- `revokeToken`
unfoldable pub revoke_token : Runtime → Db → String → String → ℕ → Db
revoke_token rt db client_id token now =
    revoke_row
      (find
        (λ (t : Token).
          t.token_hash == rt.hash token
          && is_registered_as (registration_of db t.registration_id) client_id)
        db.tokens)
      now db
