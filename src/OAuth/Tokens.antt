-- ===== src/OAuth/Tokens.antt =====
-- apps/api/src/oauth/oauth-tokens.service.ts
use funes_vault.Common.{
  ℕ, suc, ◌+◌, ◌*◌, String, Bool, false, not, ◌&&◌, ◌==◌, ltb, leb, Option, none, some, List, [],
  ◌∷◌, ◌++◌, find, filter, map, has, length, update_where, if◌then◌else◌, opt_is, is_some,
}
use funes_vault.Vault.Enums.{ActorType, is_trusted}
use funes_vault.Vault.Store.{Client}
use funes_vault.OAuth.Store.{
  Registration, TokenType, access, refresh, Token, token_issued, token_revoked, Event, Db, Runtime,
  is_approved, is_access, is_refresh, registration_of, client_of,
}

-- `IssueInput`
pub record IssueInput : Type 0 where
  pub registration_id : String
  pub user_id : String
  pub client_id : String
  pub scopes : List String
  pub resource : Option String
  pub source_code_id : Option String
  pub grant_type : String

-- `IssuedTokenPair`
pub record IssuedPair : Type 0 where
  pub access_token : String
  pub refresh_token : String
  pub expires_in_seconds : ℕ
  pub scopes : List String

abbrev pub issued_token : TokenType → String → String → ℕ → IssueInput → Token
issued_token kind id hash expires_at input = record {
  id = id;
  registration_id = input.registration_id;
  user_id = input.user_id;
  client_id = input.client_id;
  kind = kind;
  token_hash = hash;
  scopes = input.scopes;
  resource = input.resource;
  source_code_id = input.source_code_id;
  expires_at = expires_at;
  revoked_at = none;
}

abbrev pub issued_tokens : Runtime → ℕ → ℕ → IssueInput → List Token
issued_tokens rt n now input =
    issued_token access (rt.access_id n) (rt.hash (rt.access_token n))
      (now + rt.access_ttl_seconds * 1000) input
    ∷ issued_token refresh (rt.refresh_id n) (rt.hash (rt.refresh_token n))
        (now + rt.refresh_ttl_seconds * 1000) input
    ∷ []

abbrev issue_event : IssueInput → Event
issue_event input = record {
  user_id = input.user_id;
  client_id = some input.client_id;
  actor_type = ActorType.client;
  actor_id = some input.client_id;
  detail = token_issued input.grant_type;
}

-- `issueTokenPair`
abbrev pub issue_token_pair : Runtime → IssueInput → ℕ → Db → IssuedPair × Db
issue_token_pair rt input now db = (
  record {
    access_token = rt.access_token db.issued;
    refresh_token = rt.refresh_token db.issued;
    expires_in_seconds = rt.access_ttl_seconds;
    scopes = input.scopes;
  },
  record db {
    tokens = db.tokens ++ issued_tokens rt db.issued now input;
    events = db.events ++ issue_event input ∷ [];
    issued = suc db.issued;
  },
)

-- `findToken`
abbrev pub find_token : Runtime → Db → String → (TokenType → Bool) → Option Token
find_token rt db token kind =
    find (λ (t : Token). t.token_hash == rt.hash token && kind t.kind) db.tokens

-- `isUsableGrant`
abbrev pub is_approved_registration : Option Registration → Bool
is_approved_registration none = false
is_approved_registration (some r) = is_approved r.status

abbrev pub is_trusted_client : Option Client → Bool
is_trusted_client none = false
is_trusted_client (some c) = is_trusted c.trust_level

abbrev pub is_usable_grant : Db → Token → ℕ → Bool
is_usable_grant db t now =
    not (is_some t.revoked_at)
    && ltb now t.expires_at
    && is_approved_registration (registration_of db t.registration_id)
    && is_trusted_client (client_of db t.client_id)

abbrev pub usable : Db → ℕ → Option Token → Option Token
usable db now none = none
usable db now (some t) = if is_usable_grant db t now then some t else none

-- `verifyAccessToken`, by the token's row.
unfoldable pub verify_access_token : Runtime → Db → String → ℕ → Option Token
verify_access_token rt db token now =
    if rt.has_access_prefix token then usable db now (find_token rt db token is_access) else none

pub data Verified : Type 0 where
  valid reused : Token → Verified
  invalid : Verified

abbrev pub judged : Db → ℕ → Option Token → Verified
judged db now none = invalid
judged db now (some t) =
    if is_some t.revoked_at
    then reused t
    else if leb t.expires_at now
    then invalid
    else if is_usable_grant db t now
    then valid t
    else invalid

-- `verifyRefreshToken`
unfoldable pub verify_refresh_token : Runtime → Db → String → ℕ → Verified
verify_refresh_token rt db token now = judged db now (find_token rt db token is_refresh)

abbrev pub set_revoked : ℕ → Token → Token
set_revoked now t = record t { revoked_at = some now }

abbrev revocation : String → String → ActorType → Option String → String → ℕ → Event
revocation user_id client_id actor_type actor_id reason n = record {
  user_id = user_id;
  client_id = some client_id;
  actor_type = actor_type;
  actor_id = actor_id;
  detail = token_revoked reason n;
}

abbrev pub ids_of : List Token → List String
ids_of = map (λ t. t.id)

-- The update of `revokeTokens` and `revokeTokensForClient`, with its event.
abbrev pub revoke_ids : List String → Event → ℕ → Db → Db
revoke_ids ids event now db = record db {
  tokens = update_where (λ (t : Token). has ids t.id) (set_revoked now) db.tokens;
  events = db.events ++ event ∷ [];
}

-- `revokeAccessToken`
abbrev pub revoke_access_token : Token → String → ℕ → Db → Db
revoke_access_token t reason now =
    revoke_ids (t.id ∷ [])
      (revocation t.user_id t.client_id ActorType.client (some t.client_id) reason 1) now

-- `revokeTokenById`
abbrev pub revoke_token_by_id : String → ℕ → Db → Db
revoke_token_by_id id now db = record db {
  tokens =
      update_where (λ (t : Token). t.id == id && not (is_some t.revoked_at)) (set_revoked now)
        db.tokens;
}

abbrev pub revoke_found : List Token → (Token → Event) → ℕ → Db → Db
revoke_found [] event now db = db
revoke_found (t ∷ ts) event now db = revoke_ids (ids_of (t ∷ ts)) (event t) now db

abbrev pub live_tokens : (Token → Bool) → Db → List Token
live_tokens test db = filter (λ (t : Token). test t && not (is_some t.revoked_at)) db.tokens

-- `revokeTokensForSourceCode`
unfoldable pub revoke_tokens_for_source_code : String → String → ℕ → Db → Db
revoke_tokens_for_source_code code_id reason now db =
    let found = live_tokens (λ t. opt_is t.source_code_id code_id) db in
    revoke_found found
      (λ t. revocation t.user_id t.client_id ActorType.system none reason (length found)) now db

-- `revokeTokensForClient`
unfoldable pub revoke_tokens_for_client : String → String → ActorType → Option String → ℕ → Db → Db
revoke_tokens_for_client client_id reason actor_type actor_id now db =
    let found = live_tokens (λ t. t.client_id == client_id) db in
    revoke_found found
      (λ t. revocation t.user_id client_id actor_type actor_id reason (length found)) now db
