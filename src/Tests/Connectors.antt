-- ===== src/Tests/Connectors.antt =====
-- A connector registers, asks for a grant, and is approved.
use funes_vault.Common.{
  List, ap, all, String, ◌≡◌, ◌≢◌, refl, true, none, some, [], ◌∷◌, inl, In, here, there, Result,
  ok, err, newcomer, nobody, IsDistinct, arith,
}
use funes_vault.Vault.Enums.{TrustLevel}
use funes_vault.Vault.Store.{Client, Policy}
use funes_vault.OAuth.Store.{
  access, refresh, Registration, AuthorizationRequest, Db, already_decided, Error,
}
use funes_vault.OAuth.Tokens.{IssuedPair}
use funes_vault.OAuth.Registrations.{
  ClientInformation, register_client, get_client, is_allowed_redirect_uri,
}
use funes_vault.OAuth.Permissions.{find_grant_client, resolve_requested_scopes}
use funes_vault.OAuth.Provider.{exchange_authorization_code}
use funes_vault.OAuth.Consent.Requests.{
  AuthorizationParams, authorize, load_pending_request, find_request, grant_policy,
}
use funes_vault.OAuth.Consent.Grants.{DecisionInput, approve, approve_transaction, deny}
use funes_vault.OAuth.Enrolled.{register_client-get_client}
use funes_vault.OAuth.Connection.{Holds, approve-exchange}
use funes_vault.OAuth.Decided.{decide_request_once}
use funes_vault.OAuth.Extended.{approve-Joins, Joins, operations_of}
use funes_vault.OAuth.Operations.{no_repeats}
use funes_vault.OAuth.Spared.{approve_spares, WasOwn, Remain, SparesClients}
use funes_vault.OAuth.Steps.{registers, authorizes, IsSound, next, done, approves}
use funes_vault.OAuth.Sound.Reached.{Steps-IsSound}
use funes_vault.Tests.Sample.{client, policy}
use funes_vault.Tests.Credentials.{rt, start}

abbrev connector : ClientInformation
connector = record {
  client_id = "desk";
  client_id_issued_at = none;
  client_name = some "Desk";
  redirect_uris = "desk.app" ∷ [];
  token_endpoint_auth_method = none;
  grant_types = none;
  response_types = none;
  scope = none;
  client_uri = none;
  logo_uri = none;
  contacts = none;
  software_id = none;
  software_version = none;
}

abbrev params : AuthorizationParams
params = record {
  scopes = some ("memory.suggest" ∷ []);
  resource = none;
  redirect_uri = "desk.app";
  code_challenge = "challenge";
  state = none;
}

abbrev begin : Db
begin = record start { clients = client ∷ []; policies = policy ∷ []; codes = [] }

abbrev after {ℓ} : {A : Type ℓ} → Result Error (A × Db) → Db
after (ok (a, db)) = db
after (err e) = begin

abbrev info_of : Result Error (ClientInformation × Db) → ClientInformation
info_of (ok (info, db)) = info
info_of (err e) = connector

abbrev registered : Db
registered = after (register_client rt begin connector 1000)

abbrev asked : Db
asked = after (authorize rt registered "desk" params 2000)

abbrev input : DecisionInput
input = record { user_id = "u1"; request_id = "r1"; nonce = "nonce" }

abbrev granted : Db
granted = after (approve rt asked input 3000)

abbrev request : AuthorizationRequest
request = record {
  id = "r1";
  registration_id = "g2";
  redirect_uri = "desk.app";
  code_challenge = "challenge";
  scopes = "memory.suggest" ∷ [];
  state = none;
  resource = none;
  csrf_token_hash = "nonce";
  expires_at = 602000;
  decided_at = none;
}

register_client-get_client_example :
    (get_client registered "desk" ≡ some (info_of (register_client rt begin connector 1000)))
    × ((info_of (register_client rt begin connector 1000)).redirect_uris ≡ "desk.app" ∷ [])
    × ((uri : String)
        → In uri (info_of (register_client rt begin connector 1000)).redirect_uris
        → is_allowed_redirect_uri rt uri ≡ true)
    × ((id : String) → id ≢ "desk" → get_client registered id ≡ get_client begin id)
unfolding register_client is_allowed_redirect_uri
register_client-get_client_example =
    register_client-get_client rt begin connector 1000
      (info_of (register_client rt begin connector 1000)) registered refl

one_client : IsDistinct (λ (c : Client). c.id) (client ∷ [])
one_client = newcomer (λ y l. elim l [ ]) nobody

approve-exchange_example :
    (code : String) × (rest : List (String × String)) × ("desk.app"
      ≡ rt.with_params "desk.app" (("code", code) ∷ rest))
    × ((pair : IssuedPair) × (db'' : Db) × (exchange_authorization_code rt granted "desk" code
            (some "desk.app")
            none
            4000
          ≡ (ok pair, db''))
        × (pair.scopes ≡ "memory.suggest" ∷ [])
        × Holds rt db'' access pair.access_token "u1" ("memory.suggest" ∷ [])
        × Holds rt db'' refresh pair.refresh_token "u1" ("memory.suggest" ∷ []))
    × ((state : String) → request.state ≡ some state → state ≢ "" → In ("state", state) rest)
unfolding register_client is_allowed_redirect_uri authorize resolve_requested_scopes approve
    approve_transaction load_pending_request
approve-exchange_example =
    approve-exchange rt asked input 3000 "desk.app" granted request "desk" (some "desk.app") none
      4000 one_client refl refl refl (omega arith) refl refl refl

decide_request_once_example :
    (approve rt granted input 5000 ≡ err already_decided)
    × (deny rt granted input 5000 ≡ err already_decided)
unfolding register_client is_allowed_redirect_uri authorize resolve_requested_scopes approve
    approve_transaction load_pending_request
decide_request_once_example =
    decide_request_once rt asked input 3000 "desk.app" granted input 5000 (inl refl) refl

single : (p : Policy) → In p (policy ∷ []) → no_repeats p.operations ≡ true
single p (here e) = ap (λ (q : Policy). no_repeats q.operations) e
single p (there l) = elim l [ ]

approve-Joins_example :
    (r : AuthorizationRequest) × (c : Client) × (p : Policy) × (find_request asked "r1" ≡ some r)
    × (find_grant_client granted "u1" r.registration_id ≡ some c)
    × (c.trust_level ≡ TrustLevel.approved)
    × (grant_policy granted "u1" c.id ≡ some p)
    × Joins (operations_of (grant_policy asked "u1" c.id)) r.scopes p
unfolding register_client is_allowed_redirect_uri authorize resolve_requested_scopes approve
    approve_transaction load_pending_request
approve-Joins_example = approve-Joins rt asked input 3000 "desk.app" granted single refl

approve_spares_example :
    (c : Client) × In c granted.clients
    × (c.user_id ≡ "u1")
    × WasOwn asked "u1" c
    × SparesClients asked granted c
    × Remain (λ (x : Client). x.id) (λ x. x.user_id) asked.clients granted.clients
    × Remain (λ (x : Policy). x.id) (λ x. x.client_id) asked.policies granted.policies
    × ((q : Policy) → In q (policy ∷ []) → q.client_id ≢ c.id → In q granted.policies)
unfolding register_client is_allowed_redirect_uri authorize resolve_requested_scopes approve
    approve_transaction load_pending_request
approve_spares_example =
    approve_spares rt asked input 3000 "desk.app" granted one_client
      (newcomer (λ y l. elim l [ ]) nobody) refl

allowed :
    (g : Registration)
    → In g begin.registrations
    → all (is_allowed_redirect_uri rt) g.redirect_uris ≡ true
unfolding is_allowed_redirect_uri
allowed g (here e) = ap (λ (x : Registration). all (is_allowed_redirect_uri rt) x.redirect_uris) e
allowed g (there l) = elim l [ ]

begin-IsSound : IsSound rt begin
begin-IsSound = record {
  bounded = omega arith;
  redirects = allowed;
  requests = λ r l. elim l [ ];
  codes = λ c l. elim l [ ];
  tokens = λ t l. elim l [ ];
}

Steps-IsSound_example : IsSound rt granted
unfolding register_client is_allowed_redirect_uri authorize resolve_requested_scopes approve
    approve_transaction load_pending_request
Steps-IsSound_example = Steps-IsSound rt begin granted begin-IsSound (
    next
      (next (next done (registers connector 1000 _ refl))
        (authorizes "desk" params 2000 "consent" refl))
      (approves input 3000 "desk.app" refl))
