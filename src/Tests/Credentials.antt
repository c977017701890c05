-- ===== src/Tests/Credentials.antt =====
-- A connector exchanges a code, refreshes its token, and tries each again.
use funes_vault.Common.{
  nat_eq, if◌then◌else◌, String, ◌≡◌, refl, true, none, some, [], ◌∷◌, In, ok, err,
}
use funes_vault.OAuth.Store.{
  Registration, RegistrationStatus, Code, Token, access, refresh, Db, Runtime, invalid_grant,
}
use funes_vault.OAuth.Tokens.{IssuedPair, verify_access_token, verify_refresh_token}
use funes_vault.OAuth.Provider.{Exchanged, exchange_authorization_code, exchange_refresh_token}
use funes_vault.OAuth.Usable.{IsUsable, verify_access_token-IsUsable}
use funes_vault.OAuth.Revoked.{is_revoked}
use funes_vault.OAuth.Scopes.{exchange_refresh_token_narrows}
use funes_vault.OAuth.Replay.{exchange_refresh_token_once}
use funes_vault.Tests.Sample.{client}

-- A hash that tells the sample's credentials apart.
abbrev pub rt : Runtime
rt = record {
  hash = λ s. s;
  access_token = λ n. "access";
  refresh_token = λ n. if nat_eq n 0 then "refresh-0" else "refresh-1";
  access_id = λ n. if nat_eq n 0 then "a0" else "a1";
  refresh_id = λ n. if nat_eq n 0 then "t0" else "t1";
  has_access_prefix = λ s. true;
  normalized = λ s. s;
  served = "mcp";
  access_ttl_seconds = 3600;
  refresh_ttl_seconds = 7200;
  code = λ n. "secret";
  nonce = λ n. "nonce";
  registration_id = λ n. "g2";
  request_id = λ n. "r1";
  code_id = λ n. "k1";
  grant_client_id = λ n. "c2";
  policy_id = λ n. "p2";
  max_pending_registrations = 2;
  connector_max_sensitivity = none;
  iso = λ n. "now";
  parse_url = λ s. some (record { protocol = "https:"; hostname = s });
  host = λ s. s;
  origin = λ s. s;
  with_params = λ s ps. s;
  consent_page = "consent";
  trim = λ s. s;
  start_of = λ s. s;
}

abbrev registration : Registration
registration = record {
  id = "g1";
  client_id = "connector";
  name = "app";
  redirect_uris = "app" ∷ [];
  token_endpoint_auth_method = "none";
  grant_types = [];
  scope = none;
  client_uri = none;
  logo_uri = none;
  contacts = [];
  software_id = none;
  software_version = none;
  created_at = 0;
  status = RegistrationStatus.approved;
}

abbrev code : Code
code = record {
  id = "k1";
  registration_id = "g1";
  user_id = "u1";
  client_id = "c1";
  code_hash = "secret";
  redirect_uri = "app";
  code_challenge = "challenge";
  scopes = "memory.read" ∷ "memory.suggest" ∷ [];
  resource = none;
  expires_at = 5000;
  consumed_at = none;
}

abbrev pub start : Db
start = record {
  registrations = registration ∷ [];
  requests = [];
  clients = client ∷ [];
  policies = [];
  categories = [];
  codes = code ∷ [];
  tokens = [];
  events = [];
  issued = 0;
  rows = 0;
}

abbrev no_pair : IssuedPair
no_pair = record { access_token = ""; refresh_token = ""; expires_in_seconds = 0; scopes = [] }

abbrev pair_of : Exchanged → IssuedPair
pair_of (ok pair, db) = pair
pair_of (err e, db) = no_pair

abbrev first : Exchanged
first = exchange_authorization_code rt start "connector" "secret" (some "app") none 1000

abbrev second : Exchanged
second =
    exchange_refresh_token rt first.1 "connector" "refresh-0" (some ("memory.read" ∷ [])) none 2000

abbrev pub row : Token
row = record {
  id = "a0";
  registration_id = "g1";
  user_id = "u1";
  client_id = "c1";
  kind = access;
  token_hash = "access";
  scopes = "memory.read" ∷ "memory.suggest" ∷ [];
  resource = none;
  source_code_id = some "k1";
  expires_at = 3601000;
  revoked_at = none;
}

verify_access_token-IsUsable_example :
    (true ≡ true)
    × In row first.1.tokens
    × (row.token_hash ≡ rt.hash "access")
    × (row.kind ≡ access)
    × IsUsable first.1 1500 row
unfolding exchange_authorization_code verify_access_token
verify_access_token-IsUsable_example =
    verify_access_token-IsUsable rt first.1 "access" 1500 row refl

exchange_refresh_token_narrows_example :
    (t : Token) × In t first.1.tokens
    × (t.token_hash ≡ rt.hash "refresh-0")
    × (t.kind ≡ refresh)
    × IsUsable first.1 2000 t
    × ((s : String) → In s (pair_of second).scopes → In s t.scopes)
unfolding exchange_authorization_code exchange_refresh_token verify_refresh_token
exchange_refresh_token_narrows_example =
    exchange_refresh_token_narrows rt first.1 "connector" "refresh-0" (some ("memory.read" ∷ []))
      none 2000 (pair_of second) second.1 refl

exchange_refresh_token_once_example :
    (t : Token) × In t first.1.tokens
    × (t.token_hash ≡ rt.hash "refresh-0")
    × (t.kind ≡ refresh)
    × IsUsable first.1 2000 t
    × ((exchange_refresh_token rt second.1 "connector" "refresh-0" none none 3000).0
        ≡ err invalid_grant)
    × ((x : Token)
        → In x (exchange_refresh_token rt second.1 "connector" "refresh-0" none none 3000).1.tokens
        → x.client_id ≡ t.client_id
        → is_revoked x ≡ true)
unfolding exchange_authorization_code exchange_refresh_token verify_refresh_token
exchange_refresh_token_once_example =
    exchange_refresh_token_once rt first.1 "connector" "refresh-0" (some ("memory.read" ∷ [])) none
      2000 (pair_of second) second.1 "connector" none none 3000 refl
