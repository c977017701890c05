-- ===== src/OAuth/Registrations.antt =====
-- apps/api/src/oauth/oauth-clients-store.service.ts: the public registration of connectors. The log
-- line is left out.
use funes_vault.Common.{
  append, not, ltb, ℕ, suc, ◌/◌, String, Bool, false, ◌&&◌, ◌||◌, ◌==◌, Option, none, some, List,
  [], ◌∷◌, ◌++◌, find, filter, all, has, length, if◌then◌else◌, is_some, Result, ok, guard, ◌>>◌,
}
use funes_vault.OAuth.Store.{
  Registration, RegistrationStatus, Db, Runtime, Url, Error, invalid_client_metadata, duplicate_id,
  is_pending, is_barred,
}

-- `OAuthClientInformationFull`, its fields that the code reads or writes.
pub record ClientInformation : Type 0 where
  pub client_id : String
  pub client_id_issued_at : Option ℕ
  pub client_name : Option String
  pub redirect_uris : List String
  pub token_endpoint_auth_method : Option String
  pub grant_types : Option (List String)
  pub response_types : Option (List String)
  pub scope : Option String
  pub client_uri : Option String
  pub logo_uri : Option String
  pub contacts : Option (List String)
  pub software_id : Option String
  pub software_version : Option String

abbrev some_contacts : List String → Option (List String)
some_contacts [] = none
some_contacts (c ∷ cs) = some (c ∷ cs)

-- `toClientInformation`
abbrev pub to_client_information : Registration → ClientInformation
to_client_information r = record {
  client_id = r.client_id;
  client_id_issued_at = some (r.created_at / 1000);
  client_name = some r.name;
  redirect_uris = r.redirect_uris;
  token_endpoint_auth_method = some r.token_endpoint_auth_method;
  grant_types = some r.grant_types;
  response_types = some ("code" ∷ []);
  scope = r.scope;
  client_uri = r.client_uri;
  logo_uri = r.logo_uri;
  contacts = some_contacts r.contacts;
  software_id = none;
  software_version = none;
}

abbrev pub loopback_hosts : List String
loopback_hosts = "localhost" ∷ "127.0.0.1" ∷ "[::1]" ∷ []

abbrev is_allowed_url : Option Url → Bool
is_allowed_url none = false
is_allowed_url (some url) =
    url.protocol == "https:" || url.protocol == "http:" && has loopback_hosts url.hostname

-- `isAllowedRedirectUri`
unfoldable pub is_allowed_redirect_uri : Runtime → String → Bool
is_allowed_redirect_uri rt value = is_allowed_url (rt.parse_url value)

-- `oAuthClientRegistration.findUnique({ where: { clientId } })`
abbrev pub find_registration : Db → String → Option Registration
find_registration db client_id =
    find (λ (r : Registration). r.client_id == client_id) db.registrations

abbrev pub unless_barred : Option Registration → Option ClientInformation
unless_barred none = none
unless_barred (some r) = if is_barred r.status then none else some (to_client_information r)

-- `getClient`
unfoldable pub get_client : Db → String → Option ClientInformation
get_client db client_id = unless_barred (find_registration db client_id)

abbrev pub pending_count : List Registration → ℕ
pending_count rs = length (filter (λ (r : Registration). is_pending r.status) rs)

abbrev trimmed : Runtime → Option String → String
trimmed rt none = ""
trimmed rt (some name) = rt.trim name

abbrev registration_name : Runtime → ClientInformation → String
registration_name rt c =
    let name = trimmed rt c.client_name in
    if name == "" then append "MCP connector " (rt.start_of c.client_id) else name

abbrev or_empty : Option (List String) → List String
or_empty none = []
or_empty (some cs) = cs

abbrev pub new_registration : Runtime → ℕ → ClientInformation → ℕ → Registration
new_registration rt n c now = record {
  id = rt.registration_id n;
  client_id = c.client_id;
  name = registration_name rt c;
  redirect_uris = c.redirect_uris;
  token_endpoint_auth_method = "none";
  grant_types = "authorization_code" ∷ "refresh_token" ∷ [];
  scope = c.scope;
  client_uri = c.client_uri;
  logo_uri = c.logo_uri;
  contacts = or_empty c.contacts;
  software_id = c.software_id;
  software_version = c.software_version;
  created_at = now;
  status = RegistrationStatus.pending;
}

-- `registerClient`. The column `clientId` is unique: to create a second row of an id throws. The count of
-- the pending registrations and the creation are separate statements, between which nothing comes here.
unfoldable pub register_client :
    Runtime → Db → ClientInformation → ℕ → Result Error (ClientInformation × Db)
register_client rt db c now =
    let r = new_registration rt db.rows c now in
    guard (all (is_allowed_redirect_uri rt) c.redirect_uris) invalid_client_metadata
    >> guard (ltb (pending_count db.registrations) rt.max_pending_registrations)
        invalid_client_metadata
    >> guard (not (is_some (find_registration db c.client_id))) duplicate_id
    >> ok (
      to_client_information r,
      record db { registrations = db.registrations ++ r ∷ []; rows = suc db.rows },
    )
