-- ===== src/OAuth/Permissions.antt =====
-- apps/api/src/oauth/oauth-permissions.ts, the scopes of packages/shared/src/mcp.ts and
-- `resolveRequestedScopes` of oauth-provider.service.ts: what scopes ask for.
use funes_vault.Common.{
  set_of, opt_is, String, not, ◌&&◌, ◌==◌, Option, none, some, List, [], ◌∷◌, ◌++◌, find, filter,
  all, has, if◌then◌else◌, Result, ok, guard, ◌>>◌,
}
use funes_vault.Vault.Enums.{
  Sensitivity, public, low, internal, sensitive, restricted, secret, Operation, read, suggest,
  same_operation, is_blocked,
}
use funes_vault.Vault.Store.{Client}
use funes_vault.OAuth.Store.{Db, Runtime, Error, invalid_scope, client_blocked}

abbrev pub scope_read : String
scope_read = "memory.read"

abbrev pub scope_suggest : String
scope_suggest = "memory.suggest"

-- `oauthSupportedScopes`
abbrev pub supported_scopes : List String
supported_scopes = scope_read ∷ scope_suggest ∷ []

abbrev nonempty_scopes : List String → Result Error (List String)
nonempty_scopes [] = ok supported_scopes
nonempty_scopes (s ∷ ss) =
    guard (all (has supported_scopes) (s ∷ ss)) invalid_scope >> ok (set_of (s ∷ ss))

-- `resolveRequestedScopes`
unfoldable pub resolve_requested_scopes : Option (List String) → Result Error (List String)
resolve_requested_scopes none = ok supported_scopes
resolve_requested_scopes (some scopes) = nonempty_scopes scopes

-- `scopesToOperations`
abbrev pub scopes_to_operations : List String → List Operation
scopes_to_operations scopes =
    (if has scopes scope_read then read ∷ [] else [])
    ++ (if has scopes scope_suggest then suggest ∷ [] else [])

abbrev pub operation_set : List Operation → List Operation
operation_set [] = []
operation_set (o ∷ os) = o ∷ filter (λ x. not (same_operation x o)) (operation_set os)

-- `resultingOperations`
abbrev pub resulting_operations : List Operation → List String → List Operation
resulting_operations existing scopes = operation_set (existing ++ scopes_to_operations scopes)

-- A value of the enumeration `MemorySensitivity` by its name.
abbrev sensitivity_named : String → Option Sensitivity
sensitivity_named name =
    if name == "PUBLIC"
    then some public
    else if name == "LOW"
    then some low
    else if name == "INTERNAL"
    then some internal
    else if name == "SENSITIVE"
    then some sensitive
    else if name == "RESTRICTED"
    then some restricted
    else if name == "SECRET"
    then some secret
    else none

abbrev configured_or_internal : Option Sensitivity → Sensitivity
configured_or_internal none = internal
configured_or_internal (some s) = s

-- Of a configured name, if there is one.
abbrev pub named_sensitivity : Option String → Option Sensitivity
named_sensitivity none = none
named_sensitivity (some name) = sensitivity_named name

-- `defaultConnectorMaxSensitivity`
abbrev pub default_connector_max_sensitivity : Runtime → Sensitivity
default_connector_max_sensitivity rt =
    configured_or_internal (named_sensitivity rt.connector_max_sensitivity)

-- The client by which a user has granted a registration.
abbrev pub find_grant_client : Db → String → String → Option Client
find_grant_client db user_id registration_id =
    find (λ (c : Client). c.user_id == user_id && opt_is c.oauth_registration_id registration_id)
      db.clients

abbrev pub unless_blocked : Option Client → Result Error (Option Client)
unless_blocked none = ok none
unless_blocked (some c) = guard (not (is_blocked c.trust_level)) client_blocked >> ok (some c)

-- `consentClient`
abbrev pub consent_client : Db → String → String → Result Error (Option Client)
consent_client db user_id registration_id =
    unless_blocked (find_grant_client db user_id registration_id)
