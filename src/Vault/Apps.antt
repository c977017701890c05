-- ===== src/Vault/Apps.antt =====
-- packages/shared/src/app-permissions.ts: how the applications of a vault are told apart and named.
use funes_vault.Common.{
  String, Bool, true, false, ◌&&◌, ◌==◌, append, if◌then◌else◌, Option, none, some, [], ◌∷◌, has,
}
use funes_vault.Vault.Enums.{ClientType}
use funes_vault.Vault.Store.{Client}

abbrev pub web_chat_client_name : String
web_chat_client_name = "Funes Vault Web Chat"

abbrev pub voice_client_name : String
voice_client_name = "Funes Vault Voice"

abbrev is_web_app : ClientType → Bool
is_web_app ClientType.web_app = true
is_web_app _ = false

-- `isFirstPartyClient`
abbrev pub is_first_party_client : Client → Bool
is_first_party_client c =
    is_web_app c.kind && has (web_chat_client_name ∷ voice_client_name ∷ []) c.name

-- `appPermissionsLabel`
abbrev pub app_permissions_label : Option String → String
app_permissions_label none = "App permissions"
app_permissions_label (some name) =
    if name == "" then "App permissions" else append name " permissions"
