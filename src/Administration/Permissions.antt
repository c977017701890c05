-- ===== src/Administration/Permissions.antt =====
-- policies.service.ts: the creation, the change and the removal of an app's permissions.
use funes_vault.Common.{
  ℕ, suc, String, Bool, not, any, ◌==◌, ◌||◌, if◌then◌else◌, Option, none, some, List, [], ◌∷◌,
  ◌++◌, length, filter, set_of, update_where, Result, ok, guard, or_throw, ◌>>=◌, ◌>>◌,
}
use funes_vault.Vault.Store.{Client, Policy}
use funes_vault.Vault.Apps.{voice_client_name, is_first_party_client, app_permissions_label}
use funes_vault.Administration.{
  FirstPartyDefinition, PolicyFacts, policy_created, policy_updated, policy_deleted, Db, Runtime,
  Error, app_not_found, no_defaults, already_has_permissions, policy_not_found, CreatePolicyRequest,
  UpdatePolicyRequest, PolicyResponse, find_client, find_policy, assert_exist,
  ensure_client_belongs_to_user, client_name, to_policy_response, audited, web_chat_definition,
  voice_definition, first_party_policy_facts,
}

abbrev pub new_policy : Runtime → Db → String → CreatePolicyRequest → ℕ → Policy
new_policy rt db user_id input now = record {
  id = rt.policy_id db.rows;
  user_id = user_id;
  client_id = input.client_id;
  max_sensitivity = input.max_sensitivity;
  operations = input.operations;
  requires_confirmation = input.requires_confirmation;
  expires_at = input.expires_at;
  allowed_categories = set_of input.allowed_category_keys;
  denied_categories = set_of input.denied_category_keys;
  updated_at = rt.iso now;
}

-- The unique columns of the table: a violation is the error P2002.
abbrev pub is_taken : Db → Policy → Bool
is_taken db p = any (λ (q : Policy). q.id == p.id || q.client_id == p.client_id) db.policies

abbrev pub default_facts : Option FirstPartyDefinition → CreatePolicyRequest → Option PolicyFacts
default_facts none input = none
default_facts (some d) input =
    some (first_party_policy_facts d (length input.allowed_category_keys))

abbrev pub insert_policy : Policy → Db → Db
insert_policy p db = record db { policies = db.policies ++ p ∷ []; rows = suc db.rows }

-- `createPolicy`
unfoldable pub create_policy :
    Runtime
    → Db
    → String
    → CreatePolicyRequest
    → Option FirstPartyDefinition
    → ℕ
    → Result Error (PolicyResponse × Db)
create_policy rt db user_id input first_party_default now =
    let p = new_policy rt db user_id input now in
    let label = app_permissions_label (client_name db p) in
    ensure_client_belongs_to_user db user_id input.client_id >>= λ c.
    assert_exist db (input.allowed_category_keys ++ input.denied_category_keys)
    >> (guard (not (is_taken db p)) already_has_permissions
        >> ok (
          to_policy_response db p,
          audited user_id p (policy_created p.id (default_facts first_party_default input) label)
              (insert_policy p db),
        ))

abbrev pub given {ℓ} : {A : Type ℓ} → Option A → A → A
given none old = old
given (some new) old = new

abbrev pub given_keys : Option (List String) → List String → List String
given_keys none old = old
given_keys (some keys) old = set_of keys

-- `toUpdateData`, written to a row
abbrev pub with_update_data : UpdatePolicyRequest → String → Policy → Policy
with_update_data input stamp p = record p {
  max_sensitivity = given input.max_sensitivity p.max_sensitivity;
  operations = given input.operations p.operations;
  requires_confirmation = given input.requires_confirmation p.requires_confirmation;
  expires_at = given input.expires_at p.expires_at;
  allowed_categories = given_keys input.allowed_category_keys p.allowed_categories;
  denied_categories = given_keys input.denied_category_keys p.denied_categories;
  updated_at = stamp;
}

abbrev key_of {ℓ} : {A : Type ℓ} → Option A → String → List String
key_of none name = []
key_of (some a) name = name ∷ []

-- `Object.keys(input)`, in the order of the schema
abbrev pub changed_fields : UpdatePolicyRequest → List String
changed_fields input =
    key_of input.allowed_category_keys "allowedCategoryKeys"
    ++ (key_of input.denied_category_keys "deniedCategoryKeys"
        ++ (key_of input.max_sensitivity "maxSensitivity"
            ++ (key_of input.operations "operations"
                ++ (key_of input.requires_confirmation "requiresConfirmation"
                    ++ key_of input.expires_at "expiresAt"))))

abbrev or_empty : Option (List String) → List String
or_empty none = []
or_empty (some keys) = keys

abbrev pub write_policy : UpdatePolicyRequest → String → String → Db → Db
write_policy input stamp id db = record db {
  policies = update_where (λ (p : Policy). p.id == id) (with_update_data input stamp) db.policies;
}

-- `updatePolicy`
unfoldable pub update_policy :
    Runtime → Db → String → String → UpdatePolicyRequest → ℕ → Result Error (PolicyResponse × Db)
update_policy rt db user_id id input now =
    or_throw (find_policy db user_id id) policy_not_found >>= λ existing.
    let updated = with_update_data input (rt.iso now) existing in
    let label = app_permissions_label (client_name db updated) in
    assert_exist db (or_empty input.allowed_category_keys ++ or_empty input.denied_category_keys)
    >> ok (
      to_policy_response db updated,
      audited user_id updated (policy_updated updated.id label (changed_fields input))
          (write_policy input (rt.iso now) existing.id db),
    )

abbrev pub remove_policy : String → Db → Db
remove_policy id db = record db { policies = filter (λ (p : Policy). not (p.id == id)) db.policies }

-- `deletePolicy`
unfoldable pub delete_policy : Db → String → String → Result Error (PolicyResponse × Db)
delete_policy db user_id id = or_throw (find_policy db user_id id) policy_not_found >>= λ existing.
    let label = app_permissions_label (client_name db existing) in
    ok (
      to_policy_response db existing,
      audited user_id existing (policy_deleted existing.id label) (remove_policy existing.id db),
    )

abbrev pub default_definition : Runtime → Client → FirstPartyDefinition
default_definition rt c =
    if c.name == voice_client_name then voice_definition rt else web_chat_definition

abbrev pub default_request : Db → String → FirstPartyDefinition → CreatePolicyRequest
default_request db client_id d = record {
  client_id = client_id;
  allowed_category_keys = db.categories;
  denied_category_keys = [];
  max_sensitivity = d.max_sensitivity;
  operations = d.operations;
  requires_confirmation = d.requires_confirmation;
  expires_at = none;
}

-- `restoreDefaults`
unfoldable pub restore_defaults :
    Runtime → Db → String → String → ℕ → Result Error (PolicyResponse × Db)
restore_defaults rt db user_id client_id now =
    or_throw (find_client db user_id client_id) app_not_found >>= λ c.
    guard (is_first_party_client c) no_defaults
    >> create_policy rt db user_id (default_request db client_id (default_definition rt c))
        (some (default_definition rt c)) now
