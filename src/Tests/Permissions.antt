-- ===== src/Tests/Permissions.antt =====
-- An owner restores the defaults of a first-party app, and changes and withdraws them.
use funes_vault.Common.{◌≡◌, refl, false, none, some, List, [], ◌∷◌, nobody, Result, ok, err}
use funes_vault.Vault.Enums.{sensitive, read, suggest}
use funes_vault.Vault.Store.{Client}
use funes_vault.Administration.{
  Db, Runtime, Error, already_has_permissions, no_defaults, PolicyResponse, UpdatePolicyRequest,
}
use funes_vault.Administration.Permissions.{
  create_policy, update_policy, delete_policy, restore_defaults, changed_fields,
}
use funes_vault.Administration.Steps.{
  delete, update, restore, done, next, restores, updates, deletes, IsSound, permissions, Changes,
}
use funes_vault.Administration.Refined.{Steps-Changes}
use funes_vault.Tests.Sample.{client}

abbrev rt : Runtime
rt = record { policy_id = λ n. "p1"; iso = λ n. "2024-01-01"; voice_max_sensitivity = some "LOUD" }

abbrev voice : Client
voice = record client { name = "Funes Vault Voice" }

abbrev start : Db
start = record {
  clients = voice ∷ [];
  policies = [];
  categories = "taste" ∷ "work" ∷ [];
  events = [];
  rows = 0;
}

abbrev limits : UpdatePolicyRequest
limits = record {
  allowed_category_keys = some ("taste" ∷ "taste" ∷ []);
  denied_category_keys = none;
  max_sensitivity = none;
  operations = some (read ∷ []);
  requires_confirmation = none;
  expires_at = some none;
}

abbrev after : Result Error (PolicyResponse × Db) → Db
after (ok (r, db)) = db
after (err e) = start

abbrev answer : Result Error (PolicyResponse × Db) → List PolicyResponse
answer (ok (r, db)) = r ∷ []
answer (err e) = []

abbrev restored : Result Error (PolicyResponse × Db)
restored = restore_defaults rt start "u1" "c1" 5

abbrev limited : Result Error (PolicyResponse × Db)
limited = update_policy rt (after restored) "u1" "p1" limits 6

abbrev withdrawn : Result Error (PolicyResponse × Db)
withdrawn = delete_policy (after limited) "u1" "p1"

abbrev default_response : PolicyResponse
default_response = record {
  id = "p1";
  client_id = "c1";
  client_name = some "Funes Vault Voice";
  allowed_category_keys = "taste" ∷ "work" ∷ [];
  denied_category_keys = [];
  max_sensitivity = sensitive;
  operations = read ∷ suggest ∷ [];
  requires_confirmation = false;
  expires_at = none;
  updated_at = "2024-01-01";
}

abbrev limited_response : PolicyResponse
limited_response = record default_response {
  allowed_category_keys = "taste" ∷ [];
  operations = read ∷ [];
}

restore_defaults_ok : restored ≡ ok (default_response, after restored)
unfolding restore_defaults create_policy
restore_defaults_ok = refl

restore_defaults_twice :
    restore_defaults rt (after restored) "u1" "c1" 5 ≡ err already_has_permissions
unfolding restore_defaults create_policy
restore_defaults_twice = refl

restore_defaults_other :
    restore_defaults rt (record start { clients = client ∷ [] }) "u1" "c1" 5 ≡ err no_defaults
unfolding restore_defaults create_policy
restore_defaults_other = refl

limits_fields : changed_fields limits ≡ "allowedCategoryKeys" ∷ "operations" ∷ "expiresAt" ∷ []
limits_fields = refl

update_policy_ok : limited ≡ ok (limited_response, after limited)
unfolding update_policy restore_defaults create_policy
update_policy_ok = refl

delete_policy_ok : withdrawn ≡ ok (limited_response, after withdrawn)
unfolding delete_policy update_policy restore_defaults create_policy
delete_policy_ok = refl

withdrawn_empty : (after withdrawn).policies ≡ []
unfolding delete_policy update_policy restore_defaults create_policy
withdrawn_empty = refl

start-IsSound : IsSound start
start-IsSound = record { ids = nobody; apps = nobody; owned = λ p l. elim l [ ] }

Steps-Changes_example :
    IsSound (after withdrawn)
    × Changes start.categories
        (permissions start)
        (("u1", delete "p1") ∷ ("u1", update "p1" limits) ∷ ("u1", restore "c1") ∷ [])
        (permissions (after withdrawn))
Steps-Changes_example =
    Steps-Changes rt start (after withdrawn)
      (("u1", delete "p1") ∷ ("u1", update "p1" limits) ∷ ("u1", restore "c1") ∷ []) start-IsSound
      (next
        (next (next done (restores "c1" 5 default_response restore_defaults_ok))
          (updates "p1" limits 6 limited_response update_policy_ok))
        (deletes "p1" limited_response delete_policy_ok))
