-- ===== src/Administration/Asked.antt =====
-- What the rows that the calls write have to do with what was asked for.
use funes_vault.Common.{
  ℕ, String, ◌≡◌, refl, false, inl, inr, Bool-cases, ◌==◌, Option, none, some, List, In, here,
}
use funes_vault.Vault.Enums.{read}
use funes_vault.Vault.Apps.{voice_client_name}
use funes_vault.Vault.Store.{Client, Policy}
use funes_vault.Administration.{Db, Runtime, CreatePolicyRequest, UpdatePolicyRequest}
use funes_vault.Administration.Permissions.{
  given, given_keys, new_policy, default_request, default_definition, with_update_data,
}
use funes_vault.Administration.Steps.{Sets, SetsKeys, left, set, IsAmended, IsAsked, IsDefault}

Sets-given : {A : Type 0} (o : Option A) (old : A) → Sets old (given o old) o
Sets-given none old = left refl
Sets-given (some new) old = set new refl

SetsKeys-given_keys :
    (o : Option (List String)) (old : List String) → SetsKeys old (given_keys o old) o
SetsKeys-given_keys none old = left refl
SetsKeys-given_keys (some keys) old = set keys refl

pub with_update_data-IsAmended :
    (input : UpdatePolicyRequest) (stamp : String) (p : Policy)
    → IsAmended input p (with_update_data input stamp p)
with_update_data-IsAmended input stamp p = record {
  same = (refl, refl, refl);
  ceiling = Sets-given input.max_sensitivity p.max_sensitivity;
  operations = Sets-given input.operations p.operations;
  confirmation = Sets-given input.requires_confirmation p.requires_confirmation;
  expiry = Sets-given input.expires_at p.expires_at;
  allowed = SetsKeys-given_keys input.allowed_category_keys p.allowed_categories;
  denied = SetsKeys-given_keys input.denied_category_keys p.denied_categories;
}

default_definition_lem :
    (rt : Runtime) (c : Client)
    → ((default_definition rt c).requires_confirmation ≡ false)
      × In read (default_definition rt c).operations
default_definition_lem rt c = elim (Bool-cases (c.name == voice_client_name)) [
  | inl t ↦ rw t (refl, here refl)
  | inr t ↦ rw t (refl, here refl)
]

pub default_request-IsDefault :
    (rt : Runtime) (db : Db) (who app : String) (c : Client) (now : ℕ)
    → IsDefault db.categories app
        (new_policy rt db who (default_request db app (default_definition rt c)) now)
default_request-IsDefault rt db who app c now =
    let (unconfirmed, reads) = default_definition_lem rt c in
    record {
      all_allowed = refl;
      of_app = refl;
      endless = refl;
      none_denied = refl;
      unconfirmed = unconfirmed;
      reads = reads;
    }

pub new_policy-IsAsked :
    (rt : Runtime) (db : Db) (who : String) (input : CreatePolicyRequest) (now : ℕ)
    → IsAsked input (new_policy rt db who input now)
new_policy-IsAsked rt db who input now = record {
  app = refl;
  ceiling = refl;
  operations = refl;
  confirmation = refl;
  expiry = refl;
  allowed = refl;
  denied = refl;
}
