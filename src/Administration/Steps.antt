-- ===== src/Administration/Steps.antt =====
-- The calls of the owners on the permissions of their apps, and what the table of policies stands for: a
-- partial map from apps to permissions.
use funes_vault.Common.{
  List, [], ◌∷◌, false, set_of, ℕ, String, ◌≡◌, ◌≢◌, Option, none, some, In, ◌==◌, find, IsDistinct,
  ok,
}
use funes_vault.Vault.Enums.{read}
use funes_vault.Vault.Store.{Client, Policy}
use funes_vault.Administration.{
  FirstPartyDefinition, Db, Runtime, CreatePolicyRequest, UpdatePolicyRequest, PolicyResponse,
  find_client,
}
use funes_vault.Administration.Permissions.{
  create_policy, update_policy, delete_policy, restore_defaults,
}

pub data Call : Type 0 where
  create : CreatePolicyRequest → Call
  update : String → UpdatePolicyRequest → Call
  delete : String → Call
  restore : String → Call

-- A call that succeeds, by the owner who makes it. A call that throws writes nothing.
pub data Step (rt : Runtime) (db db' : Db) (who : String) : Call → Type 0 where
  creates :
      (input : CreatePolicyRequest) (default : Option FirstPartyDefinition) (now : ℕ)
      (r : PolicyResponse)
      → create_policy rt db who input default now ≡ ok (r, db')
      → Step rt db db' who (create input)
  updates :
      (id : String) (input : UpdatePolicyRequest) (now : ℕ) (r : PolicyResponse)
      → update_policy rt db who id input now ≡ ok (r, db')
      → Step rt db db' who (update id input)
  deletes :
      (id : String) (r : PolicyResponse)
      → delete_policy db who id ≡ ok (r, db')
      → Step rt db db' who (delete id)
  restores :
      (app : String) (now : ℕ) (r : PolicyResponse)
      → restore_defaults rt db who app now ≡ ok (r, db')
      → Step rt db db' who (restore app)

-- Calls in a row, the last one first, each with its caller.
pub data Steps (rt : Runtime) (db : Db) : List (String × Call) → Db → Type 0 where
  done : Steps rt db [] db
  next :
      {db' db'' : Db} {who : String} {call : Call} {calls : List (String × Call)}
      → Steps rt db calls db'
      → Step rt db' db'' who call
      → Steps rt db ((who, call) ∷ calls) db''

-- The keys of the table are unique, and each policy is for an app of its own owner.
pub record IsSound (db : Db) : Type 0 where
  pub ids : IsDistinct (λ (p : Policy). p.id) db.policies
  pub apps : IsDistinct (λ (p : Policy). p.client_id) db.policies
  pub owned :
      (p : Policy)
      → In p db.policies
      → (c : Client) × (find_client db p.user_id p.client_id ≡ some c)

-- The permissions of an app.
unfoldable pub permissions : Db → String → Option Policy
permissions db app = find (λ (p : Policy). p.client_id == app) db.policies

-- What a field becomes that may be given.
pub data Sets {A : Type 0} (old new : A) : Option A → Type 0 where
  left : new ≡ old → Sets old new none
  set : (value : A) → new ≡ value → Sets old new (some value)

-- A list of keys, of which repetitions are dropped.
pub data SetsKeys (old new : List String) : Option (List String) → Type 0 where
  left : new ≡ old → SetsKeys old new none
  set : (keys : List String) → new ≡ set_of keys → SetsKeys old new (some keys)

-- The permissions that a request asks for.
pub record IsAsked (input : CreatePolicyRequest) (p : Policy) : Type 0 where
  pub app : p.client_id ≡ input.client_id
  pub ceiling : p.max_sensitivity ≡ input.max_sensitivity
  pub operations : p.operations ≡ input.operations
  pub confirmation : p.requires_confirmation ≡ input.requires_confirmation
  pub expiry : p.expires_at ≡ input.expires_at
  pub allowed : p.allowed_categories ≡ set_of input.allowed_category_keys
  pub denied : p.denied_categories ≡ set_of input.denied_category_keys

-- The permissions `p` as a request amends them.
pub record IsAmended (input : UpdatePolicyRequest) (p q : Policy) : Type 0 where
  pub same : (q.id ≡ p.id) × (q.user_id ≡ p.user_id) × (q.client_id ≡ p.client_id)
  pub ceiling : Sets p.max_sensitivity q.max_sensitivity input.max_sensitivity
  pub operations : Sets p.operations q.operations input.operations
  pub confirmation :
      Sets p.requires_confirmation q.requires_confirmation input.requires_confirmation
  pub expiry : Sets p.expires_at q.expires_at input.expires_at
  pub allowed : SetsKeys p.allowed_categories q.allowed_categories input.allowed_category_keys
  pub denied : SetsKeys p.denied_categories q.denied_categories input.denied_category_keys

-- The defaults of a first-party app: to read, in all categories, without an end or a confirmation.
pub record IsDefault (categories : List String) (app : String) (p : Policy) : Type 0 where
  pub all_allowed : p.allowed_categories ≡ set_of categories
  pub of_app : p.client_id ≡ app
  pub endless : p.expires_at ≡ none
  pub none_denied : p.denied_categories ≡ []
  pub unconfirmed : p.requires_confirmation ≡ false
  pub reads : In read p.operations

-- What a call may grant.
pub data Asks (categories : List String) : Call → Policy → Type 0 where
  by_request :
      {input : CreatePolicyRequest} {p : Policy}
      → IsAsked input p
      → Asks categories (create input) p
  by_default :
      {app : String} {p : Policy} → IsDefault categories app p → Asks categories (restore app) p

-- The abstract state: which app has which permissions. No app but one is touched.
pub record Untouched (app : String) (before after : String → Option Policy) : Type 0 where
  pub others : (other : String) → other ≢ app → after other ≡ before other

-- A creation and a restoration grant permissions to an app that has none; an update amends those of its
-- id; a deletion withdraws those of its id.
pub data Change (categories : List String) (who : String) (before after : String → Option Policy)
    : Call → Type 0 where
  grants :
      {call : Call} (p : Policy)
      → Asks categories call p
      → p.user_id ≡ who
      → before p.client_id ≡ none
      → after p.client_id ≡ some p
      → Untouched p.client_id before after
      → Change categories who before after call
  amends :
      {input : UpdatePolicyRequest} (p q : Policy)
      → IsAmended input p q
      → p.user_id ≡ who
      → before p.client_id ≡ some p
      → after p.client_id ≡ some q
      → Untouched p.client_id before after
      → Change categories who before after (update p.id input)
  withdraws :
      (p : Policy)
      → p.user_id ≡ who
      → before p.client_id ≡ some p
      → after p.client_id ≡ none
      → Untouched p.client_id before after
      → Change categories who before after (delete p.id)

pub data Changes (categories : List String) (before : String → Option Policy)
    : List (String × Call) → (String → Option Policy) → Type 0 where
  unchanged : Changes categories before [] before
  further :
      {middle after : String → Option Policy} (who : String) {call : Call}
      {calls : List (String × Call)}
      → Changes categories before calls middle
      → Change categories who middle after call
      → Changes categories before ((who, call) ∷ calls) after
