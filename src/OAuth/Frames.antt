-- ===== src/OAuth/Frames.antt =====
-- The cases of `ensureGrantClient` and `ensureGrantPolicy`, and what both leave as it was.
use funes_vault.Common.{
  ℕ, String, ◌≡◌, refl, subst, true, false, Option, none, some, List, ◌==◌, ◌||◌, nat_eq, length,
  any, update_where, Result, ok, Bool-cases, Option-cases, inl, inr, ok_cancel, ◌>>=◌,
}
use funes_vault.Vault.Enums.{is_trusted, is_blocked}
use funes_vault.Vault.Store.{Client, Policy}
use funes_vault.OAuth.Store.{Registration, Event, Db, Runtime, Error, client_of}
use funes_vault.OAuth.Scopes.{nat_eq_sound}
use funes_vault.OAuth.Permissions.{find_grant_client, unless_blocked, resulting_operations}
use funes_vault.OAuth.Consent.Requests.{grant_policy}
use funes_vault.OAuth.Consent.Grants.{
  ensure_grant_client, ensured_client, ensure_grant_policy, ensured_policy, set_trusted,
  grant_client, grant_name, has_name, add_client, merge_policy, add_policy, new_policy,
}

abbrev pub trust_client : Client → Db → Db
trust_client c db = record db {
  clients = update_where (λ (x : Client). x.id == c.id) set_trusted db.clients;
}

-- A property of each of the three outcomes is one of every outcome.
module _ (rt : Runtime) (db : Db) (user_id : String) (g : Registration) (P : Client → Db → Type 0)
    (trusted : (c : Client)
      → find_grant_client db user_id g.id ≡ some c
      → is_trusted c.trust_level ≡ true
      → P c db)
    (untrusted : (c : Client)
      → find_grant_client db user_id g.id ≡ some c
      → is_blocked c.trust_level ≡ false
      → P (set_trusted c) (trust_client c db))
    (absent : find_grant_client db user_id g.id ≡ none
      → client_of db (rt.grant_client_id db.rows) ≡ none
      → P
          (grant_client rt db user_id g)
          (add_client user_id (grant_client rt db user_id g) g db)) where
  carried :
      {c d : Client} {db1 db2 : Db}
      → ◌≡◌ {A = Result Error (Client × Db)} (ok (c, db1)) (ok (d, db2))
      → P c db1
      → P d db2
  carried e p = subst (λ (x : Client × Db). P x.0 x.1) (ok_cancel e) p

  ensured_client_cases :
      (o : Option Client) {c : Client} {db1 : Db}
      → find_grant_client db user_id g.id ≡ o
      → (unless_blocked o >>= λ existing. ensured_client rt db user_id g existing) ≡ ok (c, db1)
      → P c db1
  ensured_client_cases none f h = elim (Option-cases (client_of db (rt.grant_client_id db.rows))) [
    | inr (x, e) ↦ cc (rw e at h)
    | inl e ↦ elim (Bool-cases (has_name db user_id (grant_name rt db user_id g))) [
      | inl t ↦ cc (rw (e, t) at h)
      | inr t ↦ carried (rw (e, t) at h) (absent f e)
    ]
  ]
  ensured_client_cases (some c) f h = elim (Bool-cases (is_blocked c.trust_level)) [
    | inl t ↦ cc (rw t at h)
    | inr t ↦ elim (Bool-cases (is_trusted c.trust_level)) [
      | inl u ↦ carried (rw (t, u) at h) (trusted c f u)
      | inr u ↦ carried (rw (t, u) at h) (untrusted c f t)
    ]
  ]

  pub ensure_grant_client_cases :
      {c : Client} {db1 : Db} → ensure_grant_client rt db user_id g ≡ ok (c, db1) → P c db1
  ensure_grant_client_cases h = ensured_client_cases (find_grant_client db user_id g.id) refl h

module _ (rt : Runtime) (user_id : String) (c : Client) (scopes : List String) (now : ℕ) (db : Db)
    (P : Db → Type 0)
    (unchanged : (p : Policy)
      → grant_policy db user_id c.id ≡ some p
      → length (resulting_operations p.operations scopes) ≡ length p.operations
      → P db)
    (merged : (p : Policy)
      → grant_policy db user_id c.id ≡ some p
      → P (merge_policy rt user_id p c (resulting_operations p.operations scopes) now db))
    (absent : grant_policy db user_id c.id ≡ none
      → any (λ (x : Policy). x.client_id == c.id || x.id == rt.policy_id db.rows) db.policies
        ≡ false
      → P (add_policy user_id (new_policy rt db user_id c scopes now) c db)) where
  ensured_policy_cases :
      (o : Option Policy) {db1 : Db}
      → grant_policy db user_id c.id ≡ o
      → ensured_policy rt user_id c scopes now db o ≡ ok db1
      → P db1
  ensured_policy_cases none f h =
      elim (Bool-cases
        (any (λ (x : Policy). x.client_id == c.id || x.id == rt.policy_id db.rows) db.policies)) [
          | inl t ↦ cc (rw t at h)
          | inr t ↦ subst P (ok_cancel (rw t at h)) (absent f t)
        ]
  ensured_policy_cases (some p) f h =
      elim (Bool-cases
        (nat_eq (length (resulting_operations p.operations scopes)) (length p.operations))) [
          | inl t ↦ subst P (ok_cancel (rw t at h)) (unchanged p f (nat_eq_sound _ _ t))
          | inr t ↦ subst P (ok_cancel (rw t at h)) (merged p f)
        ]

  pub ensure_grant_policy_cases :
      {db1 : Db} → ensure_grant_policy rt user_id c scopes now db ≡ ok db1 → P db1
  ensure_grant_policy_cases h = ensured_policy_cases (grant_policy db user_id c.id) refl h

-- Neither the registrations, the requests, the credentials nor the count of rows differ.
pub record Keeps (db db' : Db) : Type 0 where
  pub registrations : db'.registrations ≡ db.registrations
  pub requests : db'.requests ≡ db.requests
  pub codes : db'.codes ≡ db.codes
  pub tokens : db'.tokens ≡ db.tokens
  pub rows : db'.rows ≡ db.rows

pub ensure_grant_client-Keeps :
    (rt : Runtime) (db : Db) (user_id : String) (g : Registration) {c : Client} {db1 : Db}
    → ensure_grant_client rt db user_id g ≡ ok (c, db1)
    → Keeps db db1 × (db1.policies ≡ db.policies)
ensure_grant_client-Keeps rt db user_id g h =
    ensure_grant_client_cases rt db user_id g (λ c db1. Keeps db db1 × (db1.policies ≡ db.policies))
      (λ c f t. (kept, refl)) (λ c f t. (kept, refl)) (λ f e. (kept, refl)) h
  where
    kept : {cs : List Client} {es : List Event} → Keeps db (record db { clients = cs; events = es })
    kept = record {
      registrations = refl;
      requests = refl;
      codes = refl;
      tokens = refl;
      rows = refl;
    }

pub ensure_grant_policy-Keeps :
    (rt : Runtime) (user_id : String) (c : Client) (scopes : List String) (now : ℕ) (db : Db)
    {db1 : Db}
    → ensure_grant_policy rt user_id c scopes now db ≡ ok db1
    → Keeps db db1 × (db1.clients ≡ db.clients)
ensure_grant_policy-Keeps rt user_id c scopes now db h =
    ensure_grant_policy_cases rt user_id c scopes now db
      (λ db1. Keeps db db1 × (db1.clients ≡ db.clients)) (λ p f e. (kept, refl))
      (λ p f. (kept, refl)) (λ f e. (kept, refl)) h
  where
    kept :
        {ps : List Policy} {es : List Event} → Keeps db (record db { policies = ps; events = es })
    kept = record {
      registrations = refl;
      requests = refl;
      codes = refl;
      tokens = refl;
      rows = refl;
    }
