-- ===== src/OAuth/Effects.antt =====
-- The tables after an approval, each from the tables before it.
use funes_vault.Common.{
  ℕ, String, ◌≡◌, refl, sym, ap, ◌∙◌, ◌==◌, Option, none, List, [], ◌∷◌, ◌++◌, inl, inr, Bool-cases,
  Option-cases, find, update_where, ok, ok_cancel,
}
use funes_vault.Vault.Store.{Client}
use funes_vault.OAuth.Store.{Registration, AuthorizationRequest, Code, Db, Runtime, is_pending}
use funes_vault.OAuth.Provider.{find_code}
use funes_vault.OAuth.Consent.Grants.{
  DecisionInput, approve, set_decided, approve_registration, new_code, add_code,
  ensure_grant_client, ensure_grant_policy,
}
use funes_vault.OAuth.Decisions.{IsPending, IsGranted, approve-IsGranted}
use funes_vault.OAuth.Frames.{ensure_grant_client-Keeps, ensure_grant_policy-Keeps}

abbrev pub code_found : Runtime → String → List Code → Option Code
code_found rt code codes = find (λ (c : Code). c.code_hash == rt.hash code) codes

pub record HasGranted (rt : Runtime) (db : Db) (user_id : String) (r : AuthorizationRequest)
    (g : Registration) (now : ℕ) (db' : Db) (c : Client) : Type 0 where
  pub db1 : Db
  pub db2 : Db
  pub client_ensured : ensure_grant_client rt db user_id g ≡ ok (c, db1)
  pub policy_ensured : ensure_grant_policy rt user_id c r.scopes now db1 ≡ ok db2
  pub registrations : db'.registrations ≡ (approve_registration g db).registrations
  pub requests :
      db'.requests
      ≡ update_where (λ (x : AuthorizationRequest). x.id == r.id) (set_decided now) db.requests
  pub codes : db'.codes ≡ db.codes ++ new_code rt db.rows user_id c r now ∷ []
  pub fresh : code_found rt (rt.code db.rows) db.codes ≡ none
  pub tokens : db'.tokens ≡ db.tokens
  pub clients : db'.clients ≡ db1.clients
  pub policies : db'.policies ≡ db2.policies

-- What the status of a registration has no part in.
record SameRest (db db' : Db) : Type 0 where
  requests : db'.requests ≡ db.requests
  codes : db'.codes ≡ db.codes
  tokens : db'.tokens ≡ db.tokens
  clients : db'.clients ≡ db.clients
  policies : db'.policies ≡ db.policies

approve_registration-SameRest :
    (g : Registration) (db : Db) → SameRest db (approve_registration g db)
approve_registration-SameRest g db = elim (Bool-cases (is_pending g.status)) [
  | inl t ↦ rw t same
  | inr t ↦ rw t same
]
  where
    same : {rs : List Registration} → SameRest db (record db { registrations = rs })
    same = record { requests = refl; codes = refl; tokens = refl; clients = refl; policies = refl }

approve_registration_cong :
    (g : Registration) (db db' : Db)
    → db'.registrations ≡ db.registrations
    → (approve_registration g db').registrations ≡ (approve_registration g db).registrations
approve_registration_cong g db db' e = elim (Bool-cases (is_pending g.status)) [
  | inl t ↦ rw (t, e) refl
  | inr t ↦ rw t e
]

add_code_effect :
    (rt : Runtime) (n : ℕ) (c : Code) (db : Db) {db' : Db}
    → add_code rt n c db ≡ ok db'
    → (code_found rt (rt.code n) db.codes ≡ none) × (record db { codes = db.codes ++ c ∷ [] } ≡ db')
add_code_effect rt n c db h = elim (Option-cases (find_code rt db (rt.code n))) [
  | inr (x, e) ↦ cc (rw e at h)
  | inl e ↦ (e, ok_cancel (rw e at h))
]

IsGranted-HasGranted :
    (rt : Runtime) (db : Db) (user_id : String) (r : AuthorizationRequest) (g : Registration)
    (now : ℕ) (db' : Db) (c : Client) (db1 db2 : Db)
    → IsGranted rt db user_id r g now db' c db1 db2
    → HasGranted rt db user_id r g now db' c
IsGranted-HasGranted rt db user_id r g now db' c db1 db2 h =
    let (k1, same_policies) = ensure_grant_client-Keeps rt db user_id g h.client_ensured in
    let (k2, same_clients) =
      ensure_grant_policy-Keeps rt user_id c r.scopes now db1 h.policy_ensured in
    let s = approve_registration-SameRest g db2 in
    let (fresh, added) =
      add_code_effect rt db.rows (new_code rt db.rows user_id c r now) (approve_registration g db2)
        h.code_added in
    let same_codes : (approve_registration g db2).codes ≡ db.codes =
      s.codes ∙ k2.codes ∙ k1.codes in
    record {
      db1 = db1;
      db2 = db2;
      client_ensured = h.client_ensured;
      policy_ensured = h.policy_ensured;
      registrations =
          sym (ap (λ (x : Db). x.registrations) h.written)
          ∙ sym (ap (λ (x : Db). x.registrations) added)
          ∙ approve_registration_cong g db db2 (k2.registrations ∙ k1.registrations);
      requests =
          sym (ap (λ (x : Db). x.requests) h.written)
          ∙ ap (update_where (λ (x : AuthorizationRequest). x.id == r.id) (set_decided now))
              (sym (ap (λ (x : Db). x.requests) added) ∙ s.requests ∙ k2.requests ∙ k1.requests);
      codes =
          sym (ap (λ (x : Db). x.codes) h.written)
          ∙ sym (ap (λ (x : Db). x.codes) added)
          ∙ ap (λ cs. cs ++ new_code rt db.rows user_id c r now ∷ []) same_codes;
      fresh = ap (code_found rt (rt.code db.rows)) (sym same_codes) ∙ fresh;
      tokens =
          sym (ap (λ (x : Db). x.tokens) h.written)
          ∙ sym (ap (λ (x : Db). x.tokens) added)
          ∙ s.tokens
          ∙ k2.tokens
          ∙ k1.tokens;
      clients =
          sym (ap (λ (x : Db). x.clients) h.written)
          ∙ sym (ap (λ (x : Db). x.clients) added)
          ∙ s.clients
          ∙ same_clients;
      policies =
          sym (ap (λ (x : Db). x.policies) h.written)
          ∙ sym (ap (λ (x : Db). x.policies) added)
          ∙ s.policies;
    }

-- An approval that succeeds decides a request that could be decided.
pub approve-HasGranted :
    (rt : Runtime) (db : Db) (input : DecisionInput) (now : ℕ) {url : String} {db' : Db}
    → approve rt db input now ≡ ok (url, db')
    → (r : AuthorizationRequest) × (g : Registration) × (c : Client) × IsPending db input.request_id
        now r g
      × HasGranted rt db input.user_id r g now db' c
approve-HasGranted rt db input now {url} {db'} h =
    let (r, g, c, db1, db2, pending, granted) = approve-IsGranted rt db input now h in
    (r, g, c, pending, IsGranted-HasGranted rt db input.user_id r g now db' c db1 db2 granted)
