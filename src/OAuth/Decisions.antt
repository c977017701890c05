-- ===== src/OAuth/Decisions.antt =====
-- What a decision that succeeds has found and done, and that it is the last one on its request.
use funes_vault.Common.{
  some_cancel, sym, ◌∙◌, ◌≢◌, In, here, ◌∷◌, eq_false_of_ne, false, ◌==◌, >>=-chain, Result-cases,
  guard-eq-ok, >>-eq-ok, Option-cases, subst, ℕ, String, ◌≡◌, ap, Bool, true, not, leb, Option,
  none, some, is_some, ok, guard, ok_cancel, arith, inl, inr,
}
use funes_vault.Vault.Store.{Client}
use funes_vault.OAuth.Store.{
  grant_denied, Registration, AuthorizationRequest, Db, Runtime, grant_approved, is_barred,
  registration_of,
}
use funes_vault.OAuth.Consent.Requests.{
  nonce_matches, open_request, find_request, load_pending_request,
}
use funes_vault.OAuth.Consent.Grants.{
  with_state, DecisionInput, ensure_grant_client, ensure_grant_policy, approve_registration,
  add_code, new_code, owner_event, decide_request, approve_transaction, approve, deny,
}

pub not_sound : (b : Bool) → not b ≡ true → b ≡ false
not_sound b h = ground arith

-- A request that can be decided, with its registration.
pub record IsPending (db : Db) (request_id : String) (now : ℕ) (r : AuthorizationRequest)
    (g : Registration) : Type 0 where
  pub found : find_request db request_id ≡ some r
  pub registered : registration_of db r.registration_id ≡ some g
  pub not_barred : is_barred g.status ≡ false
  pub undecided : is_some r.decided_at ≡ false
  pub in_time : leb r.expires_at now ≡ false

open_request-IsPending :
    (rt : Runtime) (db : Db) (request_id : String) (nonce : Option String) (now : ℕ)
    (r : AuthorizationRequest) (g : Registration) {x : AuthorizationRequest × Registration}
    → find_request db request_id ≡ some r
    → registration_of db r.registration_id ≡ some g
    → open_request rt nonce now r g ≡ ok x
    → IsPending db request_id now r g × ((r, g) ≡ x)
open_request-IsPending rt db request_id nonce now r g found registered h =
    let (h1, e) = >>-eq-ok _ (ok (r, g)) h in
    let (h2, matches) = >>-eq-ok _ (guard (nonce_matches rt nonce r.csrf_token_hash) _) h1 in
    let (h3, in_time) = >>-eq-ok _ (guard (not (leb r.expires_at now)) _) h2 in
    let (not_barred, undecided) = >>-eq-ok _ (guard (not (is_some r.decided_at)) _) h3 in
    (
      record {
        found = found;
        registered = registered;
        not_barred = not_sound _ (guard-eq-ok _ _ not_barred);
        undecided = not_sound _ (guard-eq-ok _ _ undecided);
        in_time = not_sound _ (guard-eq-ok _ _ in_time);
      },
      ok_cancel e,
    )

pub load_pending_request-IsPending :
    (rt : Runtime) (db : Db) (request_id : String) (nonce : Option String) (now : ℕ)
    (r : AuthorizationRequest) (g : Registration)
    → load_pending_request rt db request_id nonce now ≡ ok (r, g)
    → IsPending db request_id now r g
unfolding load_pending_request
load_pending_request-IsPending rt db request_id nonce now r g h =
    elim (Option-cases (find_request db request_id)) [
      | inl e ↦ cc (rw e at h)
      | inr (r0, e) ↦ elim (Option-cases (registration_of db r0.registration_id)) [
        | inl e' ↦ cc (rw (e, e') at h)
        | inr (g0, e') ↦
            let (p, q) =
              open_request-IsPending rt db request_id nonce now r0 g0 e e' (rw (e, e') at h) in
            subst (λ (y : AuthorizationRequest × Registration). IsPending db request_id now y.0 y.1)
              q p
      ]
    ]

-- The tables after an approval, from those after its writes to clients and policies.
pub record IsGranted (rt : Runtime) (db : Db) (user_id : String) (r : AuthorizationRequest)
    (g : Registration) (now : ℕ) (db' : Db) (c : Client) (db1 db2 : Db) : Type 0 where
  pub client_ensured : ensure_grant_client rt db user_id g ≡ ok (c, db1)
  pub policy_ensured : ensure_grant_policy rt user_id c r.scopes now db1 ≡ ok db2
  pub db3 : Db
  pub code_added :
      add_code rt db.rows (new_code rt db.rows user_id c r now) (approve_registration g db2)
      ≡ ok db3
  pub written :
      owner_event user_id
        (some c.id)
        (grant_approved g.client_id g.name r.scopes (rt.host r.redirect_uri))
        (decide_request r.id now db3)
      ≡ db'

approve_transaction-IsGranted :
    (rt : Runtime) (db : Db) (user_id : String) (r : AuthorizationRequest) (g : Registration)
    (now : ℕ) {db' : Db}
    → approve_transaction rt db user_id r g now ≡ ok db'
    → (c : Client) × (db1 : Db) × (db2 : Db) × IsGranted rt db user_id r g now db' c db1 db2
unfolding approve_transaction
approve_transaction-IsGranted rt db user_id r g now h = packed (
    >>=-chain (ensure_grant_client rt db user_id g)
      (λ x. ensure_grant_policy rt user_id x.0 r.scopes now x.1)
      (λ x db2.
        add_code rt db.rows (new_code rt db.rows user_id x.0 r now) (approve_registration g db2))
      (λ x db2 db3.
        owner_event user_id (some x.0.id)
          (grant_approved g.client_id g.name r.scopes (rt.host r.redirect_uri))
          (decide_request r.id now db3))
      h)
  where
    packed :
        {db' : Db}
        → (x : Client × Db) × (db2 : Db) × (db3 : Db) × (ensure_grant_client rt db user_id g ≡ ok x)
          × (ensure_grant_policy rt user_id x.0 r.scopes now x.1 ≡ ok db2)
          × (add_code rt db.rows
                (new_code rt db.rows user_id x.0 r now)
                (approve_registration g db2)
              ≡ ok db3)
          × (owner_event user_id
                (some x.0.id)
                (grant_approved g.client_id g.name r.scopes (rt.host r.redirect_uri))
                (decide_request r.id now db3)
              ≡ db')
        → (c : Client) × (db1 : Db) × (db2 : Db) × IsGranted rt db user_id r g now db' c db1 db2
    packed ((c, db1), db2, db3, e, e', e'', q) = (
      c,
      db1,
      db2,
      record { client_ensured = e; policy_ensured = e'; db3 = db3; code_added = e''; written = q },
    )

-- An approval that succeeds, of a request that could be decided.
pub approve-IsGranted :
    (rt : Runtime) (db : Db) (input : DecisionInput) (now : ℕ) {url : String} {db' : Db}
    → approve rt db input now ≡ ok (url, db')
    → (r : AuthorizationRequest) × (g : Registration) × (c : Client) × (db1 : Db) × (db2 : Db)
      × IsPending db input.request_id now r g
      × IsGranted rt db input.user_id r g now db' c db1 db2
unfolding approve
approve-IsGranted rt db input now h =
    elim (Result-cases (load_pending_request rt db input.request_id (some input.nonce) now)) [
      | inr (x, e) ↦ cc (rw e at h)
      | inl ((r, g), e) ↦ elim (Result-cases (approve_transaction rt db input.user_id r g now)) [
        | inr (x, e') ↦ cc (rw (e, e') at h)
        | inl (after, e') ↦
            let (c, db1, db2, granted) =
              approve_transaction-IsGranted rt db input.user_id r g now e' in
            let same : after ≡ _ = ap (λ (x : String × Db). x.1) (ok_cancel (rw (e, e') at h)) in
            (
              r,
              g,
              c,
              db1,
              db2,
              load_pending_request-IsPending rt db input.request_id _ now r g e,
              subst (λ y. IsGranted rt db input.user_id r g now y c db1 db2) same granted,
            )
      ]
    ]

-- Where an approval redirects to.
pub approve_url :
    (rt : Runtime) (db : Db) (input : DecisionInput) (now : ℕ) (r : AuthorizationRequest)
    {url : String} {db' : Db}
    → approve rt db input now ≡ ok (url, db')
    → find_request db input.request_id ≡ some r
    → url ≡ rt.with_params r.redirect_uri (("code", rt.code db.rows) ∷ with_state r.state)
unfolding approve
approve_url rt db input now r h found =
    elim (Result-cases (load_pending_request rt db input.request_id (some input.nonce) now)) [
      | inr (x, e) ↦ cc (rw e at h)
      | inl ((r0, g), e) ↦ elim (Result-cases (approve_transaction rt db input.user_id r0 g now)) [
        | inr (x, e') ↦ cc (rw (e, e') at h)
        | inl (after, e') ↦
            let pending = load_pending_request-IsPending rt db input.request_id _ now r0 g e in
            sym (ap (λ (x : String × Db). x.0) (ok_cancel (rw (e, e') at h)))
            ∙ ap
                (λ (x : AuthorizationRequest).
                  rt.with_params x.redirect_uri (("code", rt.code db.rows) ∷ with_state x.state))
                (some_cancel (sym pending.found ∙ found))
      ]
    ]

pub with_state_lem :
    (o : Option String) (state : String)
    → o ≡ some state
    → state ≢ ""
    → In ("state", state) (with_state o)
with_state_lem none state h full = cc h
with_state_lem (some s) state h full =
    let same : s ≡ state = some_cancel h in
    let some_state : (s == "") ≡ false = eq_false_of_ne s "" (λ e. full (sym same ∙ e)) in
    rw some_state (here (ap (λ x. ("state", x)) (sym same)))

-- The tables after a denial.
pub deny-IsPending :
    (rt : Runtime) (db : Db) (input : DecisionInput) (now : ℕ) {url : String} {db' : Db}
    → deny rt db input now ≡ ok (url, db')
    → (r : AuthorizationRequest) × (g : Registration) × IsPending db input.request_id now r g
      × (owner_event input.user_id none
            (grant_denied g.client_id g.name r.scopes)
            (decide_request r.id now db)
          ≡ db')
unfolding deny
deny-IsPending rt db input now h =
    elim (Result-cases (load_pending_request rt db input.request_id (some input.nonce) now)) [
      | inr (x, e) ↦ cc (rw e at h)
      | inl ((r, g), e) ↦ (
        r,
        g,
        load_pending_request-IsPending rt db input.request_id _ now r g e,
        ap (λ (x : String × Db). x.1) (ok_cancel (rw e at h)),
      )
    ]
