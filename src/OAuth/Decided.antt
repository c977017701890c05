-- ===== src/OAuth/Decided.antt =====
-- A decision is the last one on its request.
use funes_vault.Common.{
  List, ℕ, String, ◌≡◌, refl, sym, ap, ◌∙◌, subst, true, false, ◌==◌, Option, some, ◌⊎◌, inl, inr,
  Bool-cases, find, find-update_where, is_some, update_where, ok, err, eq_iff, if◌then◌else◌,
}
use funes_vault.OAuth.Store.{
  Registration, AuthorizationRequest, Db, Runtime, already_decided, is_barred, is_pending,
  registration_of,
}
use funes_vault.OAuth.Consent.Requests.{find_request, load_pending_request}
use funes_vault.OAuth.Consent.Grants.{
  DecisionInput, approve, deny, set_decided, set_approved, approve_registration,
}
use funes_vault.OAuth.Effects.{approve-HasGranted}
use funes_vault.OAuth.Decisions.{deny-IsPending}

-- A request that was decided, of a registration that is not blocked.
pub record IsDecided (db : Db) (request_id : String) : Type 0 where
  pub request : AuthorizationRequest
  pub registration : Registration
  pub found : find_request db request_id ≡ some request
  pub registered : registration_of db request.registration_id ≡ some registration
  pub not_barred : is_barred registration.status ≡ false
  pub decided : is_some request.decided_at ≡ true

load_pending_request-IsDecided :
    (rt : Runtime) (db : Db) (request_id : String) (given : Option String) (now : ℕ)
    → IsDecided db request_id
    → load_pending_request rt db request_id given now ≡ err already_decided
unfolding load_pending_request
load_pending_request-IsDecided rt db request_id given now d =
    rw (d.found, d.registered, d.not_barred, d.decided) refl

found_decided :
    (rs : List AuthorizationRequest) (id : String) (now : ℕ) (r : AuthorizationRequest)
    → find (λ (x : AuthorizationRequest). x.id == id) rs ≡ some r
    → find
        (λ (x : AuthorizationRequest). x.id == id)
        (update_where (λ (x : AuthorizationRequest). x.id == r.id) (set_decided now) rs)
      ≡ some (set_decided now r)
found_decided rs id now r h =
    find-update_where _ _ (set_decided now) rs (λ y. refl) h
    ∙ ap (λ b. some (if b then set_decided now r else r)) ((eq_iff r.id r.id).1 refl)

abbrev pub status_after : Registration → Registration
status_after g = if is_pending g.status then set_approved g else g

-- The registration of an approved request.
pub registration_after :
    (db : Db) (id : String) (g : Registration)
    → registration_of db id ≡ some g
    → registration_of (approve_registration g db) id ≡ some (status_after g)
registration_after db id g h = elim (Bool-cases (is_pending g.status)) [
  | inl t ↦ rw t (
      find-update_where _ _ set_approved db.registrations (λ y. refl) h
      ∙ ap (λ b. some (if b then set_approved g else g)) ((eq_iff g.id g.id).1 refl))
  | inr t ↦ rw t h
]

not_barred_after :
    (g : Registration) → is_barred g.status ≡ false → is_barred (status_after g).status ≡ false
not_barred_after g h = elim (Bool-cases (is_pending g.status)) [
  | inl t ↦ rw t refl
  | inr t ↦ rw t h
]

approve-IsDecided :
    (rt : Runtime) (db : Db) (input : DecisionInput) (now : ℕ) {url : String} {db' : Db}
    → approve rt db input now ≡ ok (url, db')
    → IsDecided db' input.request_id
approve-IsDecided rt db input now h =
    let (r, g, c, pending, e) = approve-HasGranted rt db input now h in
    record {
      request = set_decided now r;
      registration = status_after g;
      found =
          ap (find (λ (x : AuthorizationRequest). x.id == input.request_id)) e.requests
          ∙ found_decided db.requests input.request_id now r pending.found;
      registered =
          ap (find (λ (x : Registration). x.id == r.registration_id)) e.registrations
          ∙ registration_after db r.registration_id g pending.registered;
      not_barred = not_barred_after g pending.not_barred;
      decided = refl;
    }

deny-IsDecided :
    (rt : Runtime) (db : Db) (input : DecisionInput) (now : ℕ) {url : String} {db' : Db}
    → deny rt db input now ≡ ok (url, db')
    → IsDecided db' input.request_id
deny-IsDecided rt db input now h =
    let (r, g, pending, written) = deny-IsPending rt db input now h in
    subst (λ y. IsDecided y input.request_id) written
      (record {
        request = set_decided now r;
        registration = g;
        found = found_decided db.requests input.request_id now r pending.found;
        registered = pending.registered;
        not_barred = pending.not_barred;
        decided = refl;
      })

-- A request is decided once: after an approval or a denial of it, to approve it or to deny it, by any
-- user, with any nonce and at any time, fails as already decided.
pub decide_request_once :
    (rt : Runtime) (db : Db) (input : DecisionInput) (now : ℕ) (url : String) (db' : Db)
    (again : DecisionInput) (then_ : ℕ)
    → (approve rt db input now ≡ ok (url, db')) ⊎ (deny rt db input now ≡ ok (url, db'))
    → again.request_id ≡ input.request_id
    → (approve rt db' again then_ ≡ err already_decided)
      × (deny rt db' again then_ ≡ err already_decided)
unfolding approve deny
decide_request_once rt db input now url db' again then_ h same =
    let decided : IsDecided db' input.request_id = elim h [
      | inl a ↦ approve-IsDecided rt db input now a
      | inr d ↦ deny-IsDecided rt db input now d
    ] in
    let refused =
      load_pending_request-IsDecided rt db' again.request_id (some again.nonce) then_
        (subst (IsDecided db') (sym same) decided) in
    (rw refused refl, rw refused refl)
