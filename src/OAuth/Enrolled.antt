-- ===== src/OAuth/Enrolled.antt =====
-- A registration is found again, and the pending ones stay bounded.
use funes_vault.Common.{
  ℕ, String, ◌≡◌, ◌≢◌, refl, sym, ap, ◌∙◌, subst, true, ◌==◌, ltb, none, some, [], ◌∷◌, ◌++◌, inl,
  inr, Bool-cases, Option-cases, In, all, all_sound, find, find-append_new, find-append_old, ok,
  ok_cancel, eq_iff, eq_false_of_ne,
}
use funes_vault.OAuth.Store.{Registration, Db, Runtime}
use funes_vault.OAuth.Registrations.{
  ClientInformation, register_client, get_client, to_client_information, new_registration,
  find_registration, unless_barred, pending_count, is_allowed_redirect_uri,
}

-- A registration that succeeds.
pub record IsEnrolled (rt : Runtime) (db : Db) (c : ClientInformation) (now : ℕ)
    (info : ClientInformation) (db' : Db) : Type 0 where
  pub allowed : all (is_allowed_redirect_uri rt) c.redirect_uris ≡ true
  pub not_full : ltb (pending_count db.registrations) rt.max_pending_registrations ≡ true
  pub unknown : find_registration db c.client_id ≡ none
  pub info_lem : info ≡ to_client_information (new_registration rt db.rows c now)
  pub registrations : db'.registrations ≡ db.registrations ++ new_registration rt db.rows c now ∷ []
  pub requests : db'.requests ≡ db.requests
  pub codes : db'.codes ≡ db.codes
  pub tokens : db'.tokens ≡ db.tokens

pub register_client-IsEnrolled :
    (rt : Runtime) (db : Db) (c : ClientInformation) (now : ℕ) {info : ClientInformation} {db' : Db}
    → register_client rt db c now ≡ ok (info, db')
    → IsEnrolled rt db c now info db'
unfolding register_client
register_client-IsEnrolled rt db c now {info} {db'} h =
    elim (Bool-cases (all (is_allowed_redirect_uri rt) c.redirect_uris)) [
      | inr f ↦ cc (rw f at h)
      | inl t ↦
          elim (Bool-cases (ltb (pending_count db.registrations) rt.max_pending_registrations)) [
            | inr f ↦ cc (rw (t, f) at h)
            | inl u ↦ elim (Option-cases (find_registration db c.client_id)) [
              | inr (x, f) ↦ cc (rw (t, u, f) at h)
              | inl v ↦
                  let e = ok_cancel (rw (t, u, v) at h) in
                  record {
                    allowed = t;
                    not_full = u;
                    unknown = v;
                    info_lem = sym (ap (λ (x : ClientInformation × Db). x.0) e);
                    registrations = sym (ap (λ (x : ClientInformation × Db). x.1.registrations) e);
                    requests = sym (ap (λ (x : ClientInformation × Db). x.1.requests) e);
                    codes = sym (ap (λ (x : ClientInformation × Db). x.1.codes) e);
                    tokens = sym (ap (λ (x : ClientInformation × Db). x.1.tokens) e);
                  }
            ]
          ]
    ]

-- A connector that registers is found under its id as it was told, with the redirect URIs that it gave,
-- each of which is allowed; and no other id finds anything else than before.
pub register_client-get_client :
    (rt : Runtime) (db : Db) (c : ClientInformation) (now : ℕ) (info : ClientInformation) (db' : Db)
    → register_client rt db c now ≡ ok (info, db')
    → (get_client db' c.client_id ≡ some info)
      × (info.redirect_uris ≡ c.redirect_uris)
      × ((uri : String) → In uri info.redirect_uris → is_allowed_redirect_uri rt uri ≡ true)
      × ((id : String) → id ≢ c.client_id → get_client db' id ≡ get_client db id)
unfolding get_client
register_client-get_client rt db c now info db' h =
    let e = register_client-IsEnrolled rt db c now h in
    let r = new_registration rt db.rows c now in
    let found : find_registration db' c.client_id ≡ some r =
      ap (find (λ (x : Registration). x.client_id == c.client_id)) e.registrations
      ∙ find-append_new _ db.registrations r e.unknown ((eq_iff c.client_id c.client_id).1 refl) in
    let uris : info.redirect_uris ≡ c.redirect_uris =
      ap (λ (x : ClientInformation). x.redirect_uris) e.info_lem in
    (
      ap unless_barred found ∙ ap some (sym e.info_lem),
      uris,
      λ uri l. all_sound (is_allowed_redirect_uri rt) e.allowed (subst (In uri) uris l),
      λ id other. ap unless_barred (
          ap (find (λ (x : Registration). x.client_id == id)) e.registrations
          ∙ find-append_old _ db.registrations r
              (eq_false_of_ne c.client_id id (λ q. other (sym q)))),
    )
