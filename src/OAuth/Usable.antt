-- ===== src/OAuth/Usable.antt =====
-- Which access tokens are accepted.
use funes_vault.Common.{
  subst, some_cancel, ℕ, ◌<◌, String, ◌≡◌, refl, true, false, Option, none, some, In, find_sound,
  arith, eq_iff, is_some, Bool-cases, Option-cases, inl, inr,
}
use funes_vault.Vault.Enums.{TrustLevel, is_trusted}
use funes_vault.Vault.Store.{Client}
use funes_vault.OAuth.Store.{
  Registration, RegistrationStatus, Token, access, Db, Runtime, is_approved, is_access,
  registration_of, client_of,
}
use funes_vault.OAuth.Tokens.{
  verify_access_token, find_token, is_usable_grant, is_approved_registration, is_trusted_client,
}

-- A live credential of an approved connector and a trusted client.
pub record IsUsable (db : Db) (now : ℕ) (t : Token) : Type 0 where
  pub live : t.revoked_at ≡ none
  pub in_time : now < t.expires_at
  pub registration : Registration
  pub registered : In registration db.registrations × (registration.id ≡ t.registration_id)
  pub approved : registration.status ≡ RegistrationStatus.approved
  pub client : Client
  pub granted : In client db.clients × (client.id ≡ t.client_id)
  pub trusted : client.trust_level ≡ TrustLevel.approved

registration_sound :
    (db : Db) (id : String)
    → is_approved_registration (registration_of db id) ≡ true
    → (r : Registration) × In r db.registrations
      × (r.id ≡ id)
      × (r.status ≡ RegistrationStatus.approved)
registration_sound db id h = elim (Option-cases (registration_of db id)) [
  | inl e ↦ cc (rw e at h)
  | inr (r, e) ↦
      let (l, t) = find_sound _ db.registrations r e in
      let approved : is_approved r.status ≡ true = rw e at h in
      (r, l, (eq_iff r.id id).0 t, ground arith)
]

client_sound :
    (db : Db) (id : String)
    → is_trusted_client (client_of db id) ≡ true
    → (c : Client) × In c db.clients × (c.id ≡ id) × (c.trust_level ≡ TrustLevel.approved)
client_sound db id h = elim (Option-cases (client_of db id)) [
  | inl e ↦ cc (rw e at h)
  | inr (c, e) ↦
      let (l, t) = find_sound _ db.clients c e in
      let trusted : is_trusted c.trust_level ≡ true = rw e at h in
      (c, l, (eq_iff c.id id).0 t, ground arith)
]

none_of : (o : Option ℕ) → is_some o ≡ false → o ≡ none
none_of none h = refl
none_of (some t) h = cc h

pub is_usable_grant-IsUsable :
    (db : Db) (t : Token) (now : ℕ) → is_usable_grant db t now ≡ true → IsUsable db now t
is_usable_grant-IsUsable db t now h =
    let (r, rl, ri, ra) = registration_sound db t.registration_id (ground arith) in
    let (c, cl, ci, ct) = client_sound db t.client_id (ground arith) in
    record {
      live = none_of t.revoked_at (ground arith);
      in_time = ground arith;
      registration = r;
      registered = (rl, ri);
      approved = ra;
      client = c;
      granted = (cl, ci);
      trusted = ct;
    }

-- An access token that is accepted has the prefix of access tokens and is, by its hash, a listed access
-- token that is neither revoked nor expired, of an approved registration and a trusted client.
pub verify_access_token-IsUsable :
    (rt : Runtime) (db : Db) (token : String) (now : ℕ) (t : Token)
    → verify_access_token rt db token now ≡ some t
    → (rt.has_access_prefix token ≡ true)
      × In t db.tokens
      × (t.token_hash ≡ rt.hash token)
      × (t.kind ≡ access)
      × IsUsable db now t
unfolding verify_access_token
verify_access_token-IsUsable rt db token now t h = elim (Bool-cases (rt.has_access_prefix token)) [
  | inr f ↦ cc (rw f at h)
  | inl p ↦ elim (Option-cases (find_token rt db token is_access)) [
    | inl e ↦ cc (rw (p, e) at h)
    | inr (x, e) ↦ elim (Bool-cases (is_usable_grant db x now)) [
      | inr f ↦ cc (rw (p, e, f) at h)
      | inl u ↦
          let same : x ≡ t = some_cancel (rw (p, e, u) at h) in
          let (l, k) = find_sound _ db.tokens x e in
          subst
            (λ y.
              (rt.has_access_prefix token ≡ true)
              × In y db.tokens
              × (y.token_hash ≡ rt.hash token)
              × (y.kind ≡ access)
              × IsUsable db now y)
            same
            (
              p,
              l,
              ground (arith, eq_iff x.token_hash (rt.hash token)),
              ground arith,
              is_usable_grant-IsUsable db x now u,
            )
    ]
  ]
]
