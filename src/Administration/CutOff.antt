-- ===== src/Administration/CutOff.antt =====
-- What the blocking and the deletion of a client leave of it.
use funes_vault.Common.{
  ℕ, String, ◌≡◌, ◌≢◌, refl, sym, ap, ◌∙◌, subst, true, false, ◌==◌, Option, some, List, inl, inr,
  In, In-update_where, find_sound, eq_iff, is_some, ok, ok_cancel, >>-guard, arith, ◌↔◌, none,
}
use funes_vault.Vault.Enums.{TrustLevel, ActorType, is_blocked}
use funes_vault.Vault.Store.{Client, Policy}
use funes_vault.OAuth.Store.{Code, Token, Event, Db, Runtime}
use funes_vault.OAuth.Revoked.{is_revoked, revoke_tokens_for_client_sound}
use funes_vault.Administration.Frames.{cut_off_keeps}
use funes_vault.Administration.Clients.{
  UpdateClientRequest, ClientResponse, own_client, is_blocking, cut_off_if, write_client,
  update_client, with_client_data, update_detail,
}
use funes_vault.OAuth.Consent.Grants.{owner_event}

own_client_id :
    (db : Db) (user_id id : String) {c : Client} → own_client db user_id id ≡ some c → c.id ≡ id
own_client_id db user_id id {c} h =
    let (l, t) = find_sound _ db.clients c h in (eq_iff c.id id).0 (ground arith)

written_blocked :
    (rt : Runtime) (token : String) (input : UpdateClientRequest) (id : String) (db : Db)
    (c : Client)
    → input.trust_level ≡ some TrustLevel.blocked
    → In c (write_client rt token input id db).clients
    → c.id ≡ id
    → c.trust_level ≡ TrustLevel.blocked
written_blocked rt token input id db c asks l e =
    let (x, k, cases) =
      In-update_where (λ (y : Client). y.id == id) (with_client_data rt token input) db.clients l in
    elim cases [
      | inl (t, q) ↦ ap (λ (y : Client). y.trust_level) q ∙ (rw asks)
      | inr (f, q) ↦ cc ((eq_iff x.id id).1 (ap (λ (y : Client). y.id) (sym q) ∙ e), f)
    ]

-- An owner who blocks a connector cuts it off: afterwards each of its tokens is revoked, and its row is
-- blocked.
pub update_client_cuts_off :
    (rt : Runtime) (db : Db) (token user_id id : String) (input : UpdateClientRequest) (now : ℕ)
    (c : Client) (r : ClientResponse × Option String) (db' : Db)
    → own_client db user_id id ≡ some c
    → is_some c.oauth_registration_id ≡ true
    → is_blocked c.trust_level ≡ false
    → input.trust_level ≡ some TrustLevel.blocked
    → update_client rt db token user_id id input now ≡ ok (r, db')
    → ((t : Token) → In t db'.tokens → t.client_id ≡ id → is_revoked t ≡ true)
      × ((d : Client) → In d db'.clients → d.id ≡ id → d.trust_level ≡ TrustLevel.blocked)
unfolding update_client
update_client_cuts_off rt db token user_id id input now c r db' own connector unblocked asks h =
    let same_id = own_client_id db user_id id own in
    let blocking : is_blocking c input ≡ true = rw (connector, asks, unblocked) refl in
    let written = write_client rt token input c.id db in
    let (free, e) = >>-guard _ _ _ (rw own at h) in
    let left : db'
        ≡ owner_event user_id (some c.id) (update_detail c.id input)
            (cut_off_if true c.id user_id "grant_blocked" now written) =
      sym (ap (λ (x : (ClientResponse × Option String) × Db). x.1) (ok_cancel e))
      ∙ ap
          (λ b.
            owner_event user_id (some c.id) (update_detail c.id input)
              (cut_off_if b c.id user_id "grant_blocked" now written))
          blocking in
    (
      λ t l m.
          revoke_tokens_for_client_sound c.id "grant_blocked" ActorType.user (some user_id) now
            written t (subst (λ (x : Db). In t x.tokens) left l) (m ∙ sym same_id),
      λ d l m.
          written_blocked rt token input c.id db d asks
            (subst (In d)
              (ap (λ (x : Db). x.clients) left
                ∙ ap (λ (x : List Client × (List Policy × List Code)). x.0)
                    (cut_off_keeps true c.id user_id "grant_blocked" now written))
              l)
            (m ∙ sym same_id),
    )

-- Of the clients, the policies, the codes and the tokens, those of a client are gone and the others are
-- as they were; the events are all there, without the client's name.
pub record IsErased (id : String) (db db' : Db) : Type 0 where
  pub clients : (c : Client) → In c db'.clients ↔ (In c db.clients × (c.id ≢ id))
  pub policies : (p : Policy) → In p db'.policies ↔ (In p db.policies × (p.client_id ≢ id))
  pub codes : (k : Code) → In k db'.codes ↔ (In k db.codes × (k.client_id ≢ id))
  pub tokens : (t : Token) → In t db'.tokens ↔ (In t db.tokens × (t.client_id ≢ id))
  pub events : (e : Event) → In e db'.events → e.client_id ≢ some id
  pub others_told : (e : Event) → In e db.events → e.client_id ≢ some id → In e db'.events
  pub own_told :
      (e : Event)
      → In e db.events
      → e.client_id ≡ some id
      → In (record e { client_id = none }) db'.events
