-- ===== src/OAuth/Connection.antt =====
-- The code that an approval gives is exchanged for tokens of what was approved.
use funes_vault.Common.{
  here, there, In-append_right, List, ◌∷◌, In, ◌≢◌, some_cancel, is_some, ◌*◌, ℕ, ◌+◌, ◌<◌, String,
  ◌≡◌, refl, sym, ap, ◌∙◌, subst, true, false, leb, ◌==◌, Option, none, some, inl, inr, Bool-cases,
  find, find_sound, find-update_where, find-append_new, IsDistinct, IsDistinct-find, ok, eq_iff,
  arith, if◌then◌else◌,
}
use funes_vault.Vault.Store.{Client}
use funes_vault.OAuth.Store.{
  TokenType, access, refresh, Token, Registration, AuthorizationRequest, Code, Db, Runtime,
  is_pending, is_barred, registration_of, client_of,
}
use funes_vault.OAuth.Tokens.{
  IssuedPair, issue_token_pair, is_approved_registration, is_trusted_client,
}
use funes_vault.OAuth.Provider.{
  exchange_authorization_code, exchange_found, find_code, is_registered_as, is_served, agrees,
  same_redirect, check_code, returned, code_input, consume_code,
}
use funes_vault.OAuth.Consent.Requests.{find_request}
use funes_vault.OAuth.Consent.Grants.{
  DecisionInput, approve, set_trusted, ensure_grant_client, new_code, grant_client, with_state,
}
use funes_vault.OAuth.Decided.{registration_after, status_after}
use funes_vault.OAuth.Decisions.{IsPending, approve_url, with_state_lem}
use funes_vault.OAuth.Effects.{code_found, HasGranted, approve-HasGranted}
use funes_vault.OAuth.Frames.{ensure_grant_client_cases}

abbrev pub HasUniqueClients : Db → Type 0
HasUniqueClients db = IsDistinct (λ (c : Client). c.id) db.clients

-- The client that an approval leaves is trusted.
client_trusted :
    (rt : Runtime) (db : Db) (user_id : String) (g : Registration) {c : Client} {db1 : Db}
    → HasUniqueClients db
    → ensure_grant_client rt db user_id g ≡ ok (c, db1)
    → is_trusted_client (client_of db1 c.id) ≡ true
client_trusted rt db user_id g unique h =
    ensure_grant_client_cases rt db user_id g
      (λ c db1. is_trusted_client (client_of db1 c.id) ≡ true)
      (λ c found t.
        ap is_trusted_client
          (IsDistinct-find (λ (c : Client). c.id) unique (find_sound _ db.clients c found).0)
        ∙ t)
      (λ c found u. ap is_trusted_client (
        find-update_where _ _ set_trusted db.clients (λ y. refl)
          (IsDistinct-find (λ (c : Client). c.id) unique (find_sound _ db.clients c found).0)
        ∙ ap (λ b. some (if b then set_trusted c else c)) ((eq_iff c.id c.id).1 refl)))
      (λ absent fresh.
        let c = grant_client rt db user_id g in
        ap is_trusted_client (find-append_new _ db.clients c fresh ((eq_iff c.id c.id).1 refl)))
      h

approved_after :
    (g : Registration)
    → is_barred g.status ≡ false
    → is_approved_registration (some (status_after g)) ≡ true
approved_after g h = ground arith

-- The code that an approval gives.
approved_code :
    (rt : Runtime) (db : Db) (user_id : String) (r : AuthorizationRequest) (g : Registration)
    (now : ℕ) (db' : Db) (c : Client)
    → HasGranted rt db user_id r g now db' c
    → find_code rt db' (rt.code db.rows) ≡ some (new_code rt db.rows user_id c r now)
approved_code rt db user_id r g now db' c e =
    ap (code_found rt (rt.code db.rows)) e.codes
    ∙ find-append_new _ db.codes (new_code rt db.rows user_id c r now) e.fresh
        ((eq_iff (rt.hash (rt.code db.rows)) (rt.hash (rt.code db.rows))).1 refl)

same_client_id :
    (g : Registration) (client_id : String)
    → is_registered_as (some (status_after g)) client_id ≡ is_registered_as (some g) client_id
same_client_id g client_id = elim (Bool-cases (is_pending g.status)) [
  | inl t ↦ rw t refl
  | inr t ↦ rw t refl
]

accepted :
    (rt : Runtime) (db : Db) (c : Code) (redirect resource : Option String) (now : ℕ)
    → now < c.expires_at
    → same_redirect redirect c.redirect_uri ≡ true
    → is_served rt resource ≡ true
    → agrees rt c.resource resource ≡ true
    → is_approved_registration (registration_of db c.registration_id) ≡ true
    → is_trusted_client (client_of db c.client_id) ≡ true
    → check_code rt db c redirect resource now ≡ none
accepted rt db c redirect resource now in_time same_uri served agreed approved trusted =
    let live : leb c.expires_at now ≡ false = ground arith in
    rw (live, same_uri, served, agreed, approved, trusted) refl

exchange_found_ok :
    (rt : Runtime) (db : Db) (client_id : String) (redirect resource : Option String) (now : ℕ)
    (c : Code)
    → is_registered_as (registration_of db c.registration_id) client_id ≡ true
    → is_some c.consumed_at ≡ false
    → check_code rt db c redirect resource now ≡ none
    → exchange_found rt db client_id redirect resource now (some c)
      ≡ returned (issue_token_pair rt (code_input c) now (consume_code c.id now db))
exchange_found_ok rt db client_id redirect resource now c registered unused passes =
    rw (registered, unused, passes) refl

-- A listed token of a user, by its text.
abbrev pub Holds : Runtime → Db → TokenType → String → String → List String → Type 0
Holds rt db kind text user_id scopes =
    (t : Token) × In t db.tokens
    × (t.kind ≡ kind)
    × (t.token_hash ≡ rt.hash text)
    × (t.user_id ≡ user_id)
    × (t.scopes ≡ scopes)

-- The code that an approval gives is worth the request: the approval redirects to the URL of the request
-- with a code, and the state of the request if it has one, as parameters that are set; and within five
-- minutes the registered connector
-- exchanges it for tokens of exactly the scopes of the request, which are listed as the user's, if the redirect and the resource that
-- it names, if any, are those of the request, and the resource is the one that is served.
pub approve-exchange :
    (rt : Runtime) (db : Db) (input : DecisionInput) (now : ℕ) (url : String) (db' : Db)
    (r : AuthorizationRequest) (client_id : String) (redirect resource : Option String) (then_ : ℕ)
    → HasUniqueClients db
    → approve rt db input now ≡ ok (url, db')
    → find_request db input.request_id ≡ some r
    → is_registered_as (registration_of db r.registration_id) client_id ≡ true
    → then_ < now + 5 * 60 * 1000
    → same_redirect redirect r.redirect_uri ≡ true
    → is_served rt resource ≡ true
    → agrees rt r.resource resource ≡ true
    → (code : String) × (rest : List (String × String)) × (url
        ≡ rt.with_params r.redirect_uri (("code", code) ∷ rest))
      × ((pair : IssuedPair) × (db'' : Db) × (exchange_authorization_code rt db' client_id code
              redirect resource then_
            ≡ (ok pair, db''))
          × (pair.scopes ≡ r.scopes)
          × Holds rt db'' access pair.access_token input.user_id r.scopes
          × Holds rt db'' refresh pair.refresh_token input.user_id r.scopes)
      × ((state : String) → r.state ≡ some state → state ≢ "" → In ("state", state) rest)
unfolding exchange_authorization_code
approve-exchange rt db input now url db' r client_id redirect resource then_ unique approved found
      registered in_time same_uri served agreed =
    let (r', g, c, pending', e') = approve-HasGranted rt db input now approved in
    let same : r' ≡ r = some_cancel (sym pending'.found ∙ found) in
    let pending = subst (λ x. IsPending db input.request_id now x g) same pending' in
    let e = subst (λ x. HasGranted rt db input.user_id x g now db' c) same e' in
    let g_after : registration_of db' r.registration_id ≡ some (status_after g) =
      ap (find (λ (x : Registration). x.id == r.registration_id)) e.registrations
      ∙ registration_after db r.registration_id g pending.registered in
    let as_registered : is_registered_as (some g) client_id ≡ true =
      ap (λ o. is_registered_as o client_id) (sym pending.registered) ∙ registered in
    let exchanged =
      exchange_found_ok rt db' client_id redirect resource then_
        (new_code rt db.rows input.user_id c r now)
        (ap (λ o. is_registered_as o client_id) g_after
          ∙ same_client_id g client_id
          ∙ as_registered)
        refl
        (accepted rt db' (new_code rt db.rows input.user_id c r now) redirect resource then_ in_time
          same_uri served agreed
          (ap is_approved_registration g_after ∙ approved_after g pending.not_barred)
          (ap (λ cs. is_trusted_client (find (λ (x : Client). x.id == c.id) cs)) e.clients
            ∙ client_trusted rt db input.user_id g unique e.client_ensured)) in
    (
      rt.code db.rows,
      with_state r.state,
      approve_url rt db input now r approved found,
      (
        _,
        _,
        ap (exchange_found rt db' client_id redirect resource then_)
              (approved_code rt db input.user_id r g now db' c e)
            ∙ exchanged,
        refl,
        (_, In-append_right db'.tokens (here refl), refl, refl, refl, refl),
        (_, In-append_right db'.tokens (there (here refl)), refl, refl, refl, refl),
      ),
      with_state_lem r.state,
    )
