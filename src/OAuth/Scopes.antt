-- ===== src/OAuth/Scopes.antt =====
-- A refresh never gives more than was granted.
use funes_vault.Common.{
  subst, ok_cancel, ℕ, String, ◌≡◌, refl, sym, ap, Bool, true, false, not, nat_eq, eq_iff, Option,
  none, some, List, In, In-filter, find_sound, has, has_iff, length, arith, if◌then◌else◌, ok, err,
}
use funes_vault.OAuth.Store.{
  invalid_target, invalid_scope, invalid_grant, TokenType, refresh, Token, Db, Runtime, Error,
  is_refresh, registration_of,
}
use funes_vault.OAuth.Tokens.{
  IssuedPair, issue_token_pair, Verified, valid, reused, invalid, judged, verify_refresh_token,
  find_token, is_usable_grant, revoke_token_by_id,
}
use funes_vault.OAuth.Usable.{IsUsable, is_usable_grant-IsUsable}
use funes_vault.OAuth.Provider.{
  Exchanged, exchange_verified, exchange_refresh_token, narrowed, requested_scopes, refresh_input,
  is_registered_as, returned, is_served, agrees,
}

-- A test that the call goes on under, and one that it would have failed by.
pub passed :
    (b : Bool) (e : Error) (db : Db) (rest : Exchanged) {pair : IssuedPair} {db' : Db}
    → (if not b then (err e, db) else rest) ≡ (ok pair, db')
    → (b ≡ true) × (rest ≡ (ok pair, db'))
passed true e db rest h = (refl, h)
passed false e db rest h = cc (ap (λ (x : Exchanged). x.0) h)

pub not_refused :
    (b : Bool) (e : Error) (db after : Db) (rest : Exchanged) {pair : IssuedPair} {db' : Db}
    → (if b then (err e, after) else rest) ≡ (ok pair, db')
    → (b ≡ false) × (rest ≡ (ok pair, db'))
not_refused true e db after rest h = cc (ap (λ (x : Exchanged). x.0) h)
not_refused false e db after rest h = (refl, h)

pub nat_eq_sound : (m n : ℕ) → nat_eq m n ≡ true → m ≡ n
nat_eq_sound m n h = ground arith

pub judged-valid :
    (db : Db) (now : ℕ) (o : Option Token) (t : Token)
    → judged db now o ≡ valid t
    → (o ≡ some t) × (is_usable_grant db t now ≡ true)
judged-valid db now none t h = cc h
judged-valid db now (some x) t h = ground arith

-- An exchange that succeeds, for the token that was presented.
pub record IsRefresh (rt : Runtime) (db : Db) (client_id token : String)
    (scopes : Option (List String)) (now : ℕ) (pair : IssuedPair) (db' : Db) (t : Token)
    : Type 0 where
  pub found : find_token rt db token is_refresh ≡ some t
  pub usable : IsUsable db now t
  pub registered : is_registered_as (registration_of db t.registration_id) client_id ≡ true
  pub all_granted :
      length (narrowed (requested_scopes scopes t.scopes) t.scopes)
      ≡ length (requested_scopes scopes t.scopes)
  pub issued :
      returned (
        issue_token_pair rt
          (refresh_input t (narrowed (requested_scopes scopes t.scopes) t.scopes))
          now
          (revoke_token_by_id t.id now db))
      ≡ (ok pair, db')

exchange_verified-IsRefresh :
    (rt : Runtime) (db : Db) (client_id token : String) (scopes : Option (List String))
    (resource : Option String) (now : ℕ) (v : Verified) {pair : IssuedPair} {db' : Db}
    → verify_refresh_token rt db token now ≡ v
    → exchange_verified rt db client_id scopes resource now v ≡ (ok pair, db')
    → (t : Token) × IsRefresh rt db client_id token scopes now pair db' t
unfolding verify_refresh_token
exchange_verified-IsRefresh rt db client_id token scopes resource now invalid e h =
    cc (ap (λ (x : Exchanged). x.0) h)
exchange_verified-IsRefresh rt db client_id token scopes resource now (reused t) e h =
    cc (ap (λ (x : Exchanged). x.0) h)
exchange_verified-IsRefresh rt db client_id token scopes resource now (valid t) e h =
    let (found, live) = judged-valid db now (find_token rt db token is_refresh) t e in
    let requested = requested_scopes scopes t.scopes in
    let kept = narrowed requested t.scopes in
    let (registered, h1) =
      passed (is_registered_as (registration_of db t.registration_id) client_id) invalid_grant db _
        h in
    let (all_granted, h2) =
      passed (nat_eq (length kept) (length requested)) invalid_scope db _ h1 in
    let (served, h3) = passed (is_served rt resource) invalid_target db _ h2 in
    let (agreed, h4) = passed (agrees rt t.resource resource) invalid_target db _ h3 in
    (
      t,
      record {
        found = found;
        usable = is_usable_grant-IsUsable db t now live;
        registered = registered;
        all_granted = nat_eq_sound _ _ all_granted;
        issued = h4;
      },
    )

pub exchange_refresh_token-IsRefresh :
    (rt : Runtime) (db : Db) (client_id token : String) (scopes : Option (List String))
    (resource : Option String) (now : ℕ) {pair : IssuedPair} {db' : Db}
    → exchange_refresh_token rt db client_id token scopes resource now ≡ (ok pair, db')
    → (t : Token) × IsRefresh rt db client_id token scopes now pair db' t
unfolding exchange_refresh_token
exchange_refresh_token-IsRefresh rt db client_id token scopes resource now h =
    exchange_verified-IsRefresh rt db client_id token scopes resource now _ refl h

-- The token that is found for a presented one is a refresh token of its hash.
pub presented_hash :
    (rt : Runtime) (db : Db) (token : String) (t : Token)
    → find_token rt db token is_refresh ≡ some t
    → t.token_hash ≡ rt.hash token
presented_hash rt db token t h =
    let (l, k) = find_sound _ db.tokens t h in ground (arith, eq_iff t.token_hash (rt.hash token))

pub presented_kind :
    (rt : Runtime) (db : Db) (token : String) (t : Token)
    → find_token rt db token is_refresh ≡ some t
    → t.kind ≡ refresh
presented_kind rt db token t h =
    let (l, k) = find_sound _ db.tokens t h in
    let kind : is_refresh t.kind ≡ true = ground arith in kind_of t.kind kind
  where
    kind_of : (k : TokenType) → is_refresh k ≡ true → k ≡ refresh
    kind_of k h = ground arith

-- A refresh that succeeds rests on a listed, usable refresh token of the presented hash, and each scope
-- of the new pair is one of that token's.
pub exchange_refresh_token_narrows :
    (rt : Runtime) (db : Db) (client_id token : String) (scopes : Option (List String))
    (resource : Option String) (now : ℕ) (pair : IssuedPair) (db' : Db)
    → exchange_refresh_token rt db client_id token scopes resource now ≡ (ok pair, db')
    → (t : Token) × In t db.tokens
      × (t.token_hash ≡ rt.hash token)
      × (t.kind ≡ refresh)
      × IsUsable db now t
      × ((s : String) → In s pair.scopes → In s t.scopes)
exchange_refresh_token_narrows rt db client_id token scopes resource now pair db' h =
    let (t, r) = exchange_refresh_token-IsRefresh rt db client_id token scopes resource now h in
    let (l, _) = find_sound _ db.tokens t r.found in
    let kept : narrowed (requested_scopes scopes t.scopes) t.scopes ≡ pair.scopes =
      scopes_of r.issued in
    (
      t,
      l,
      presented_hash rt db token t r.found,
      presented_kind rt db token t r.found,
      r.usable,
      λ s m.
          (has_iff t.scopes s).0
            (In-filter (λ x. has t.scopes x) (requested_scopes scopes t.scopes)
              (subst (λ ss. In s ss) (sym kept) m)).1,
    )
  where
    scopes_of : {p q : IssuedPair} {d e : Db} → returned (p, d) ≡ (ok q, e) → p.scopes ≡ q.scopes
    scopes_of h = ap (λ (x : IssuedPair). x.scopes) (ok_cancel (ap (λ (x : Exchanged). x.0) h))
