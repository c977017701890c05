-- ===== src/OAuth/Replay.antt =====
-- A credential is spent once, and a second use of it cuts off what was issued on it.
use funes_vault.Common.{
  find-append, find-update_where, ℕ, String, ◌≡◌, refl, sym, ap, ◌∙◌, Bool, true, false, not, ◌&&◌,
  ◌==◌, eq_iff, Option, none, some, List, In, find, find_sound, update_where, is_some,
  if◌then◌else◌, ok, err, subst,
}
use funes_vault.Vault.Enums.{ActorType}
use funes_vault.OAuth.Store.{
  Code, Token, Db, Runtime, invalid_grant, refresh, is_refresh, registration_of,
}
use funes_vault.OAuth.Tokens.{
  IssuedPair, issue_token_pair, judged, verify_refresh_token, find_token, set_revoked,
  revoke_tokens_for_client,
}
use funes_vault.OAuth.Revoked.{is_revoked, revoke_tokens_for_client_sound}
use funes_vault.OAuth.Usable.{IsUsable}
use funes_vault.OAuth.Scopes.{
  presented_hash, presented_kind, IsRefresh, exchange_refresh_token-IsRefresh,
}
use funes_vault.OAuth.Provider.{
  Exchanged, exchange_refresh_token, exchange_verified, find_code, consume_code, code_input,
  is_registered_as, returned,
}

-- The presented refresh token's row after a refresh.
spent_row :
    (rt : Runtime) (db : Db) (client_id token : String) (scopes : Option (List String)) (now : ℕ)
    {pair : IssuedPair} {db' : Db} (t : Token)
    → IsRefresh rt db client_id token scopes now pair db' t
    → find_token rt db' token is_refresh ≡ some (set_revoked now t)
spent_row rt db client_id token scopes now {pair} {db'} t r =
    let p : Token → Bool = λ x. x.token_hash == rt.hash token && is_refresh x.kind in
    let q : Token → Bool = λ x. x.id == t.id && not (is_some x.revoked_at) in
    let hit : q t ≡ true = rw ((eq_iff t.id t.id).1 refl, r.usable.live) refl in
    ap (λ (x : Exchanged). find p x.1.tokens) (sym r.issued)
    ∙ find-append p (update_where q (set_revoked now) db.tokens) _
        (find-update_where p q (set_revoked now) db.tokens (λ y. refl) r.found)
    ∙ ap (λ b. some (if b then set_revoked now t else t)) hit

-- A refresh token works once. A refresh rests on a listed, usable refresh token of the presented hash;
-- after it, to present the token again, by any connector and at any time, fails, and revokes every token
-- of the client of that token.
pub exchange_refresh_token_once :
    (rt : Runtime) (db : Db) (client_id token : String) (scopes : Option (List String))
    (resource : Option String) (now : ℕ) (pair : IssuedPair) (db' : Db) (other : String)
    (scopes' : Option (List String)) (resource' : Option String) (then_ : ℕ)
    → exchange_refresh_token rt db client_id token scopes resource now ≡ (ok pair, db')
    → (t : Token) × In t db.tokens
      × (t.token_hash ≡ rt.hash token)
      × (t.kind ≡ refresh)
      × IsUsable db now t
      × ((exchange_refresh_token rt db' other token scopes' resource' then_).0 ≡ err invalid_grant)
      × ((x : Token)
          → In x (exchange_refresh_token rt db' other token scopes' resource' then_).1.tokens
          → x.client_id ≡ t.client_id
          → is_revoked x ≡ true)
unfolding exchange_refresh_token verify_refresh_token
exchange_refresh_token_once rt db client_id token scopes resource now pair db' other scopes'
      resource' then_ h =
    let (t, r) = exchange_refresh_token-IsRefresh rt db client_id token scopes resource now h in
    let again : exchange_refresh_token rt db' other token scopes' resource' then_ ≡ (
      err invalid_grant,
      revoke_tokens_for_client t.client_id "refresh_token_reuse" ActorType.system none then_ db',
    ) =
      ap (λ o. exchange_verified rt db' other scopes' resource' then_ (judged db' then_ o))
        (spent_row rt db client_id token scopes now t r) in
    (
      t,
      (find_sound _ db.tokens t r.found).0,
      presented_hash rt db token t r.found,
      presented_kind rt db token t r.found,
      r.usable,
      ap (λ (x : Exchanged). x.0) again,
      λ x l e.
          revoke_tokens_for_client_sound t.client_id "refresh_token_reuse" ActorType.system none
            then_ db' x (subst (λ (y : Exchanged). In x y.1.tokens) again l) e,
    )

-- An exchange of a code that succeeds.
record IsExchange (rt : Runtime) (db : Db) (client_id code : String) (now : ℕ) (pair : IssuedPair)
    (db' : Db) (c : Code) : Type 0 where
  found : find_code rt db code ≡ some c
  registered : is_registered_as (registration_of db c.registration_id) client_id ≡ true
  unused : is_some c.consumed_at ≡ false
  issued :
      returned (issue_token_pair rt (code_input c) now (consume_code c.id now db)) ≡ (ok pair, db')

abbrev consumed : ℕ → Code → Code
consumed now c = record c { consumed_at = some now }
