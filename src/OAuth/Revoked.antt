-- ===== src/OAuth/Revoked.antt =====
-- A revocation by a test leaves no live token that passes it.
use funes_vault.Common.{
  subst, ℕ, String, ◌≡◌, refl, sym, ap, ◌∙◌, Bool, true, false, not, ◌&&◌, ◌==◌, eq_iff, Option,
  some, List, [], ◌∷◌, In, In-of_filter, In-of_map, In-update_where, has, has_iff, arith, is_some,
  Bool-cases, inl, inr, opt_is, opt_is_iff,
}
use funes_vault.Vault.Enums.{ActorType}
use funes_vault.OAuth.Store.{Token, Event, Db}
use funes_vault.OAuth.Tokens.{
  set_revoked, ids_of, revoke_ids, revoke_found, live_tokens, revoke_tokens_for_source_code,
  revoke_tokens_for_client,
}

abbrev pub is_revoked : Token → Bool
is_revoked t = is_some t.revoked_at

live_listed :
    (test : Token → Bool) (db : Db) (t : Token)
    → In t db.tokens
    → test t ≡ true
    → is_revoked t ≡ false
    → In t (live_tokens test db)
live_listed test db t l h f =
    In-of_filter (λ (x : Token). test x && not (is_some x.revoked_at)) l (ground arith)

-- Where every live token that passes the test has a listed id, none is live afterwards.
revoke_ids_sound :
    (test : Token → Bool) (ids : List String) (event : Event) (now : ℕ) (db : Db) (t : Token)
    → ((x : Token) → In x (live_tokens test db) → has ids x.id ≡ true)
    → In t (revoke_ids ids event now db).tokens
    → test t ≡ true
    → is_revoked t ≡ true
revoke_ids_sound test ids event now db t covers l h =
    let (x, k, c) = In-update_where (λ (y : Token). has ids y.id) (set_revoked now) db.tokens l in
    elim c [
      | inl p ↦ ap is_revoked p.1
      | inr p ↦ elim (Bool-cases (is_revoked x)) [
        | inl r ↦ ap is_revoked p.1 ∙ r
        | inr f ↦ cc (covers x (live_listed test db x k (ap test (sym p.1) ∙ h) f), p.0)
      ]
    ]

revoke_found_sound :
    (test : Token → Bool) (found : List Token) (event : Token → Event) (now : ℕ) (db : Db)
    (t : Token)
    → live_tokens test db ≡ found
    → In t (revoke_found found event now db).tokens
    → test t ≡ true
    → is_revoked t ≡ true
revoke_found_sound test [] event now db t e l h = elim (Bool-cases (is_revoked t)) [
  | inl r ↦ r
  | inr f ↦ elim (subst (λ ts. In t ts) e (live_listed test db t l h f)) [ ]
]
revoke_found_sound test (x ∷ xs) event now db t e l h =
    revoke_ids_sound test (ids_of (x ∷ xs)) (event x) now db t
      (λ y k.
        (has_iff (ids_of (x ∷ xs)) y.id).1
          (In-of_map (λ (z : Token). z.id) (subst (λ ts. In y ts) e k)))
      l h

pub revoke_tokens_for_source_code_sound :
    (code_id reason : String) (now : ℕ) (db : Db) (t : Token)
    → In t (revoke_tokens_for_source_code code_id reason now db).tokens
    → t.source_code_id ≡ some code_id
    → is_revoked t ≡ true
unfolding revoke_tokens_for_source_code
revoke_tokens_for_source_code_sound code_id reason now db t l h =
    revoke_found_sound (λ x. opt_is x.source_code_id code_id)
      (live_tokens (λ x. opt_is x.source_code_id code_id) db) _ now db t refl l
      ((opt_is_iff t.source_code_id code_id).1 h)

pub revoke_tokens_for_client_sound :
    (client_id reason : String) (actor_type : ActorType) (actor_id : Option String) (now : ℕ)
    (db : Db) (t : Token)
    → In t (revoke_tokens_for_client client_id reason actor_type actor_id now db).tokens
    → t.client_id ≡ client_id
    → is_revoked t ≡ true
unfolding revoke_tokens_for_client
revoke_tokens_for_client_sound client_id reason actor_type actor_id now db t l h =
    revoke_found_sound (λ x. x.client_id == client_id)
      (live_tokens (λ x. x.client_id == client_id) db) _ now db t refl l
      ((eq_iff t.client_id client_id).1 h)
