-- ===== src/Administration/Frames.antt =====
-- What the cutoff of a client leaves as it was.
use funes_vault.Common.{
  ℕ, String, ◌≡◌, ◌≢◌, refl, sym, ap, ◌∙◌, subst, ◌↔◌, Bool, true, false, ◌==◌, ◌&&◌, not,
  if◌then◌else◌, List, [], ◌∷◌, inl, inr, Bool-cases, In, In-map, In-filter, In-update_where,
  In-update_where_of, In-append_left, IsDistinct, IsDistinct-unique, has, has_iff, eq_iff, is_some,
  update_where, arith,
}
use funes_vault.Vault.Store.{Client, Policy}
use funes_vault.OAuth.Store.{Code, Token, Event, Db}
use funes_vault.OAuth.Tokens.{
  ids_of, set_revoked, revoke_found, live_tokens, revoke_tokens_for_client,
}
use funes_vault.Administration.Clients.{cut_off_if}

abbrev pub others : Db → List Client × (List Policy × List Code)
others db = (db.clients, (db.policies, db.codes))

revoke_found_keeps :
    (found : List Token) (event : Token → Event) (now : ℕ) (db : Db)
    → others (revoke_found found event now db) ≡ others db
revoke_found_keeps [] event now db = refl
revoke_found_keeps (t ∷ ts) event now db = refl

pub cut_off_keeps :
    (b : Bool) (id user_id reason : String) (now : ℕ) (db : Db)
    → others (cut_off_if b id user_id reason now db) ≡ others db
unfolding revoke_tokens_for_client
cut_off_keeps false id user_id reason now db = refl
cut_off_keeps true id user_id reason now db =
    revoke_found_keeps (live_tokens (λ t. t.client_id == id) db) _ now db

abbrev pub HasUniqueTokens : Db → Type 0
HasUniqueTokens db = IsDistinct (λ (t : Token). t.id) db.tokens

-- The ids of the live tokens of a client are not those of the tokens of another one.
not_listed :
    (id : String) (db : Db) (x : Token)
    → HasUniqueTokens db
    → In x db.tokens
    → x.client_id ≢ id
    → has (ids_of (live_tokens (λ t. t.client_id == id) db)) x.id ≡ false
not_listed id db x unique l other =
    let found = live_tokens (λ t. t.client_id == id) db in
    elim (Bool-cases (has (ids_of found) x.id)) [
      | inr f ↦ f
      | inl t ↦
          let (y, m, e) = In-map (λ (z : Token). z.id) found ((has_iff (ids_of found) x.id).0 t) in
          let (k, test) =
            In-filter (λ (z : Token). z.client_id == id && not (is_some z.revoked_at)) db.tokens
              m in
          let own : y.client_id ≡ id = (eq_iff y.client_id id).0 (ground arith) in
          absurd (
            other (
              ap (λ (z : Token). z.client_id) (IsDistinct-unique (λ (z : Token). z.id) unique l k e)
              ∙ own))
    ]

revoke_found_others :
    (found : List Token) (event : Token → Event) (now : ℕ) (db : Db) (id : String) (t : Token)
    → ((x : Token) → In x db.tokens → x.client_id ≢ id → has (ids_of found) x.id ≡ false)
    → t.client_id ≢ id
    → In t (revoke_found found event now db).tokens ↔ In t db.tokens
revoke_found_others [] event now db id t h other = (λ l. l, λ l. l)
revoke_found_others (y ∷ ys) event now db id t h other =
    let p : Token → Bool = λ x. has (ids_of (y ∷ ys)) x.id in
    (
      λ l.
          let (x, k, cases) = In-update_where p (set_revoked now) db.tokens l in
          elim cases [
            | inl (hit, q) ↦ cc (h x k (λ e. other (ap (λ (z : Token). z.client_id) q ∙ e)), hit)
            | inr (miss, q) ↦ subst (λ z. In z db.tokens) (sym q) k
          ],
      λ l.
          subst
            (λ b.
              In (if b then set_revoked now t else t) (update_where p (set_revoked now) db.tokens))
            (h t l other) (In-update_where_of p (set_revoked now) l),
    )

-- To cut off a client leaves the tokens of the others as they were.
pub cut_off_others :
    (b : Bool) (id user_id reason : String) (now : ℕ) (db : Db) (t : Token)
    → HasUniqueTokens db
    → t.client_id ≢ id
    → In t (cut_off_if b id user_id reason now db).tokens ↔ In t db.tokens
unfolding revoke_tokens_for_client
cut_off_others false id user_id reason now db t unique other = (λ l. l, λ l. l)
cut_off_others true id user_id reason now db t unique other =
    revoke_found_others (live_tokens (λ x. x.client_id == id) db) _ now db id t
      (λ x l. not_listed id db x unique l) other

revoke_found_events :
    (found : List Token) (event : Token → Event) (now : ℕ) (db : Db) (e : Event)
    → In e db.events
    → In e (revoke_found found event now db).events
revoke_found_events [] event now db e l = l
revoke_found_events (t ∷ ts) event now db e l = In-append_left _ l

pub cut_off_events :
    (b : Bool) (id user_id reason : String) (now : ℕ) (db : Db) (e : Event)
    → In e db.events
    → In e (cut_off_if b id user_id reason now db).events
unfolding revoke_tokens_for_client
cut_off_events false id user_id reason now db e l = l
cut_off_events true id user_id reason now db e l =
    revoke_found_events (live_tokens (λ x. x.client_id == id) db) _ now db e l
