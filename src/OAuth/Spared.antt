-- ===== src/OAuth/Spared.antt =====
-- What an approval does not touch.
use funes_vault.Common.{
  Bool, Bool-cases, inl, inr, refl, some, find_complete, ℕ, String, ◌≡◌, ◌≢◌, sym, ap, ◌∙◌, subst,
  true, false, ◌==◌, List, find_sound, In, In-update_where_of, In-append_left, IsDistinct,
  IsDistinct-unique, ok, eq_iff, eq_false_of_ne, arith, if◌then◌else◌, update_where,
}
use funes_vault.Vault.Enums.{TrustLevel, is_blocked}
use funes_vault.Vault.Store.{Client, Policy}
use funes_vault.OAuth.Store.{Registration, Db, Runtime}
use funes_vault.OAuth.Consent.Grants.{
  DecisionInput, approve, set_trusted, ensure_grant_client, ensure_grant_policy, set_operations,
}
use funes_vault.OAuth.Permissions.{find_grant_client, resulting_operations}
use funes_vault.OAuth.Connection.{HasUniqueClients}
use funes_vault.OAuth.Extended.{ensure_grant_client-Granted}
use funes_vault.OAuth.Effects.{approve-HasGranted}
use funes_vault.OAuth.Frames.{
  ensure_grant_client_cases, ensure_grant_policy_cases, ensure_grant_client-Keeps,
}

abbrev pub HasUniquePolicies : Db → Type 0
HasUniquePolicies db = IsDistinct (λ (p : Policy). p.id) db.policies

-- An update of the entry with one key passes over an entry with another.
In-other :
    {A : Type 0} (key : A → String) (id : String) (f : A → A) {x : A} {xs : List A}
    → key x ≢ id
    → In x xs
    → In x (update_where (λ y. key y == id) f xs)
In-other key id f {x} {xs} other l =
    subst (λ b. In (if b then f x else x) (update_where (λ y. key y == id) f xs))
      (eq_false_of_ne (key x) id other) (In-update_where_of (λ y. key y == id) f l)

-- The clients but the one that is granted, and every blocked client.
abbrev pub SparesClients : Db → Db → Client → Type 0
SparesClients db db' c =
    ((x : Client) → In x db.clients → x.id ≢ c.id → In x db'.clients)
    × ((x : Client) → In x db.clients → is_blocked x.trust_level ≡ true → In x db'.clients)

clients_spared :
    (rt : Runtime) (db : Db) (user_id : String) (g : Registration) {c : Client} {db1 : Db}
    → HasUniqueClients db
    → ensure_grant_client rt db user_id g ≡ ok (c, db1)
    → SparesClients db db1 c
clients_spared rt db user_id g unique h =
    ensure_grant_client_cases rt db user_id g (λ c db1. SparesClients db db1 c)
      (λ c found t. (λ x l _. l, λ x l _. l))
      (λ c found open_. (
        λ x l other. In-other (λ (y : Client). y.id) c.id set_trusted other l,
        λ x l blocked.
            In-other (λ (y : Client). y.id) c.id set_trusted
              (λ e. not_both x.trust_level blocked (
                ap (λ (y : Client). is_blocked y.trust_level)
                  (IsDistinct-unique (λ (y : Client). y.id) unique l
                    (find_sound _ db.clients c found).0 e)
                ∙ open_))
              l,
      ))
      (λ absent fresh. (λ x l _. In-append_left _ l, λ x l _. In-append_left _ l)) h
  where
    not_both : (t : TrustLevel) → is_blocked t ≡ true → is_blocked t ≡ false → ⊥
    not_both t p q = cc

-- A row of the granted client was there for the user, or was not there.
abbrev pub WasOwn : Db → String → Client → Type 0
WasOwn db user_id c = (x : Client) → In x db.clients → x.id ≡ c.id → x.user_id ≡ user_id

own_row :
    (db : Db) (user_id : String) (g : Registration) (c : Client)
    → HasUniqueClients db
    → find_grant_client db user_id g.id ≡ some c
    → WasOwn db user_id c
own_row db user_id g c unique found x l e =
    let (k, t) = find_sound _ db.clients c found in
    let owned : c.user_id ≡ user_id = (eq_iff c.user_id user_id).0 (ground arith) in
    ap (λ (y : Client). y.user_id) (IsDistinct-unique (λ (y : Client). y.id) unique l k e) ∙ owned

clients_own :
    (rt : Runtime) (db : Db) (user_id : String) (g : Registration) {c : Client} {db1 : Db}
    → HasUniqueClients db
    → ensure_grant_client rt db user_id g ≡ ok (c, db1)
    → WasOwn db user_id c
clients_own rt db user_id g unique h =
    ensure_grant_client_cases rt db user_id g (λ c db1. WasOwn db user_id c)
      (λ c found t. own_row db user_id g c unique found)
      (λ c found open_. own_row db user_id g c unique found)
      (λ absent fresh x l e.
        cc (find_complete _ fresh l, (eq_iff x.id (rt.grant_client_id db.rows)).1 e))
      h

-- Each row has a successor with the same keys.
abbrev pub Remain {ℓ} : {A : Type ℓ} → (A → String) → (A → String) → List A → List A → Type ℓ
Remain {A = A} id owner before after =
    (x : A) → In x before → (y : A) × In y after × (id y ≡ id x) × (owner y ≡ owner x)

update_where-Remain :
    {A : Type 0} (id owner : A → String) (p : A → Bool) (f : A → A) (xs : List A)
    → ((x : A) → (id (f x) ≡ id x) × (owner (f x) ≡ owner x))
    → Remain id owner xs (update_where p f xs)
update_where-Remain id owner p f xs keeps x l = elim (Bool-cases (p x)) [
  | inl t ↦ (
    f x,
    subst (λ b. In (if b then f x else x) (update_where p f xs)) t (In-update_where_of p f l),
    (keeps x).0,
    (keeps x).1,
  )
  | inr t ↦ (
    x,
    subst (λ b. In (if b then f x else x) (update_where p f xs)) t (In-update_where_of p f l),
    refl,
    refl,
  )
]

ensure_grant_client-Remain :
    (rt : Runtime) (db : Db) (user_id : String) (g : Registration) {c : Client} {db1 : Db}
    → ensure_grant_client rt db user_id g ≡ ok (c, db1)
    → Remain (λ (x : Client). x.id) (λ x. x.user_id) db.clients db1.clients
ensure_grant_client-Remain rt db user_id g h =
    ensure_grant_client_cases rt db user_id g
      (λ c db1. Remain (λ (x : Client). x.id) (λ x. x.user_id) db.clients db1.clients)
      (λ c found t x l. (x, l, refl, refl))
      (λ c found open_.
        update_where-Remain _ _ (λ (x : Client). x.id == c.id) set_trusted db.clients
          (λ x. (refl, refl)))
      (λ absent fresh x l. (x, In-append_left _ l, refl, refl)) h

ensure_grant_policy-Remain :
    (rt : Runtime) (user_id : String) (c : Client) (scopes : List String) (now : ℕ) (db : Db)
    {db2 : Db}
    → ensure_grant_policy rt user_id c scopes now db ≡ ok db2
    → Remain (λ (x : Policy). x.id) (λ x. x.client_id) db.policies db2.policies
ensure_grant_policy-Remain rt user_id c scopes now db h =
    ensure_grant_policy_cases rt user_id c scopes now db
      (λ db2. Remain (λ (x : Policy). x.id) (λ x. x.client_id) db.policies db2.policies)
      (λ p found same x l. (x, l, refl, refl))
      (λ p found.
        update_where-Remain _ _ (λ (x : Policy). x.id == p.id)
          (set_operations (resulting_operations p.operations scopes) (rt.iso now)) db.policies
          (λ x. (refl, refl)))
      (λ absent fresh x l. (x, In-append_left _ l, refl, refl)) h

policies_spared :
    (rt : Runtime) (user_id : String) (c : Client) (scopes : List String) (now : ℕ) (db : Db)
    {db2 : Db}
    → HasUniquePolicies db
    → ensure_grant_policy rt user_id c scopes now db ≡ ok db2
    → (q : Policy) → In q db.policies
    → q.client_id ≢ c.id
    → In q db2.policies
policies_spared rt user_id c scopes now db unique h =
    ensure_grant_policy_cases rt user_id c scopes now db
      (λ db2. (q : Policy) → In q db.policies → q.client_id ≢ c.id → In q db2.policies)
      (λ p found same q l _. l)
      (λ p found q l other.
        let (pl, t) = find_sound _ db.policies p found in
        let own : p.client_id ≡ c.id = (eq_iff p.client_id c.id).0 (ground arith) in
        In-other (λ (y : Policy). y.id) p.id _
          (λ e. other (
            ap (λ (y : Policy). y.client_id)
              (IsDistinct-unique (λ (y : Policy). y.id) unique l pl e)
            ∙ own))
          l)
      (λ absent fresh q l _. In-append_left _ l) h

-- An approval changes no client but one that is listed afterwards as the user's and, if it was there,
-- was the user's; no blocked client; and no policy of another client. And it removes none: each client is
-- there afterwards, for the same user, and each policy, for the same client.
pub approve_spares :
    (rt : Runtime) (db : Db) (input : DecisionInput) (now : ℕ) (url : String) (db' : Db)
    → HasUniqueClients db
    → HasUniquePolicies db
    → approve rt db input now ≡ ok (url, db')
    → (c : Client) × In c db'.clients
      × (c.user_id ≡ input.user_id)
      × WasOwn db input.user_id c
      × SparesClients db db' c
      × Remain (λ (x : Client). x.id) (λ x. x.user_id) db.clients db'.clients
      × Remain (λ (x : Policy). x.id) (λ x. x.client_id) db.policies db'.policies
      × ((q : Policy) → In q db.policies → q.client_id ≢ c.id → In q db'.policies)
approve_spares rt db input now url db' clients policies h =
    let (r, g, c, pending, e) = approve-HasGranted rt db input now h in
    let (k, same) = ensure_grant_client-Keeps rt db input.user_id g e.client_ensured in
    let granted = ensure_grant_client-Granted rt db input.user_id g e.client_ensured in
    let (listed, owned) = find_sound _ e.db1.clients c granted.0 in
    let spared = clients_spared rt db input.user_id g clients e.client_ensured in
    (
      c,
      subst (In c) (sym e.clients) listed,
      (eq_iff c.user_id input.user_id).0 (ground arith),
      clients_own rt db input.user_id g clients e.client_ensured,
      (
        λ x l o. subst (In x) (sym e.clients) (spared.0 x l o),
        λ x l b. subst (In x) (sym e.clients) (spared.1 x l b),
      ),
      subst (Remain (λ (x : Client). x.id) (λ x. x.user_id) db.clients) (sym e.clients)
          (ensure_grant_client-Remain rt db input.user_id g e.client_ensured),
      subst (λ ps. Remain (λ (x : Policy). x.id) (λ x. x.client_id) ps db'.policies) same
          (subst (Remain (λ (x : Policy). x.id) (λ x. x.client_id) e.db1.policies) (sym e.policies)
            (ensure_grant_policy-Remain rt input.user_id c r.scopes now e.db1 e.policy_ensured)),
      λ q l other. subst (In q) (sym e.policies) (
          policies_spared rt input.user_id c r.scopes now e.db1
            (subst (IsDistinct (λ (p : Policy). p.id)) (sym same) policies) e.policy_ensured q
            (subst (In q) (sym same) l) other),
    )
