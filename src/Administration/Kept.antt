-- ===== src/Administration/Kept.antt =====
-- What each call does to the table of policies, and that its keys stay unique.
use funes_vault.Common.{
  arith, ℕ, String, ◌≡◌, ◌≢◌, refl, sym, ap, ◌∙◌, Bool, true, false, not, any_complete, ◌==◌, ◌&&◌,
  ◌||◌, Option, some, List, [], ◌∷◌, ◌++◌, inl, inr, Bool-cases, Option-cases, In, In-append,
  In-cons, In-filter, update_where_keeps, find_sound, find, filter, update_where, IsDistinct-append,
  IsDistinct-filter, IsDistinct-update_where, eq_iff, ok, ok_cancel, >>=-eq-ok, >>-eq-ok,
  guard-eq-ok, or_throw-eq-ok,
}
use funes_vault.Vault.Store.{Client, Policy}
use funes_vault.Vault.Apps.{is_first_party_client}
use funes_vault.Administration.{
  FirstPartyDefinition, Db, Runtime, CreatePolicyRequest, UpdatePolicyRequest, PolicyResponse,
  find_client, find_policy,
}
use funes_vault.Administration.Permissions.{
  new_policy, is_taken, create_policy, update_policy, delete_policy, restore_defaults,
  default_request, default_definition, with_update_data,
}
use funes_vault.Administration.Steps.{IsSound}

pub record IsCreated (db db' : Db) (who : String) (p : Policy) : Type 0 where
  pub app : (c : Client) × (find_client db who p.client_id ≡ some c)
  pub owner : p.user_id ≡ who
  pub free : is_taken db p ≡ false
  pub policies : db'.policies ≡ db.policies ++ p ∷ []
  pub clients : db'.clients ≡ db.clients
  pub categories : db'.categories ≡ db.categories

pub record IsUpdated (db db' : Db) (who id : String) (p : Policy) (f : Policy → Policy)
    : Type 0 where
  pub named : p.id ≡ id
  pub listed : In p db.policies
  pub owner : p.user_id ≡ who
  pub policies : db'.policies ≡ update_where (λ (q : Policy). q.id == p.id) f db.policies
  pub clients : db'.clients ≡ db.clients
  pub categories : db'.categories ≡ db.categories

pub record IsDeleted (db db' : Db) (who id : String) (p : Policy) : Type 0 where
  pub named : p.id ≡ id
  pub listed : In p db.policies
  pub owner : p.user_id ≡ who
  pub policies : db'.policies ≡ filter (λ (q : Policy). not (q.id == p.id)) db.policies
  pub clients : db'.clients ≡ db.clients
  pub categories : db'.categories ≡ db.categories

eq_false_of_not : (b : Bool) → not b ≡ true → b ≡ false
eq_false_of_not b h = ground arith

and_sound : (b c : Bool) → (b && c) ≡ true → (b ≡ true) × (c ≡ true)
and_sound true true h = (refl, refl)
and_sound true false h = cc h
and_sound false c h = cc h

or_left : (b c : Bool) → (b || c) ≡ false → b ≡ false
or_left b c h = ground arith

or_right : (b c : Bool) → (b || c) ≡ false → c ≡ false
or_right b c h = ground arith

pub create_policy-IsCreated :
    (rt : Runtime) (db : Db) (who : String) (input : CreatePolicyRequest)
    (default : Option FirstPartyDefinition) (now : ℕ) {r : PolicyResponse} {db' : Db}
    → create_policy rt db who input default now ≡ ok (r, db')
    → IsCreated db db' who (new_policy rt db who input now)
unfolding create_policy
create_policy-IsCreated rt db who input default now h =
    let (c, owned, rest) = >>=-eq-ok _ _ h in
    let (known, rest') = >>-eq-ok _ _ rest in
    let (untaken, last) = >>-eq-ok _ _ rest' in
    let e = ok_cancel last in
    record {
      app = (c, or_throw-eq-ok _ _ owned);
      owner = refl;
      free = eq_false_of_not _ (guard-eq-ok _ _ untaken);
      policies = sym (ap (λ (x : PolicyResponse × Db). x.1.policies) e);
      clients = sym (ap (λ (x : PolicyResponse × Db). x.1.clients) e);
      categories = sym (ap (λ (x : PolicyResponse × Db). x.1.categories) e);
    }

pub restore_defaults-IsCreated :
    (rt : Runtime) (db : Db) (who app : String) (now : ℕ) {r : PolicyResponse} {db' : Db}
    → restore_defaults rt db who app now ≡ ok (r, db')
    → (c : Client) × IsCreated db db' who
        (new_policy rt db who (default_request db app (default_definition rt c)) now)
unfolding restore_defaults
restore_defaults-IsCreated rt db who app now h = elim (Option-cases (find_client db who app)) [
  | inl missing ↦ cc (rw missing at h)
  | inr (c, found) ↦ elim (Bool-cases (is_first_party_client c)) [
    | inr third ↦ cc (rw (found, third) at h)
    | inl first ↦
        let d = default_definition rt c in
        (
          c,
          create_policy-IsCreated rt db who (default_request db app d) (some d) now
              (rw (found, first) at h),
        )
  ]
]

-- What an owner finds is listed, and the owner's.
find_policy_sound :
    (db : Db) (who id : String) {p : Policy}
    → find_policy db who id ≡ some p
    → In p db.policies × (p.user_id ≡ who) × (p.id ≡ id)
find_policy_sound db who id {p} h =
    let (l, t) = find_sound _ db.policies p h in
    let (named, owned) = and_sound _ _ t in
    (l, (eq_iff p.user_id who).0 owned, (eq_iff p.id id).0 named)

pub update_policy-IsUpdated :
    (rt : Runtime) (db : Db) (who id : String) (input : UpdatePolicyRequest) (now : ℕ)
    {r : PolicyResponse} {db' : Db}
    → update_policy rt db who id input now ≡ ok (r, db')
    → (p : Policy) × IsUpdated db db' who id p (with_update_data input (rt.iso now))
unfolding update_policy
update_policy-IsUpdated rt db who id input now h =
    let (p, found, rest) = >>=-eq-ok _ _ h in
    let (known, last) = >>-eq-ok _ _ rest in
    let e = ok_cancel last in
    let (l, o, n) = find_policy_sound db who id (or_throw-eq-ok _ _ found) in
    (
      p,
      record {
        named = n;
        listed = l;
        owner = o;
        policies = sym (ap (λ (x : PolicyResponse × Db). x.1.policies) e);
        clients = sym (ap (λ (x : PolicyResponse × Db). x.1.clients) e);
        categories = sym (ap (λ (x : PolicyResponse × Db). x.1.categories) e);
      },
    )

pub delete_policy-IsDeleted :
    (db : Db) (who id : String) {r : PolicyResponse} {db' : Db}
    → delete_policy db who id ≡ ok (r, db')
    → (p : Policy) × IsDeleted db db' who id p
unfolding delete_policy
delete_policy-IsDeleted db who id h =
    let (p, found, last) = >>=-eq-ok _ _ h in
    let e = ok_cancel last in
    let (l, o, n) = find_policy_sound db who id (or_throw-eq-ok _ _ found) in
    (
      p,
      record {
        named = n;
        listed = l;
        owner = o;
        policies = sym (ap (λ (x : PolicyResponse × Db). x.1.policies) e);
        clients = sym (ap (λ (x : PolicyResponse × Db). x.1.clients) e);
        categories = sym (ap (λ (x : PolicyResponse × Db). x.1.categories) e);
      },
    )

-- A row that violates no unique column differs from every listed one in both.
pub is_free :
    (db : Db) (p q : Policy)
    → is_taken db p ≡ false
    → In q db.policies
    → ((q.id == p.id) ≡ false) × ((q.client_id == p.client_id) ≡ false)
is_free db p q h l = elim (Bool-cases (q.id == p.id || q.client_id == p.client_id)) [
  | inl t ↦
      cc (sym h ∙ any_complete (λ (x : Policy). x.id == p.id || x.client_id == p.client_id) l t)
  | inr f ↦ (or_left _ _ f, or_right _ _ f)
]

different : (s t : String) → (s == t) ≡ false → s ≢ t
different s t h e = cc (sym h ∙ (eq_iff s t).1 e)

-- An owner's app is found where the clients are the same.
abbrev find_in : List Client → String → String → Option Client
find_in cs user_id id = find (λ (c : Client). c.id == id && c.user_id == user_id) cs

pub create-IsSound :
    {db db' : Db} {who : String} {p : Policy} → IsSound db → IsCreated db db' who p → IsSound db'
create-IsSound {db} {db'} {who} {p} s e = record {
  ids =
      rw e.policies
        (IsDistinct-append _ s.ids (λ q l. different q.id p.id (is_free db p q e.free l).0));
  apps = rw e.policies (
      IsDistinct-append _ s.apps
        (λ q l. different q.client_id p.client_id (is_free db p q e.free l).1));
  owned = λ q l.
      let owned_app : (c : Client) × (find_in db.clients q.user_id q.client_id ≡ some c) =
        elim (In-append db.policies (rw e.policies at l)) [
          | inl k ↦ s.owned q k
          | inr k ↦ elim (In-cons k) [ inl same ↦ rw (same, e.owner) e.app | inr n ↦ elim n [ ] ]
        ] in
      rw e.clients owned_app;
}

pub update-IsSound :
    {db db' : Db} {who id : String} {p : Policy} (input : UpdatePolicyRequest) (stamp : String)
    → IsSound db
    → IsUpdated db db' who id p (with_update_data input stamp)
    → IsSound db'
update-IsSound {db} {db'} {who} {p} input stamp s e = record {
  ids = rw e.policies (
      IsDistinct-update_where _ (λ q. q.id == p.id) (with_update_data input stamp) (λ x. refl)
        s.ids);
  apps = rw e.policies (
      IsDistinct-update_where _ (λ q. q.id == p.id) (with_update_data input stamp) (λ x. refl)
        s.apps);
  owned = λ q l.
      let owned_app : (c : Client) × (find_in db.clients q.user_id q.client_id ≡ some c) =
        update_where_keeps (λ x. (c : Client) × (find_in db.clients x.user_id x.client_id ≡ some c))
          _ (with_update_data input stamp) db.policies (λ x h. h) s.owned q (rw e.policies at l) in
      rw e.clients owned_app;
}

pub delete-IsSound :
    {db db' : Db} {who id : String} {p : Policy}
    → IsSound db
    → IsDeleted db db' who id p
    → IsSound db'
delete-IsSound {db} {db'} {who} {p} s e = record {
  ids = rw e.policies (IsDistinct-filter _ _ s.ids);
  apps = rw e.policies (IsDistinct-filter _ _ s.apps);
  owned = λ q l.
      let owned_app : (c : Client) × (find_in db.clients q.user_id q.client_id ≡ some c) =
        s.owned q (In-filter _ db.policies (rw e.policies at l)).0 in
      rw e.clients owned_app;
}
