-- ===== src/OAuth/Sound/Decisions.antt =====
-- A registration, an approval and a denial keep the tables sound.
use funes_vault.Common.{
  set_of, ℕ, suc, ◌≤◌, String, ◌≡◌, refl, sym, ap, ◌∙◌, subst, Bool, true, not, ◌==◌, Option, none,
  some, List, [], ◌∷◌, ◌++◌, inl, inr, Bool-cases, In, here, there, In-append, In-cons,
  update_where_keeps, In-filter, all, all_sound, has, find_sound, update_where, ok, ok_cancel,
  arith, >>-eq-ok, guard-eq-ok, guard,
}
use funes_vault.OAuth.Store.{Registration, AuthorizationRequest, Code, Db, Runtime, is_pending}
use funes_vault.OAuth.Registrations.{
  ClientInformation, register_client, new_registration, pending_count, is_allowed_redirect_uri,
}
use funes_vault.OAuth.Permissions.{supported_scopes, resolve_requested_scopes}
use funes_vault.OAuth.Enrolled.{register_client-IsEnrolled}
use funes_vault.OAuth.Consent.Grants.{
  DecisionInput, approve, deny, approve_registration, set_approved, set_decided,
}
use funes_vault.OAuth.Decisions.{deny-IsPending}
use funes_vault.OAuth.Effects.{approve-HasGranted}
use funes_vault.OAuth.Steps.{IsSound, IsSupported}

-- Every scope of a list is supported, by membership.
all_complete :
    (p : String → Bool) (xs : List String) → ((x : String) → In x xs → p x ≡ true) → all p xs ≡ true
all_complete p [] h = refl
all_complete p (x ∷ xs) h =
    ground (arith, h x (here refl), all_complete p xs (λ y l. h y (there l)))

pub IsSupported-of_subset :
    (xs ys : List String) → ((s : String) → In s ys → In s xs) → IsSupported xs → IsSupported ys
IsSupported-of_subset xs ys sub h =
    all_complete _ ys (λ s l. all_sound (has supported_scopes) h (sub s l))

In-set_of : (xs : List String) {s : String} → In s (set_of xs) → In s xs
In-set_of [] l = elim l [ ]
In-set_of (x ∷ xs) (here e) = here e
In-set_of (x ∷ xs) (there l) = there (In-set_of xs (In-filter (λ y. not (y == x)) (set_of xs) l).0)

pub resolve_requested_scopes-IsSupported :
    (o : Option (List String)) {scopes : List String}
    → resolve_requested_scopes o ≡ ok scopes
    → IsSupported scopes
unfolding resolve_requested_scopes
resolve_requested_scopes-IsSupported none h = subst IsSupported (ok_cancel h) refl
resolve_requested_scopes-IsSupported (some []) h = subst IsSupported (ok_cancel h) refl
resolve_requested_scopes-IsSupported (some (s ∷ ss)) h =
    let (g, e) = >>-eq-ok (guard (all (has supported_scopes) (s ∷ ss)) _) _ h in
    subst IsSupported (ok_cancel e) (
      IsSupported-of_subset (s ∷ ss) (set_of (s ∷ ss)) (λ x l. In-set_of (s ∷ ss) l)
        (guard-eq-ok _ _ g))

-- The registrations after a new one, and after one was approved.
pending_count-append :
    (gs : List Registration) (g : Registration)
    → pending_count (gs ++ g ∷ []) ≤ suc (pending_count gs)
pending_count-append [] g = ground arith
pending_count-append (x ∷ gs) g = ground (arith, pending_count-append gs g)

pending_count-approved :
    (q : Registration → Bool) (gs : List Registration)
    → pending_count (update_where q set_approved gs) ≤ pending_count gs
pending_count-approved q [] = omega arith
pending_count-approved q (x ∷ gs) = elim (Bool-cases (q x)) [
  | inl t ↦ rw t (ground (arith, pending_count-approved q gs))
  | inr t ↦ rw t (ground (arith, pending_count-approved q gs))
]

module _ (rt : Runtime) where
  pub register_client-IsSound :
      (db : Db) (c : ClientInformation) (now : ℕ) {info : ClientInformation} {db' : Db}
      → IsSound rt db
      → register_client rt db c now ≡ ok (info, db')
      → IsSound rt db'
  register_client-IsSound db c now {info} {db'} s h =
      let e = register_client-IsEnrolled rt db c now h in
      let count : pending_count db'.registrations ≤ suc (pending_count db.registrations) =
        subst (λ gs. pending_count gs ≤ suc (pending_count db.registrations)) (sym e.registrations)
          (pending_count-append db.registrations (new_registration rt db.rows c now)) in
      let room = e.not_full in
      record {
        bounded = ground arith;
        redirects = λ g l. elim (In-append db.registrations (subst (In g) e.registrations l)) [
          | inl k ↦ s.redirects g k
          | inr k ↦ elim (In-cons k) [
            | inl q ↦
                ap (λ (x : Registration). all (is_allowed_redirect_uri rt) x.redirect_uris) q
                ∙ e.allowed
            | inr n ↦ elim n [ ]
          ]
        ];
        requests = λ r l. s.requests r (subst (In r) e.requests l);
        codes = λ r l. s.codes r (subst (In r) e.codes l);
        tokens = λ r l. s.tokens r (subst (In r) e.tokens l);
      }

  decided_requests :
      (rs : List AuthorizationRequest) (q : AuthorizationRequest → Bool) (now : ℕ)
      → ((r : AuthorizationRequest) → In r rs → IsSupported r.scopes)
      → (r : AuthorizationRequest) → In r (update_where q (set_decided now) rs)
      → IsSupported r.scopes
  decided_requests rs q now h =
      update_where_keeps (λ (r : AuthorizationRequest). IsSupported r.scopes) q (set_decided now) rs
        (λ r supported. supported) h

  pub deny-IsSound :
      (db : Db) (input : DecisionInput) (now : ℕ) {url : String} {db' : Db}
      → IsSound rt db
      → deny rt db input now ≡ ok (url, db')
      → IsSound rt db'
  deny-IsSound db input now s h =
      let (r, g, pending, written) = deny-IsPending rt db input now h in
      subst (IsSound rt) written (record {
        bounded = s.bounded;
        redirects = s.redirects;
        requests = decided_requests db.requests _ now s.requests;
        codes = s.codes;
        tokens = s.tokens;
      })

  approved_registrations :
      (db : Db) (g : Registration)
      → IsSound rt db
      → (pending_count (approve_registration g db).registrations ≤ rt.max_pending_registrations)
        × ((x : Registration)
            → In x (approve_registration g db).registrations
            → all (is_allowed_redirect_uri rt) x.redirect_uris ≡ true)
  approved_registrations db g s = elim (Bool-cases (is_pending g.status)) [
    | inr t ↦ rw t (s.bounded, s.redirects)
    | inl t ↦ rw t (
      (omega (
        arith,
        s.bounded,
        pending_count-approved (λ (x : Registration). x.id == g.id) db.registrations,
      )),
      update_where_keeps
          (λ (x : Registration). all (is_allowed_redirect_uri rt) x.redirect_uris ≡ true)
          (λ (x : Registration). x.id == g.id) set_approved db.registrations (λ x allowed. allowed)
          s.redirects,
    )
  ]

  pub approve-IsSound :
      (db : Db) (input : DecisionInput) (now : ℕ) {url : String} {db' : Db}
      → IsSound rt db
      → approve rt db input now ≡ ok (url, db')
      → IsSound rt db'
  approve-IsSound db input now {url} {db'} s h =
      let (r, g, c, pending, e) = approve-HasGranted rt db input now h in
      let (bounded, redirects) = approved_registrations db g s in
      let listed = (find_sound _ db.requests r pending.found).0 in
      record {
        bounded =
            subst (λ gs. pending_count gs ≤ rt.max_pending_registrations) (sym e.registrations)
              bounded;
        redirects = λ x l. redirects x (subst (In x) e.registrations l);
        requests =
            λ x l. decided_requests db.requests _ now s.requests x (subst (In x) e.requests l);
        codes = λ x l. elim (In-append db.codes (subst (In x) e.codes l)) [
          | inl k ↦ s.codes x k
          | inr k ↦ elim (In-cons k) [
            | inl q ↦ ap (λ (y : Code). all (has supported_scopes) y.scopes) q ∙ s.requests r listed
            | inr n ↦ elim n [ ]
          ]
        ];
        tokens = λ x l. s.tokens x (subst (In x) e.tokens l);
      }
