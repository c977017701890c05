-- ===== src/MemoryRequests/OneTime/Once.antt =====
-- A one-time approval is collected once, and a refusal is for good.
use funes_vault.Common.{
  In-update_where, In-update_where_of, ℕ, String, ◌≡◌, refl, sym, ap, ◌∙◌, subst, ◌≢◌, ◌⊎◌, inl,
  inr, true, false, ◌==◌, some, List, [], ok, arith, In, ok_cancel, update_where, if◌then◌else◌,
  eq_iff,
}
use funes_vault.Vault.Enums.{RequestStatus}
use funes_vault.Vault.Store.{MemoryRequest, Db}
use funes_vault.MemoryRequests.Runtime.{Runtime}
use funes_vault.MemoryRequests.Disclosure.{is_approved}
use funes_vault.MemoryRequests.Disclosure.Lock.{lock_sound}
use funes_vault.MemoryRequests.Review.{refuse, decide, refuse_request}
use funes_vault.MemoryRequests.Review.Rows.{decide_cases}
use funes_vault.MemoryRequests.Preview.{Proposal}
use funes_vault.MemoryRequests.Collection.{Response, result, consume}
use funes_vault.MemoryRequests.Collection.Delivery.{result_cases}
use funes_vault.MemoryRequests.OneTime.{Reach, here, next}
use funes_vault.MemoryRequests.OneTime.Spent.{IsSpent, Change-IsSpent, is_final}
use funes_vault.MemoryRequests.OneTime.Change.{Step-Change}

Reach-IsSpent :
    (rt : Runtime) (id : String) {db db' : Db}
    → Reach rt db db'
    → IsSpent id db.requests
    → IsSpent id db'.requests
Reach-IsSpent rt id here s = s
Reach-IsSpent rt id (next r st) s = Change-IsSpent id (Step-Change rt st) (Reach-IsSpent rt id r s)

-- Where every row with a listed id is rewritten to a final status, the id is spent.
finished-IsSpent :
    (id : String) (f : MemoryRequest → MemoryRequest) (r : MemoryRequest)
    (rows : List MemoryRequest)
    → In r rows
    → r.id ≡ id
    → ((x : MemoryRequest) → (f x).id ≡ x.id)
    → ((x : MemoryRequest) → is_final (f x).status ≡ true)
    → IsSpent id (update_where (λ (x : MemoryRequest). x.id == id) f rows)
finished-IsSpent id f r rows l e keeps final = record {
  row = f r;
  listed =
      subst
        (λ b. In (if b then f r else r) (update_where (λ (x : MemoryRequest). x.id == id) f rows))
        ((eq_iff r.id id).1 e) (In-update_where_of (λ (x : MemoryRequest). x.id == id) f l);
  same_id = keeps r ∙ e;
  final = λ y m q. image_final y q (In-update_where (λ (x : MemoryRequest). x.id == id) f rows m);
}
  where
    image_final :
        (y : MemoryRequest)
        → y.id ≡ id
        → (x : MemoryRequest) × In x rows
          × ((((x.id == id) ≡ true) × (y ≡ f x)) ⊎ (((x.id == id) ≡ false) × (y ≡ x)))
        → is_final y.status ≡ true
    image_final y q (x, k, inl (t, e')) = ap (λ (z : MemoryRequest). is_final z.status) e' ∙ final x
    image_final y q (x, k, inr (t, e')) =
        cc ((eq_iff x.id id).1 (ap (λ (z : MemoryRequest). z.id) (sym e') ∙ q), t)

-- No item is collected on a spent request.
spent_shares_nothing :
    (rt : Runtime) (db : Db) (user_id client_id id : String) (now : ℕ) (resp : Response) (db' : Db)
    → IsSpent id db.requests
    → result rt db user_id client_id id now ≡ ok (resp, db')
    → resp.items ≡ []
spent_shares_nothing rt db user_id client_id id now resp db' s h =
    elim (result_cases rt db user_id client_id id now resp db' h) [
      | inl nothing ↦ nothing
      | inr (r, snapshot, d, e) ↦
          let locked = lock_sound db user_id id (some client_id) r d.locked in
          absurd (clash r.status d.approved (s.final r locked.listed locked.same_id))
    ]
  where
    clash : (t : RequestStatus) → is_approved t ≡ true → is_final t ≡ true → ⊥
    clash t a f = ground arith

-- An approval is collected once: after a collection that returned an item, however the vault goes on,
-- every later collection of that request, by anyone, returns none.
pub result_once :
    (rt : Runtime) (db db' later last : Db) (user_id client_id id : String) (now : ℕ)
    (resp : Response) (other_user other_client : String) (then_ : ℕ) (again : Response)
    → result rt db user_id client_id id now ≡ ok (resp, db')
    → resp.items ≢ []
    → Reach rt db' later
    → result rt later other_user other_client id then_ ≡ ok (again, last)
    → again.items ≡ []
result_once rt db db' later last user_id client_id id now resp other_user other_client then_ again h
      shared steps h' =
    elim (result_cases rt db user_id client_id id now resp db' h) [
      | inl nothing ↦ absurd (shared nothing)
      | inr (r, s, d, e) ↦
          let locked = lock_sound db user_id id (some client_id) r d.locked in
          let spent : IsSpent id db'.requests =
            subst (λ (x : Response × Db). IsSpent id x.1.requests) e
              (finished-IsSpent id (consume now) r db.requests locked.listed locked.same_id
                (λ x. refl) (λ x. refl)) in
          spent_shares_nothing rt later other_user other_client id then_ again last
            (Reach-IsSpent rt id steps spent) h'
    ]

-- A refusal is for good: after the owner has refused a request, however the vault goes on, nothing is
-- collected on it.
pub refuse_for_good :
    (rt : Runtime) (db db' later last : Db) (user_id id : String) (found : List Proposal) (now : ℕ)
    (other_user client_id : String) (then_ : ℕ) (resp : Response)
    → decide rt db user_id id refuse found now ≡ ok db'
    → Reach rt db' later
    → result rt later other_user client_id id then_ ≡ ok (resp, last)
    → resp.items ≡ []
refuse_for_good rt db db' later last user_id id found now other_user client_id then_ resp h steps
      h' =
    let (r, locked, waits, e) = decide_cases rt db user_id id refuse found now db' h in
    let spent : IsSpent id db'.requests =
      subst (λ (x : Db). IsSpent id x.requests) (ok_cancel e)
        (finished-IsSpent id (refuse_request now) r db.requests locked.listed locked.same_id
          (λ x. refl) (λ x. refl)) in
    spent_shares_nothing rt later other_user client_id id then_ resp last
      (Reach-IsSpent rt id steps spent) h'
