-- ===== src/MemoryRequests/Review/Settled.antt =====
-- A decision settles a request.
use funes_vault.Common.{
  ℕ, String, ◌≡◌, refl, sym, ap, ◌∙◌, ◌≢◌, false, ◌==◌, eq_iff, List, In, In-update_where, inl, inr,
  ok, ok_cancel, update_where, subst,
}
use funes_vault.Vault.Store.{MemoryRequest, Db}
use funes_vault.MemoryRequests.Runtime.{Runtime}
use funes_vault.MemoryRequests.Disclosure.{awaits_approval}
use funes_vault.MemoryRequests.Preview.{Proposal}
use funes_vault.MemoryRequests.Review.{
  Review, refuse, approve, decide, decide_locked, grant, refuse_request, unique,
}
use funes_vault.MemoryRequests.Review.Rows.{decide_cases, decide_approve-IsApproval}

settled_row :
    (id : String) (f : MemoryRequest → MemoryRequest) (rows : List MemoryRequest)
    (x : MemoryRequest)
    → ((y : MemoryRequest) → awaits_approval (f y).status ≡ false)
    → In x (update_where (λ (y : MemoryRequest). y.id == id) f rows)
    → x.id ≡ id
    → awaits_approval x.status ≡ false
settled_row id f rows x done l e =
    let (y, k, c) = In-update_where (λ (z : MemoryRequest). z.id == id) f rows l in
    elim c [
      | inl p ↦ ap (λ (z : MemoryRequest). awaits_approval z.status) p.1 ∙ done y
      | inr p ↦ cc ((eq_iff y.id id).1 (ap (λ (z : MemoryRequest). z.id) (sym p.1) ∙ e), p.0)
    ]

decide_locked_settles :
    (rt : Runtime) (db : Db) (r : MemoryRequest) (id : String) (review : Review)
    (found : List Proposal) (now : ℕ) (db' : Db) (x : MemoryRequest)
    → decide_locked rt db r id review found now ≡ ok db'
    → In x db'.requests
    → x.id ≡ id
    → awaits_approval x.status ≡ false
decide_locked_settles rt db r id refuse found now db' x h l e =
    settled_row id (refuse_request now) db.requests x (λ y. refl)
      (subst (λ (d : Db). In x d.requests) (sym (ok_cancel h)) l) e
decide_locked_settles rt db r id (approve revision ids) found now db' x h l e =
    let a = decide_approve-IsApproval rt db r id revision ids found now db' h in
    settled_row id (grant a.shown.0.0 (unique ids) now) a.shown.1.requests x (λ y. refl)
      (subst (λ rows. In x rows) a.rows l) e

-- A request is decided once: right after a decision, whether it approved or refused, no other decision
-- on that request succeeds, whoever makes it.
pub decide_once :
    (rt : Runtime) (db : Db) (user_id id : String) (review : Review) (found : List Proposal)
    (now : ℕ) (db' : Db) (other : String) (review' : Review) (found' : List Proposal) (then_ : ℕ)
    (last : Db)
    → decide rt db user_id id review found now ≡ ok db'
    → decide rt db' other id review' found' then_ ≢ ok last
decide_once rt db user_id id review found now db' other review' found' then_ last h again =
    let (r, locked, waits, e) = decide_cases rt db user_id id review found now db' h in
    let (x, locked', waits', e') = decide_cases rt db' other id review' found' then_ last again in
    cc (
      decide_locked_settles rt db r id review found now db' x e locked'.listed locked'.same_id,
      waits',
    )
