-- ===== src/MemoryRequests/Invalidation/Rows.antt =====
-- What an invalidation writes to the table of requests.
use funes_vault.Common.{
  false, ◌≡◌, sym, ap, some, ok, update_where, ◌==◌, or_throw, ok_cancel, >>=-eq-ok,
}
use funes_vault.Vault.Enums.{policy_changed}
use funes_vault.Vault.Store.{MemoryRequest, Db}
use funes_vault.MemoryRequests.Runtime.{Runtime, null_access}
use funes_vault.MemoryRequests.Disclosure.{is_approved, Context}
use funes_vault.MemoryRequests.Invalidation.{invalidate, fresh_review, live_version}

pub invalidate_rows :
    (rt : Runtime) (r : MemoryRequest) (context : Context) (db : Db) (u : MemoryRequest) (db' : Db)
    → invalidate rt r context db ≡ ok (u, db')
    → db'.requests
      ≡ update_where
          (λ (x : MemoryRequest). x.id == r.id)
          (fresh_review (some policy_changed) (live_version context))
          db.requests
unfolding invalidate
invalidate_rows rt r context db u db' h =
    let (c, found, e) = >>=-eq-ok (or_throw context.client null_access) _ h in
    ap (λ (x : MemoryRequest × Db). x.1.requests) (sym (ok_cancel e))

pub invalidate_status :
    (rt : Runtime) (r : MemoryRequest) (context : Context) (db : Db) (u : MemoryRequest) (db' : Db)
    → invalidate rt r context db ≡ ok (u, db')
    → is_approved u.status ≡ false
unfolding invalidate
invalidate_status rt r context db u db' h =
    let (c, found, e) = >>=-eq-ok (or_throw context.client null_access) _ h in
    ap (λ (x : MemoryRequest × Db). is_approved x.0.status) (sym (ok_cancel e))
