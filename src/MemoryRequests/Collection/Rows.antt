-- ===== src/MemoryRequests/Collection/Rows.antt =====
-- What a collection writes to the table of requests.
use funes_vault.Common.{
  ◌>>=◌, ℕ, String, ◌≡◌, refl, sym, ap, ◌∙◌, ◌⊎◌, inl, inr, true, ◌==◌, Option, none, some, Result,
  ok, err, ok_cancel, >>=-eq-ok, Bool-cases, update_where,
}
use funes_vault.Vault.Store.{Snapshot, MemoryRequest, Db}
use funes_vault.MemoryRequests.Runtime.{Runtime, Error}
use funes_vault.MemoryRequests.Disclosure.{
  disclosure_context, lock_disclosure_request, is_approved, snapshot_is_current,
}
use funes_vault.MemoryRequests.Disclosure.Lock.{IsLocked, lock_sound}
use funes_vault.MemoryRequests.Invalidation.{invalidate}
use funes_vault.MemoryRequests.Invalidation.Rows.{invalidate_rows}
use funes_vault.MemoryRequests.Collection.{
  Response, result, item_ids, policy_moved, collect, unspoilt, consume,
}

-- The rows with the request's id are rewritten, and keep their ids.
abbrev pub Rewrites : MemoryRequest → Db → Db → Type 0
Rewrites r db db' =
    (f : MemoryRequest → MemoryRequest) × ((x : MemoryRequest) → (f x).id ≡ x.id)
    × (db'.requests ≡ update_where (λ (x : MemoryRequest). x.id == r.id) f db.requests)

module _ (rt : Runtime) (db : Db) (user_id client_id id : String) (now : ℕ) where
  policy_moved_rows :
      (r : MemoryRequest) (m : Result Error (MemoryRequest × Db)) (resp : Response) (db' : Db)
      → (m >>= policy_moved id r) ≡ ok (resp, db')
      → (u : MemoryRequest) × (m ≡ ok (u, db'))
  policy_moved_rows r (ok (u, d)) resp db' h =
      (u, ap (λ (x : Response × Db). ok (u, x.1)) (ok_cancel h))
  policy_moved_rows r (err e) resp db' h = cc h

  collect_rows :
      (r : MemoryRequest) (o : Option Snapshot) (resp : Response) (db' : Db)
      → r.id ≡ id
      → collect rt db r user_id client_id id now o ≡ ok (resp, db')
      → Rewrites r db db'
  collect_rows r none resp db' same h =
      (_, λ x. refl, ap (λ (x : Response × Db). x.1.requests) (sym (ok_cancel h)))
  collect_rows r (some s) resp db' same h =
      let context = disclosure_context db r (item_ids s.items) now in
      elim (Bool-cases (snapshot_is_current rt r s context now)) [
        | inl t ↦ (
          consume now,
          λ x. refl,
          ap (λ (x : Response × Db). x.1.requests) (sym (ok_cancel (rw t at h)))
              ∙ ap (λ k. update_where (λ (x : MemoryRequest). x.id == k) (consume now) db.requests)
                  (sym same),
        )
        | inr f ↦
            let (u, e) = policy_moved_rows r (invalidate rt r context db) resp db' (rw f at h) in
            (_, λ x. refl, invalidate_rows rt r context db u db' e)
      ]

  -- The rows are as they were, or those of the caller's approved request are rewritten.
  pub result_rows :
      (resp : Response) (db' : Db)
      → result rt db user_id client_id id now ≡ ok (resp, db')
      → (r : MemoryRequest) × IsLocked db user_id id (some client_id) r
        × ((db'.requests ≡ db.requests) ⊎ ((is_approved r.status ≡ true) × Rewrites r db db'))
  unfolding result
  result_rows resp db' h =
      let (r, found, h') = >>=-eq-ok (lock_disclosure_request db user_id id (some client_id)) _ h in
      let locked = lock_sound db user_id id (some client_id) r found in
      elim (Bool-cases (is_approved r.status)) [
        | inl t ↦ (
          r,
          locked,
          inr (t, collect_rows r (unspoilt r now) resp db' locked.same_id (rw t at h')),
        )
        | inr f ↦ (
          r,
          locked,
          inl (ap (λ (x : Response × Db). x.1.requests) (sym (ok_cancel (rw f at h')))),
        )
      ]
