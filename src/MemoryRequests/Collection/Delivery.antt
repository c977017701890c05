-- ===== src/MemoryRequests/Collection/Delivery.antt =====
-- The ways in which a collection ends.
use funes_vault.Common.{
  >>=-eq-ok, ok_cancel, ℕ, String, ◌≡◌, refl, sym, ap, ◌⊎◌, inl, inr, true, Option, none, some, [],
  Result, ok, err, Bool-cases, ◌>>=◌,
}
use funes_vault.Vault.Store.{Snapshot, MemoryRequest, Db}
use funes_vault.MemoryRequests.Runtime.{Runtime, Error}
use funes_vault.MemoryRequests.Disclosure.{
  disclosure_context, lock_disclosure_request, is_approved, safe_parse, snapshot_is_current,
  is_later,
}
use funes_vault.MemoryRequests.Invalidation.{invalidate}
use funes_vault.MemoryRequests.Collection.{
  Response, result, deliver, item_ids, deliver_current, policy_moved, collect, unspoilt,
}

-- The row, its snapshot and the tests under which a collection delivers.
pub record IsDelivery (rt : Runtime) (db : Db) (user_id client_id id : String) (now : ℕ)
    (r : MemoryRequest) (s : Snapshot) : Type 0 where
  pub locked : lock_disclosure_request db user_id id (some client_id) ≡ ok r
  pub approved : is_approved r.status ≡ true
  pub in_time : is_later r.approval_expires_at now ≡ true
  pub parsed : safe_parse r.review_snapshot ≡ some s
  pub current :
      snapshot_is_current rt r s (disclosure_context db r (item_ids s.items) now) now ≡ true

unspoilt-some :
    (r : MemoryRequest) (now : ℕ) (s : Snapshot)
    → unspoilt r now ≡ some s
    → (is_later r.approval_expires_at now ≡ true) × (safe_parse r.review_snapshot ≡ some s)
unspoilt-some r now s e = elim (Bool-cases (is_later r.approval_expires_at now)) [
  | inl t ↦ (t, rw t at e)
  | inr f ↦ cc (rw f at e)
]

module _ (rt : Runtime) (db : Db) (user_id client_id id : String) (now : ℕ) where
  -- The call shared no item, or it is the delivery of an approved snapshot.
  abbrev pub SharesOrDelivers : Response → Db → Type 0
  SharesOrDelivers resp db' =
      (resp.items ≡ [])
      ⊎ ((r : MemoryRequest) × (s : Snapshot) × IsDelivery rt db user_id client_id id now r s
          × (deliver rt db r user_id client_id id s now ≡ (resp, db')))

  deliver_current_cases :
      (r : MemoryRequest) (s : Snapshot) (resp : Response) (db' : Db)
      → lock_disclosure_request db user_id id (some client_id) ≡ ok r
      → is_approved r.status ≡ true
      → is_later r.approval_expires_at now ≡ true
      → safe_parse r.review_snapshot ≡ some s
      → deliver_current rt db r user_id client_id id s now ≡ ok (resp, db')
      → SharesOrDelivers resp db'
  deliver_current_cases r s resp db' locked approved in_time parsed h =
      let context = disclosure_context db r (item_ids s.items) now in
      elim (Bool-cases (snapshot_is_current rt r s context now)) [
        | inl t ↦ inr (
          r,
          s,
          record {
            locked = locked;
            approved = approved;
            in_time = in_time;
            parsed = parsed;
            current = t;
          },
          ok_cancel (rw t at h),
        )
        | inr f ↦ inl (sent (invalidate rt r context db) (rw f at h))
      ]
    where
      sent :
          (m : Result Error (MemoryRequest × Db))
          → (m >>= policy_moved id r) ≡ ok (resp, db')
          → resp.items ≡ []
      sent (ok q) e = ap (λ (x : Response × Db). x.0.items) (sym (ok_cancel e))
      sent (err x) e = cc e

  approved_cases :
      (r : MemoryRequest) (o : Option Snapshot) (resp : Response) (db' : Db)
      → lock_disclosure_request db user_id id (some client_id) ≡ ok r
      → is_approved r.status ≡ true
      → unspoilt r now ≡ o
      → collect rt db r user_id client_id id now o ≡ ok (resp, db')
      → SharesOrDelivers resp db'
  approved_cases r none resp db' locked approved e h =
      inl (ap (λ (x : Response × Db). x.0.items) (sym (ok_cancel h)))
  approved_cases r (some s) resp db' locked approved e h =
      let (in_time, parsed) = unspoilt-some r now s e in
      deliver_current_cases r s resp db' locked approved in_time parsed h

  pub result_cases :
      (resp : Response) (db' : Db)
      → result rt db user_id client_id id now ≡ ok (resp, db')
      → SharesOrDelivers resp db'
  unfolding result
  result_cases resp db' h =
      let (r, locked, h') =
        >>=-eq-ok (lock_disclosure_request db user_id id (some client_id)) _ h in
      elim (Bool-cases (is_approved r.status)) [
        | inl t ↦ approved_cases r (unspoilt r now) resp db' locked t refl (rw t at h')
        | inr f ↦ inl (ap (λ (x : Response × Db). x.0.items) (sym (ok_cancel (rw f at h'))))
      ]
