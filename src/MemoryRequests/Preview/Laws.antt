-- ===== src/MemoryRequests/Preview/Laws.antt =====
-- What a preview writes.
use funes_vault.Common.{
  or_throw-eq-ok, ℕ, ◌≡◌, sym, ap, ◌∙◌, ◌⊎◌, inl, inr, true, false, ◌==◌, some, List, arith, ok,
  ok_cancel, >>=-eq-ok, or_throw, Bool-cases, update_where,
}
use funes_vault.Vault.Enums.{policy_changed, RequestStatus}
use funes_vault.Vault.Store.{Client, Snapshot, MemoryRequest, Db}
use funes_vault.MemoryRequests.Runtime.{Runtime, null_access}
use funes_vault.MemoryRequests.Disclosure.{
  Context, disclosure_context, awaits_approval, is_approved, safe_parse,
}
use funes_vault.MemoryRequests.Invalidation.{fresh_review, live_version}
use funes_vault.MemoryRequests.Invalidation.Rows.{invalidate_status, invalidate_rows}
use funes_vault.MemoryRequests.Preview.{
  Proposal, Preview, preview_disclosure, preview_ids, refresh, is_outdated, show,
}

-- The tables are as before, or the rows of a waiting request are sent back for a fresh review.
abbrev pub Refreshed : Context → MemoryRequest → Db → Db → Type 0
Refreshed context r db db' =
    (db' ≡ db)
    ⊎ ((awaits_approval r.status ≡ true)
        × (db'.requests
            ≡ update_where (λ (x : MemoryRequest). x.id == r.id)
                (fresh_review (some policy_changed) (live_version context)) db.requests))

refresh_rows :
    (rt : Runtime) (r : MemoryRequest) (context : Context) (db : Db) (u : MemoryRequest) (db' : Db)
    → refresh rt r context db ≡ ok (u, db')
    → Refreshed context r db db'
refresh_rows rt r context db u db' h = elim (Bool-cases (is_outdated r context)) [
  | inl t ↦ inr (ground arith, invalidate_rows rt r context db u db' (rw t at h))
  | inr f ↦ inl (ap (λ (x : MemoryRequest × Db). x.1) (sym (ok_cancel (rw f at h))))
]

module _ (rt : Runtime) (db : Db) (r : MemoryRequest) (cs : List Proposal) (now : ℕ) where
  abbrev pub context_of : Context
  context_of = disclosure_context db r (preview_ids r (safe_parse r.review_snapshot) cs) now

  -- A preview that is shown: the refreshed row and tables it is computed from.
  pub preview_disclosure_parts :
      (shown : (Snapshot × Preview) × Db)
      → preview_disclosure rt db r cs now ≡ ok shown
      → (client : Client) × (checked : MemoryRequest) × (context_of.client ≡ some client)
        × (refresh rt r context_of db ≡ ok (checked, shown.1))
        × (shown.0 ≡ show rt checked (safe_parse r.review_snapshot) context_of client cs now)
  unfolding preview_disclosure
  preview_disclosure_parts shown h =
      let (client, found, h') = >>=-eq-ok (or_throw context_of.client null_access) _ h in
      let (checked, e, h'') = >>=-eq-ok (refresh rt r context_of db) _ h' in
      (
        client,
        checked.0,
        or_throw-eq-ok _ _ found,
        e ∙ ap (λ (x : (Snapshot × Preview) × Db). ok (checked.0, x.1)) (ok_cancel h''),
        ap (λ (x : (Snapshot × Preview) × Db). x.0) (sym (ok_cancel h'')),
      )

  pub preview_disclosure_rows :
      (shown : (Snapshot × Preview) × Db)
      → preview_disclosure rt db r cs now ≡ ok shown
      → Refreshed context_of r db shown.1
  preview_disclosure_rows shown h =
      let (client, checked, ec, e, es) = preview_disclosure_parts shown h in
      refresh_rows rt r context_of db checked shown.1 e

-- A request that is not approved is not approved after the check of its policy.
pub refresh_status :
    (rt : Runtime) (r : MemoryRequest) (context : Context) (db : Db) (u : MemoryRequest) (db' : Db)
    → is_approved r.status ≡ false
    → refresh rt r context db ≡ ok (u, db')
    → is_approved u.status ≡ false
refresh_status rt r context db u db' waiting h = elim (Bool-cases (is_outdated r context)) [
  | inl t ↦ invalidate_status rt r context db u db' (rw t at h)
  | inr f ↦
      ap (λ (x : MemoryRequest × Db). is_approved x.0.status) (sym (ok_cancel (rw f at h)))
      ∙ waiting
]

-- Looking at an approved request changes nothing at all, whatever retrieval proposes and however the
-- policy has changed since.
pub preview_approved_unchanged :
    (rt : Runtime) (db : Db) (r : MemoryRequest) (cs : List Proposal) (now : ℕ)
    (shown : (Snapshot × Preview) × Db)
    → is_approved r.status ≡ true
    → preview_disclosure rt db r cs now ≡ ok shown
    → shown.1 ≡ db
preview_approved_unchanged rt db r cs now shown approved h =
    elim (preview_disclosure_rows rt db r cs now shown h) [
      | inl e ↦ e
      | inr (waits, e) ↦ absurd (clash r.status approved waits)
    ]
  where
    clash : (t : RequestStatus) → is_approved t ≡ true → awaits_approval t ≡ true → ⊥
    clash t a w = ground arith
