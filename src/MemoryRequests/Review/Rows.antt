-- ===== src/MemoryRequests/Review/Rows.antt =====
-- What the owner's decision writes to the table of requests.
use funes_vault.Common.{
  eq_iff, arith, ℕ, String, ◌≡◌, sym, ap, true, ◌&&◌, ◌==◌, none, List, ok, ok_cancel, >>=-eq-ok,
  >>-guard, update_where, nat_eq, length,
}
use funes_vault.Vault.Store.{Snapshot, MemoryRequest, Db}
use funes_vault.MemoryRequests.Runtime.{Runtime, already_reviewed, preview_changed, not_in_preview}
use funes_vault.MemoryRequests.Disclosure.{lock_disclosure_request, awaits_approval}
use funes_vault.MemoryRequests.Disclosure.Lock.{IsLocked, lock_sound}
use funes_vault.MemoryRequests.Preview.{Proposal, Preview, preview_disclosure}
use funes_vault.MemoryRequests.Review.{
  preview_in_transaction, Review, decide, decide_approve, chosen_items, unique, grant,
  decide_locked,
}

-- An approval that succeeds: the preview that it was checked against.
pub record IsApproval (rt : Runtime) (db : Db) (r : MemoryRequest) (id revision : String)
    (memory_ids : List String) (found : List Proposal) (now : ℕ) (db' : Db) : Type 0 where
  pub shown : (Snapshot × Preview) × Db
  pub previewed : preview_disclosure rt db r found now ≡ ok shown
  pub approvable : shown.0.1.can_approve ≡ true
  pub same_revision : shown.0.1.revision ≡ revision
  pub all_chosen : length (chosen_items shown.0.0 (unique memory_ids)) ≡ length (unique memory_ids)
  pub rows :
      db'.requests
      ≡ update_where
          (λ (x : MemoryRequest). x.id == id)
          (grant shown.0.0 (unique memory_ids) now)
          shown.1.requests

pub decide_approve-IsApproval :
    (rt : Runtime) (db : Db) (r : MemoryRequest) (id revision : String) (memory_ids : List String)
    (found : List Proposal) (now : ℕ) (db' : Db)
    → decide_approve rt db r id revision memory_ids found now ≡ ok db'
    → IsApproval rt db r id revision memory_ids found now db'
decide_approve-IsApproval rt db r id revision memory_ids found now db' h =
    let (shown, e, h1) = >>=-eq-ok (preview_disclosure rt db r found now) _ h in
    let (t1, h2) =
      >>-guard (shown.0.1.can_approve && shown.0.1.revision == revision) preview_changed _ h1 in
    let (t2, h3) =
      >>-guard
        (nat_eq (length (chosen_items shown.0.0 (unique memory_ids))) (length (unique memory_ids)))
        not_in_preview _ h2 in
    record {
      shown = shown;
      previewed = e;
      approvable = ground arith;
      same_revision = ground (arith, eq_iff shown.0.1.revision revision);
      all_chosen = ground arith;
      rows = ap (λ (x : Db). x.requests) (sym (ok_cancel h3));
    }

-- A decision that succeeds is about a waiting request of the owner, and either refuses or approves it.
pub decide_cases :
    (rt : Runtime) (db : Db) (user_id id : String) (review : Review) (found : List Proposal)
    (now : ℕ) (db' : Db)
    → decide rt db user_id id review found now ≡ ok db'
    → (r : MemoryRequest) × IsLocked db user_id id none r
      × (awaits_approval r.status ≡ true)
      × (decide_locked rt db r id review found now ≡ ok db')
unfolding decide
decide_cases rt db user_id id review found now db' h =
    let (r, e, h') = >>=-eq-ok (lock_disclosure_request db user_id id none) _ h in
    let (t, h'') = >>-guard (awaits_approval r.status) already_reviewed _ h' in
    (r, lock_sound db user_id id none r e, t, h'')

-- A preview that succeeds is that of a request of the owner.
pub preview-IsLocked :
    (rt : Runtime) (db : Db) (user_id id : String) (found : List Proposal) (now : ℕ)
    {shown : Preview} {db' : Db}
    → preview_in_transaction rt db user_id id found now ≡ ok (shown, db')
    → (r : MemoryRequest) × IsLocked db user_id id none r
      × ((x : (Snapshot × Preview) × Db) × (preview_disclosure rt db r found now ≡ ok x)
          × (x.1 ≡ db'))
unfolding preview_in_transaction
preview-IsLocked rt db user_id id found now h =
    let (r, e, h') = >>=-eq-ok (lock_disclosure_request db user_id id none) _ h in
    let (x, ex, h'') = >>=-eq-ok (preview_disclosure rt db r found now) _ h' in
    (r, lock_sound db user_id id none r e, (x, ex, ap (λ (y : Preview × Db). y.1) (ok_cancel h'')))
