-- ===== src/MemoryRequests/OneTime/Change.antt =====
-- Every step on the requests is one of the changes of `Spent`.
use funes_vault.Common.{
  In-update_where_of, ℕ, String, ◌≡◌, refl, sym, ap, ◌∙◌, subst, inl, inr, true, false, ◌==◌, some,
  List, ok, arith, In, ok_cancel, update_where, if◌then◌else◌, eq_iff,
}
use funes_vault.Vault.Enums.{RequestStatus, policy_changed}
use funes_vault.Vault.Store.{Snapshot, MemoryRequest, Db}
use funes_vault.MemoryRequests.Runtime.{Runtime}
use funes_vault.MemoryRequests.Disclosure.{awaits_approval, is_approved}
use funes_vault.MemoryRequests.Invalidation.{fresh_review, live_version}
use funes_vault.MemoryRequests.Preview.{Proposal, Preview, preview_disclosure}
use funes_vault.MemoryRequests.Preview.Laws.{context_of, preview_disclosure_rows}
use funes_vault.MemoryRequests.Review.{
  Review, refuse, approve, decide, refuse_request, grant, unique,
}
use funes_vault.MemoryRequests.Review.Rows.{
  decide_cases, decide_approve-IsApproval, preview-IsLocked,
}
use funes_vault.MemoryRequests.Collection.{Response}
use funes_vault.MemoryRequests.Collection.Rows.{result_rows}
use funes_vault.MemoryRequests.Create.Rows.{create_rows}
use funes_vault.MemoryRequests.OneTime.{
  Step, previews, decides, collects, creates, elsewhere, unlinks,
}
use funes_vault.MemoryRequests.OneTime.Spent.{
  Change, same, rewritten, added, unlinked, both, is_final,
}

not_final_of_awaits : (s : RequestStatus) → awaits_approval s ≡ true → is_final s ≡ false
not_final_of_awaits s h = ground arith

not_final_of_approved : (s : RequestStatus) → is_approved s ≡ true → is_final s ≡ false
not_final_of_approved s h = ground arith

-- A preview of a listed row changes its id's rows only while it waits.
preview-Change :
    (rt : Runtime) (db : Db) (r : MemoryRequest) (found : List Proposal) (now : ℕ)
    (shown : (Snapshot × Preview) × Db)
    → In r db.requests
    → preview_disclosure rt db r found now ≡ ok shown
    → Change db.requests shown.1.requests
preview-Change rt db r found now shown l h =
    elim (preview_disclosure_rows rt db r found now shown h) [
      | inl e ↦ same (ap (λ (x : Db). x.requests) e)
      | inr (waits, e) ↦ rewritten r _ l (not_final_of_awaits r.status waits) (λ x. refl) e
    ]

-- After a preview the id still has a row that is not final.
open_row :
    (rt : Runtime) (db : Db) (r : MemoryRequest) (found : List Proposal) (now : ℕ)
    (shown : (Snapshot × Preview) × Db)
    → In r db.requests
    → awaits_approval r.status ≡ true
    → preview_disclosure rt db r found now ≡ ok shown
    → (x : MemoryRequest) × In x shown.1.requests × (x.id ≡ r.id) × (is_final x.status ≡ false)
open_row rt db r found now shown l waits h =
    elim (preview_disclosure_rows rt db r found now shown h) [
      | inl e ↦ (
        r,
        subst (λ (d : Db). In r d.requests) (sym e) l,
        refl,
        not_final_of_awaits r.status waits,
      )
      | inr (_, e) ↦
          let f =
            fresh_review (some policy_changed) (live_version (context_of rt db r found now)) in
          (
            f r,
            subst (λ rows. In (f r) rows) (sym e)
                (subst
                  (λ b.
                    In (if b then f r else r)
                      (update_where (λ (x : MemoryRequest). x.id == r.id) f db.requests))
                  ((eq_iff r.id r.id).1 refl)
                  (In-update_where_of (λ (x : MemoryRequest). x.id == r.id) f l)),
            refl,
            refl,
          )
    ]

decide-Change :
    (rt : Runtime) (db : Db) (user_id id : String) (review : Review) (found : List Proposal)
    (now : ℕ) (db' : Db)
    → decide rt db user_id id review found now ≡ ok db'
    → Change db.requests db'.requests
decide-Change rt db user_id id refuse found now db' h =
    let (r, locked, waits, e) = decide_cases rt db user_id id refuse found now db' h in
    rewritten r (refuse_request now) locked.listed (not_final_of_awaits r.status waits) (λ x. refl)
      (ap (λ (x : Db). x.requests) (sym (ok_cancel e))
        ∙ ap (λ k. update_where (λ (x : MemoryRequest). x.id == k) (refuse_request now) db.requests)
            (sym locked.same_id))
decide-Change rt db user_id id (approve revision ids) found now db' h =
    let (r, locked, waits, e) =
      decide_cases rt db user_id id (approve revision ids) found now db' h in
    let a = decide_approve-IsApproval rt db r id revision ids found now db' e in
    let (x, l, same_id, unspent) =
      open_row rt db r found now a.shown locked.listed waits a.previewed in
    let given = grant a.shown.0.0 (unique ids) now in
    both (preview-Change rt db r found now a.shown locked.listed a.previewed) (
      rewritten x given l unspent (λ y. refl)
        (a.rows
          ∙ ap (λ k. update_where (λ (y : MemoryRequest). y.id == k) given a.shown.1.requests)
              (sym (same_id ∙ locked.same_id))))

-- Every step changes the rows in one of these ways.
pub Step-Change : (rt : Runtime) {db db' : Db} → Step rt db db' → Change db.requests db'.requests
Step-Change rt {db} (previews user_id id found now shown h) =
    let (r, locked, (x, e, ex)) = preview-IsLocked rt db user_id id found now h in
    subst (λ (d : Db). Change db.requests d.requests) ex
      (preview-Change rt db r found now x locked.listed e)
Step-Change rt {db} {db'} (decides user_id id review found now h) =
    decide-Change rt db user_id id review found now db' h
Step-Change rt {db} {db'} (collects user_id client_id id now resp h) =
    let (r, locked, c) = result_rows rt db user_id client_id id now resp db' h in
    elim c [
      | inl e ↦ same e
      | inr (approved, (f, keeps, e)) ↦
          rewritten r f locked.listed (not_final_of_approved r.status approved) keeps e
    ]
Step-Change rt {db} (creates user_id client_id body gate found now resp fresh h) =
    let (r, named, e) = create_rows rt db user_id client_id body gate found now in
    added r (λ x l q. fresh x l (q ∙ named)) (ap (λ (y : Response × Db). y.1.requests) (sym h) ∙ e)
Step-Change rt (elsewhere e) = same e
Step-Change rt (unlinks policy_id e) = unlinked policy_id e
