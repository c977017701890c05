-- ===== src/MemoryRequests/Review/Decisions.antt =====
-- What an approval grants.
use funes_vault.Common.{
  Bool, if◌then◌else◌, In-update_where_of, ℕ, ◌+◌, String, ◌≡◌, refl, sym, ap, ◌∙◌, subst, ◌↔◌, inl,
  inr, true, false, not, none, List, [], ◌∷◌, In, here, there, In-filter, In-of_filter,
  In-update_where, arith, ok, has_iff, ◌==◌, eq_iff, length, Bool-cases, update_where, some,
}
use funes_vault.Vault.Enums.{RequestStatus}
use funes_vault.Vault.Store.{BundleItem, Snapshot, stored, MemoryRequest, Db}
use funes_vault.MemoryRequests.Runtime.{Runtime}
use funes_vault.MemoryRequests.Disclosure.{Context, awaits_approval, is_approved}
use funes_vault.MemoryRequests.Disclosure.Lock.{IsLocked}
use funes_vault.MemoryRequests.Disclosure.Current.{HasUniqueIds}
use funes_vault.MemoryRequests.Invalidation.{disclosure_approval_ttl_ms}
use funes_vault.MemoryRequests.Preview.{Proposal, Preview, preview_disclosure}
use funes_vault.MemoryRequests.Preview.Laws.{
  preview_disclosure_parts, preview_disclosure_rows, context_of, Refreshed,
}
use funes_vault.MemoryRequests.Preview.Shown.{IsShown, preview-IsShown}
use funes_vault.MemoryRequests.Review.{unique, chosen_items, grant, approve, decide}
use funes_vault.MemoryRequests.Review.Rows.{decide_approve-IsApproval, decide_cases}

-- Dropping repetitions keeps the members.
unique_iff : (ids : List String) (id : String) → In id (unique ids) ↔ In id ids
unfolding unique
unique_iff ids id = (sound ids, complete ids)
  where
    sound : (ids : List String) → In id (unique ids) → In id ids
    sound [] l = l
    sound (k ∷ ids) (here e) = here e
    sound (k ∷ ids) (there l) = there (sound ids (In-filter _ (unique ids) l).0)

    complete : (ids : List String) → In id ids → In id (unique ids)
    complete [] l = l
    complete (k ∷ ids) (here e) = here e
    complete (k ∷ ids) (there l) = elim (Bool-cases (id == k)) [
      | inl t ↦ here ((eq_iff id k).0 t)
      | inr f ↦ there (In-of_filter (λ other. not (other == k)) (complete ids l) (rw f))
    ]

chosen_iff :
    (s : Snapshot) (ids : List String) (i : BundleItem)
    → In i (chosen_items s (unique ids)) ↔ (In i s.items × In i.memory_id ids)
chosen_iff s ids i = (
  λ l.
      let (k, t) = In-filter _ s.items l in (k, (unique_iff ids i.memory_id).0 ((has_iff _ _).0 t)),
  λ h. In-of_filter _ h.0 ((has_iff _ _).1 ((unique_iff ids i.memory_id).1 h.1)),
)

-- A row that was granted some of the shown items: it is approved for the time that an approval lasts,
-- and its snapshot holds the shown items that were chosen, as many as were chosen.
pub record IsGrant (shown : List BundleItem) (ids : List String) (now : ℕ) (x : MemoryRequest)
    : Type 0 where
  pub approved : x.status ≡ RequestStatus.approved
  pub expires : x.approval_expires_at ≡ some (now + disclosure_approval_ttl_ms)
  pub snapshot : Snapshot
  pub kept : x.review_snapshot ≡ stored snapshot
  pub chosen : (i : BundleItem) → In i snapshot.items ↔ (In i shown × In i.memory_id ids)
  pub count : length snapshot.items ≡ length (unique ids)

-- The owner's request was waiting, the preview of it is the one of the revision and could be approved,
-- each shown item could be given to the client, and the request now is granted the chosen ones.
pub record Grants (rt : Runtime) (db : Db) (user_id id revision : String) (ids : List String)
    (found : List Proposal) (now : ℕ) (db' : Db) : Type 0 where
  pub request : MemoryRequest
  pub locked : IsLocked db user_id id none request
  pub waiting : awaits_approval request.status ≡ true
  pub snapshot : Snapshot
  pub preview : Preview
  pub after_preview : Db
  pub previewed :
      preview_disclosure rt db request found now ≡ ok ((snapshot, preview), after_preview)
  pub approvable : preview.can_approve ≡ true
  pub same_revision : preview.revision ≡ revision
  pub disclosable : (i : BundleItem) → In i preview.items → IsShown db request now i
  pub granted :
      (x : MemoryRequest) → In x db'.requests → x.id ≡ id → IsGrant preview.items ids now x
  pub still_there : (x : MemoryRequest) × In x db'.requests × (x.id ≡ id)

grant-IsGrant :
    (s : Snapshot) (ids : List String) (now : ℕ) (r : MemoryRequest)
    → length (chosen_items s (unique ids)) ≡ length (unique ids)
    → IsGrant s.items ids now (grant s (unique ids) now r)
grant-IsGrant s ids now r h = record {
  approved = refl;
  expires = refl;
  snapshot = _;
  kept = refl;
  chosen = chosen_iff s ids;
  count = h;
}

granted_rows :
    (s : Snapshot) (id : String) (ids : List String) (now : ℕ) (rows : List MemoryRequest)
    (x : MemoryRequest)
    → length (chosen_items s (unique ids)) ≡ length (unique ids)
    → In x (update_where (λ (y : MemoryRequest). y.id == id) (grant s (unique ids) now) rows)
    → x.id ≡ id
    → IsGrant s.items ids now x
granted_rows s id ids now rows x h l e =
    let (y, k, c) = In-update_where (λ (y : MemoryRequest). y.id == id) _ rows l in
    elim c [
      | inl p ↦ subst (IsGrant s.items ids now) (sym p.1) (grant-IsGrant s ids now y h)
      | inr p ↦ cc ((eq_iff y.id id).1 (ap (λ (z : MemoryRequest). z.id) (sym p.1) ∙ e), p.0)
    ]

not_approved_of_waiting : (t : RequestStatus) → awaits_approval t ≡ true → is_approved t ≡ false
not_approved_of_waiting t h = ground arith

-- A row is still there after an update that keeps its id.
row_kept :
    (p : MemoryRequest → Bool) (f : MemoryRequest → MemoryRequest) (rows : List MemoryRequest)
    (id : String)
    → ((x : MemoryRequest) → (f x).id ≡ x.id)
    → (x : MemoryRequest) × In x rows × (x.id ≡ id)
    → (x : MemoryRequest) × In x (update_where p f rows) × (x.id ≡ id)
row_kept p f rows id keeps (x, l, e) =
    (if p x then f x else x, In-update_where_of p f l, same_id (p x) ∙ e)
  where
    same_id : (b : Bool) → (if b then f x else x).id ≡ x.id
    same_id true = keeps x
    same_id false = refl

row_shown :
    (context : Context) (r : MemoryRequest) (db db' : Db) (id : String)
    → Refreshed context r db db'
    → (x : MemoryRequest) × In x db.requests × (x.id ≡ id)
    → (x : MemoryRequest) × In x db'.requests × (x.id ≡ id)
row_shown context r db db' id (inl e) row =
    subst (λ (y : Db). (x : MemoryRequest) × In x y.requests × (x.id ≡ id)) (sym e) row
row_shown context r db db' id (inr (waits, e)) row =
    subst (λ rows. (x : MemoryRequest) × In x rows × (x.id ≡ id)) (sym e)
      (row_kept _ _ db.requests id (λ x. refl) row)

-- An approval that succeeds concerns a waiting request of its owner, whose preview, as it is compiled
-- now, can be approved and has the revision that the owner names; every item of that preview is one that
-- the client's policy covers; and the request is still there, every row of it approved for fifteen
-- minutes with exactly the chosen shown items.
pub decide-Grants :
    (rt : Runtime) (db : Db) (user_id id revision : String) (ids : List String)
    (found : List Proposal) (now : ℕ) (db' : Db)
    → HasUniqueIds db
    → decide rt db user_id id (approve revision ids) found now ≡ ok db'
    → Grants rt db user_id id revision ids found now db'
decide-Grants rt db user_id id revision ids found now db' unique_ids h =
    let (r, locked, waits, e) =
      decide_cases rt db user_id id (approve revision ids) found now db' h in
    let a = decide_approve-IsApproval rt db r id revision ids found now db' e in
    let (client, checked, ec, er, same) =
      preview_disclosure_parts rt db r found now a.shown a.previewed in
    let same_items : a.shown.0.0.items ≡ a.shown.0.1.items =
      ap (λ (x : Snapshot × Preview). x.0.items) same
      ∙ ap (λ (x : Snapshot × Preview). x.1.items) (sym same) in
    record {
      request = r;
      locked = locked;
      waiting = waits;
      snapshot = a.shown.0.0;
      preview = a.shown.0.1;
      after_preview = a.shown.1;
      previewed = a.previewed;
      approvable = a.approvable;
      same_revision = a.same_revision;
      disclosable = λ i l.
          preview-IsShown rt db r found now a.shown i unique_ids
            (not_approved_of_waiting r.status waits) a.previewed l;
      granted = λ x l q.
          subst (λ is. IsGrant is ids now x) same_items
            (granted_rows a.shown.0.0 id ids now a.shown.1.requests x a.all_chosen
              (subst (λ rows. In x rows) a.rows l) q);
      still_there =
          subst (λ rows. (x : MemoryRequest) × In x rows × (x.id ≡ id)) (sym a.rows)
            (row_kept _ (grant a.shown.0.0 (unique ids) now) a.shown.1.requests id (λ x. refl)
              (row_shown (context_of rt db r found now) r db a.shown.1 id
                (preview_disclosure_rows rt db r found now a.shown a.previewed)
                (r, locked.listed, locked.same_id)));
    }
