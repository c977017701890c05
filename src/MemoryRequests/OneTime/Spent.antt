-- ===== src/MemoryRequests/OneTime/Spent.antt =====
-- Requests that are fulfilled or denied, and the changes that the table of requests goes through.
use funes_vault.Common.{
  In-update_where, In-update_where_of, eq_false_of_ne, In-cons, String, ◌≡◌, sym, ap, ◌∙◌, subst,
  ◌≢◌, ◌⊎◌, inl, inr, Bool, true, false, ◌==◌, List, [], ◌∷◌, ◌++◌, arith, In, In-append,
  In-append_left, In-map, In-of_map, eq_iff, map, update_where, if◌then◌else◌,
}
use funes_vault.Vault.Enums.{RequestStatus}
use funes_vault.Vault.Store.{MemoryRequest}
use funes_vault.MemoryRequests.OneTime.{unlink}

-- A status that the code never leaves.
abbrev pub is_final : RequestStatus → Bool
is_final RequestStatus.fulfilled = true
is_final RequestStatus.denied = true
is_final _ = false

-- The id is taken, and every row with it is fulfilled or denied.
pub record IsSpent (id : String) (rows : List MemoryRequest) : Type 0 where
  pub row : MemoryRequest
  pub listed : In row rows
  pub same_id : row.id ≡ id
  pub final : (r : MemoryRequest) → In r rows → r.id ≡ id → is_final r.status ≡ true

-- What a step does to the rows: nothing, one id's rows are rewritten while one of them is not final
-- yet, a row with a new id is added, or references to a policy are cleared.
pub data Change : List MemoryRequest → List MemoryRequest → Type 0 where
  same : {before after : List MemoryRequest} → after ≡ before → Change before after
  rewritten :
      {before after : List MemoryRequest}
      → (r : MemoryRequest) (f : MemoryRequest → MemoryRequest) → In r before
      → is_final r.status ≡ false
      → ((x : MemoryRequest) → (f x).id ≡ x.id)
      → after ≡ update_where (λ (x : MemoryRequest). x.id == r.id) f before
      → Change before after
  added :
      {before after : List MemoryRequest}
      → (r : MemoryRequest) → ((x : MemoryRequest) → In x before → x.id ≢ r.id)
      → after ≡ before ++ r ∷ []
      → Change before after
  unlinked :
      {before after : List MemoryRequest}
      → (policy_id : String) → after ≡ map (unlink policy_id) before
      → Change before after
  both :
      {before between after : List MemoryRequest}
      → Change before between
      → Change between after
      → Change before after

unlink_keeps :
    (policy_id : String) (r : MemoryRequest)
    → ((unlink policy_id r).id ≡ r.id) × ((unlink policy_id r).status ≡ r.status)
unlink_keeps policy_id r = ground arith

In-single : {x y : MemoryRequest} → In y (x ∷ []) → y ≡ x
In-single l = elim (In-cons l) [ inl e ↦ e | inr m ↦ elim m [ ] ]

-- A spent request stays spent when another id's rows are rewritten.
rewritten-IsSpent :
    (id other : String) (f : MemoryRequest → MemoryRequest) (rows : List MemoryRequest)
    → other ≢ id
    → ((x : MemoryRequest) → (f x).id ≡ x.id)
    → IsSpent id rows
    → IsSpent id (update_where (λ (x : MemoryRequest). x.id == other) f rows)
rewritten-IsSpent id other f rows ne keeps s = record {
  row = s.row;
  listed =
      let passed = eq_false_of_ne s.row.id other (λ q. ne (sym q ∙ s.same_id)) in
      subst
        (λ b.
          In (if b then f s.row else s.row)
            (update_where (λ (x : MemoryRequest). x.id == other) f rows))
        passed (In-update_where_of (λ (x : MemoryRequest). x.id == other) f s.listed);
  same_id = s.same_id;
  final =
      λ y m q. still_final y q (In-update_where (λ (x : MemoryRequest). x.id == other) f rows m);
}
  where
    still_final :
        (y : MemoryRequest)
        → y.id ≡ id
        → (x : MemoryRequest) × In x rows
          × ((((x.id == other) ≡ true) × (y ≡ f x)) ⊎ (((x.id == other) ≡ false) × (y ≡ x)))
        → is_final y.status ≡ true
    still_final y q (x, k, inl (t, e)) = absurd (
        ne (
          sym ((eq_iff x.id other).0 t)
          ∙ sym (keeps x)
          ∙ ap (λ (z : MemoryRequest). z.id) (sym e)
          ∙ q))
    still_final y q (x, k, inr (t, e)) =
        ap (λ (z : MemoryRequest). is_final z.status) e
        ∙ s.final x k (ap (λ (z : MemoryRequest). z.id) (sym e) ∙ q)

added-IsSpent :
    (id : String) (r : MemoryRequest) (rows : List MemoryRequest)
    → ((x : MemoryRequest) → In x rows → x.id ≢ r.id)
    → IsSpent id rows
    → IsSpent id (rows ++ r ∷ [])
added-IsSpent id r rows fresh s = record {
  row = s.row;
  listed = In-append_left _ s.listed;
  same_id = s.same_id;
  final = λ y m q. elim (In-append rows m) [
    | inl l ↦ s.final y l q
    | inr l ↦
        absurd (
          fresh s.row s.listed (s.same_id ∙ sym q ∙ ap (λ (z : MemoryRequest). z.id) (In-single l)))
  ];
}

unlinked-IsSpent :
    (id policy_id : String) (rows : List MemoryRequest)
    → IsSpent id rows
    → IsSpent id (map (unlink policy_id) rows)
unlinked-IsSpent id policy_id rows s = record {
  row = unlink policy_id s.row;
  listed = In-of_map (unlink policy_id) s.listed;
  same_id = (unlink_keeps policy_id s.row).0 ∙ s.same_id;
  final = λ y m q.
      let (x, k, e) = In-map (unlink policy_id) rows m in
      ap (λ (z : MemoryRequest). is_final z.status) e
      ∙ ap is_final (unlink_keeps policy_id x).1
      ∙ s.final x k
          (sym (unlink_keeps policy_id x).0 ∙ ap (λ (z : MemoryRequest). z.id) (sym e) ∙ q);
}

-- A spent request stays spent.
pub Change-IsSpent :
    (id : String) {before after : List MemoryRequest}
    → Change before after
    → IsSpent id before
    → IsSpent id after
Change-IsSpent id (same e) s = subst (IsSpent id) (sym e) s
Change-IsSpent id (rewritten {before} r f l unspent keeps e) s =
    subst (IsSpent id) (sym e)
      (rewritten-IsSpent id r.id f before (λ q. cc (s.final r l q, unspent)) keeps s)
Change-IsSpent id (added {before} r fresh e) s =
    subst (IsSpent id) (sym e) (added-IsSpent id r before fresh s)
Change-IsSpent id (unlinked {before} policy_id e) s =
    subst (IsSpent id) (sym e) (unlinked-IsSpent id policy_id before s)
Change-IsSpent id (both c d) s = Change-IsSpent id d (Change-IsSpent id c s)
