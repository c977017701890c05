-- ===== src/MemoryRequests/Collection/Granted.antt =====
-- What a client must have been granted to collect anything, and what is recorded then.
use funes_vault.Vault.Store.{AuditEvent, ReviewSnapshot, blank}
use funes_vault.MemoryRequests.Collection.Delivery.{result_cases}
use funes_vault.Common.{
  subst, ℕ, ◌<◌, String, ◌≡◌, refl, sym, ◌≢◌, inl, inr, true, Option, none, some, [], ◌∷◌, ◌++◌,
  arith, In, ok,
}
use funes_vault.Vault.Enums.{memory_disclosure, RequestStatus}
use funes_vault.Vault.Store.{BundleItem, Snapshot, stored, MemoryRequest, Db}
use funes_vault.MemoryRequests.Runtime.{Runtime}
use funes_vault.MemoryRequests.Disclosure.{is_approved, safe_parse, is_later}
use funes_vault.MemoryRequests.Disclosure.Lock.{IsLocked, lock_sound}
use funes_vault.MemoryRequests.Disclosure.Current.{
  HasUniqueIds, IsCurrent, snapshot_is_current_sound,
}
use funes_vault.MemoryRequests.Collection.{stored_items, Response, result, delivery_event, item_ids}

-- A collected item: the caller's own request was approved and the approval has not run out, and the
-- item stands in the approved snapshot, which is current.
pub record IsGranted (rt : Runtime) (db : Db) (user_id client_id id : String) (now : ℕ)
    (i : BundleItem) : Type 0 where
  pub request : MemoryRequest
  pub snapshot : Snapshot
  pub locked : IsLocked db user_id id (some client_id) request
  pub approved : request.status ≡ RequestStatus.approved
  pub expires : ℕ
  pub expires_at : request.approval_expires_at ≡ some expires
  pub in_time : now < expires
  pub granted : request.review_snapshot ≡ stored snapshot
  pub listed : In i snapshot.items
  pub current : IsCurrent rt db request snapshot now i

not-In-nil : {A : Type 0} {a : A} → ¬ In a []
not-In-nil l = elim l [ ]

is_approved_sound : (s : RequestStatus) → is_approved s ≡ true → s ≡ RequestStatus.approved
is_approved_sound s h = ground arith

later_sound : (o : Option ℕ) (now : ℕ) → is_later o now ≡ true → (t : ℕ) × (o ≡ some t) × (now < t)
later_sound none now h = cc h
later_sound (some t) now h = (t, refl, ground arith)

safe_parse_sound : (v : ReviewSnapshot) (s : Snapshot) → safe_parse v ≡ some s → v ≡ stored s
safe_parse_sound blank s h = cc h
safe_parse_sound (stored x) s h = ground arith

-- Nothing is collected but under a live approval: each item that a collection returns stands in the
-- snapshot that the owner approved for this client, the approval has not run out, and at that
-- moment the client has the authority to read and the policy, at the approved version, covers the
-- memory, which is the owner's and unchanged since the approval.
pub result-IsGranted :
    (rt : Runtime) (db : Db) (user_id client_id id : String) (now : ℕ) (resp : Response) (db' : Db)
    (i : BundleItem)
    → HasUniqueIds db
    → result rt db user_id client_id id now ≡ ok (resp, db')
    → In i resp.items
    → IsGranted rt db user_id client_id id now i
result-IsGranted rt db user_id client_id id now resp db' i unique h l =
    elim (result_cases rt db user_id client_id id now resp db' h) [
      | inl none_shared ↦ absurd (not-In-nil (subst (λ is. In i is) none_shared l))
      | inr (r, s, d, e) ↦
          let (t, et, lt) = later_sound r.approval_expires_at now d.in_time in
          let l' : In i s.items = subst (λ (x : Response × Db). In i x.0.items) (sym e) l in
          record {
            request = r;
            snapshot = s;
            locked = lock_sound db user_id id (some client_id) r d.locked;
            approved = is_approved_sound r.status d.approved;
            expires = t;
            expires_at = et;
            in_time = lt;
            granted = safe_parse_sound r.review_snapshot s d.parsed;
            listed = l';
            current =
                snapshot_is_current_sound rt db r s (item_ids s.items) now i unique d.current l';
          }
    ]

-- The items and one audit event of an answer are on record, and the live tables are untouched.
pub record IsRecorded (db : Db) (user_id client_id id : String) (resp : Response) (db' : Db)
    : Type 0 where
  pub event : AuditEvent
  pub items_stored : db'.items ≡ db.items ++ stored_items id resp.items
  pub event_added : db'.events ≡ db.events ++ event ∷ []
  pub event_answered : resp.audit_event_id ≡ some event.id
  pub event_kind : event.kind ≡ memory_disclosure
  pub event_memories : event.memory_ids ≡ item_ids resp.items
  pub event_owner : event.user_id ≡ user_id
  pub event_client : event.client_id ≡ client_id
  pub event_request : event.memory_request_id ≡ id
  pub same_clients : db'.clients ≡ db.clients
  pub same_policies : db'.policies ≡ db.policies
  pub same_memories : db'.memories ≡ db.memories

-- What a collection shares is on record: where it returns any item, the returned items are stored
-- with the request, and one audit event is added, the answer's own, which names the owner, the
-- client, the request and exactly the returned items; clients, policies and memories stay as they
-- were.
pub result-IsRecorded :
    (rt : Runtime) (db : Db) (user_id client_id id : String) (now : ℕ) (resp : Response) (db' : Db)
    → result rt db user_id client_id id now ≡ ok (resp, db')
    → resp.items ≢ []
    → IsRecorded db user_id client_id id resp db'
result-IsRecorded rt db user_id client_id id now resp db' h shared =
    elim (result_cases rt db user_id client_id id now resp db' h) [
      | inl none_shared ↦ absurd (shared none_shared)
      | inr (r, s, d, e) ↦
          subst (λ (x : Response × Db). IsRecorded db user_id client_id id x.0 x.1) e
            (record {
              event = delivery_event rt db r user_id client_id id s;
              items_stored = refl;
              event_added = refl;
              event_answered = refl;
              event_kind = refl;
              event_memories = refl;
              event_owner = refl;
              event_client = refl;
              event_request = refl;
              same_clients = refl;
              same_policies = refl;
              same_memories = refl;
            })
    ]
