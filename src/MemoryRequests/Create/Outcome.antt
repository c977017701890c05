-- ===== src/MemoryRequests/Create/Outcome.antt =====
-- What a new request is answered with, and what is recorded of it.
use funes_vault.Common.{
  ℕ, String, ◌≡◌, refl, sym, ap, ◌∙◌, subst, ◌≢◌, ◌⊎◌, inl, inr, Bool, true, false, some, List, [],
  ◌∷◌, ◌++◌, In, here, In-filter, In-of_filter, In-map, In-of_map, arith, has, has_iff, eq_iff,
  filter, map, if◌then◌else◌,
}
use funes_vault.Vault.Enums.{
  Decision, allow, needs_confirmation, deny, RequestStatus, memory_disclosure,
  memory_request_denied, read,
}
use funes_vault.Vault.Store.{
  Memory, Policy, Client, BundleItem, MemoryRequest, AuditEvent, Db, find_memories,
}
use funes_vault.Policies.{Evaluation, is_empty}
use funes_vault.Policies.Disclosable.{IsDisclosable}
use funes_vault.Policies.Authority.{HasAuthority}
use funes_vault.MemoryRequests.Bundle.{Candidate}
use funes_vault.MemoryRequests.Bundle.Selection.{Discloses, compile-Selects, compile-filled}
use funes_vault.MemoryRequests.Runtime.{Runtime}
use funes_vault.MemoryRequests.Disclosure.Current.{HasUniqueIds}
use funes_vault.MemoryRequests.Preview.{candidate_of}
use funes_vault.MemoryRequests.Preview.Shown.{Selects-sound}
use funes_vault.MemoryRequests.Collection.{Response, stored_items, item_ids}
use funes_vault.MemoryRequests.Create.Released.{memory_of, IsReleased}
use funes_vault.MemoryRequests.Create.{status_of, add_request, answer, allowed_bundle}

-- An item of an immediate answer: the client has the authority to read, its policy needs no
-- confirmation, and the item is the beginning of the current text of a covered memory of the owner.
pub record IsAnswered (db : Db) (user_id client_id : String) (now : ℕ) (i : BundleItem)
    : Type 0 where
  pub client : Client
  pub policy : Policy
  pub authority : HasAuthority db user_id client_id read now client policy
  pub unconfirmed : policy.requires_confirmation ≡ false
  pub memory : Memory
  pub score : ℕ
  pub listed : In memory db.memories
  pub owner : memory.user_id ≡ user_id
  pub disclosable : IsDisclosable policy now memory
  pub discloses : Discloses (candidate_of memory score) i

abbrev pub IsListed : Db → String → Memory → Type 0
IsListed db user_id m = In m db.memories × (m.user_id ≡ user_id)

pub live_memory-IsListed :
    (db : Db) (user_id : String) (ids : List String) (b : Bool) (m : Memory)
    → In m (if b then [] else find_memories db user_id ids)
    → IsListed db user_id m
live_memory-IsListed db user_id ids true m l = elim l [ ]
live_memory-IsListed db user_id ids false m l =
    let (k, t) = In-filter _ db.memories l in (k, ground (arith, eq_iff m.user_id user_id))

-- The candidates of the bundle are the memories at hand whose id is allowed.
allowed_candidate :
    (policy : Evaluation) (current : List (Memory × ℕ)) (c : Candidate)
    → In c (
        map
          (λ (x : Memory × ℕ). candidate_of x.0 x.1)
          (filter (λ (x : Memory × ℕ). has policy.allowed x.0.id) current))
    → (x : Memory × ℕ) × In x current × In x.0.id policy.allowed × (c ≡ candidate_of x.0 x.1)
allowed_candidate policy current c l =
    let (x, k, e) = In-map (λ (x : Memory × ℕ). candidate_of x.0 x.1) _ l in
    let (k', t) = In-filter _ current k in (x, k', (has_iff policy.allowed x.0.id).0 t, e)

pub bundle_sound :
    (db : Db) (user_id client_id : String) (now budget : ℕ) (current : List (Memory × ℕ))
    (policy : Evaluation) (i : BundleItem)
    → HasUniqueIds db
    → ((x : Memory × ℕ) → In x current → IsListed db user_id (memory_of x))
    → IsReleased db user_id client_id now current policy
    → In i (allowed_bundle policy current budget).items
    → IsAnswered db user_id client_id now i
bundle_sound db user_id client_id now budget current policy i unique listed r l =
    let (c, k, d) = Selects-sound (compile-Selects _ budget).0 l in
    let (x, kx, allowed, e) = allowed_candidate policy current c k in
    let (m, lm, same_id, covered) = r.covered x.0.id allowed in
    let (y, ly, ey) = In-map memory_of current lm in
    let m_listed : In m db.memories = subst (λ z. In z db.memories) (sym ey) (listed y ly).0 in
    record {
      client = r.client;
      policy = r.bound;
      authority = r.authority;
      unconfirmed = r.unconfirmed;
      memory = x.0;
      score = x.1;
      listed = (listed x kx).0;
      owner = (listed x kx).1;
      disclosable =
          subst (IsDisclosable r.bound now) (unique m x.0 m_listed (listed x kx).0 same_id) covered;
      discloses = subst (λ z. Discloses z i) e d;
    }

In-of_not_empty : {A : Type 0} (xs : List A) → is_empty xs ≡ false → (a : A) × In a xs
In-of_not_empty [] h = cc h
In-of_not_empty (x ∷ xs) h = (x, here refl)

pub bundle_filled :
    (db : Db) (user_id client_id : String) (now budget : ℕ) (current : List (Memory × ℕ))
    (policy : Evaluation)
    → IsReleased db user_id client_id now current policy
    → (allowed_bundle policy current budget).items ≢ []
bundle_filled db user_id client_id now budget current policy r =
    let (id, l) = In-of_not_empty policy.allowed r.some_allowed in
    let (m, lm, same_id, covered) = r.covered id l in
    let (x, lx, e) = In-map memory_of current lm in
    let named : In x.0.id policy.allowed =
      subst (λ s. In s policy.allowed) (sym same_id ∙ ap (λ (y : Memory). y.id) e) l in
    let k =
      In-of_map (λ (y : Memory × ℕ). candidate_of y.0 y.1)
        (In-of_filter (λ (y : Memory × ℕ). has policy.allowed y.0.id) lx
          ((has_iff policy.allowed x.0.id).1 named)) in
    compile-filled _ budget (λ e. elim (subst (λ cs. In (candidate_of x.0 x.1) cs) e k) [ ])

-- Nothing is shared; a confirmation is asked for, which writes nothing more.
pub record IsAsked (db : Db) (resp : Response) (db' : Db) : Type 0 where
  pub status : resp.status ≡ RequestStatus.needs_user_approval
  pub no_items : resp.items ≡ []
  pub nothing_stored : db'.items ≡ db.items
  pub no_event : db'.events ≡ db.events

-- Nothing is shared, and the refusal is recorded.
pub record IsRefused (db : Db) (resp : Response) (db' : Db) : Type 0 where
  pub status : resp.status ≡ RequestStatus.denied
  pub no_items : resp.items ≡ []
  pub nothing_stored : db'.items ≡ db.items
  pub event : AuditEvent
  pub recorded : db'.events ≡ db.events ++ event ∷ []
  pub named : resp.audit_event_id ≡ some event.id
  pub event_kind : event.kind ≡ memory_request_denied
  pub no_memories : event.memory_ids ≡ []

-- Something is shared: every item is stored with the request, and the event names their memories.
pub record IsShared (db : Db) (resp : Response) (db' : Db) : Type 0 where
  pub status : resp.status ≡ RequestStatus.fulfilled
  pub some_items : resp.items ≢ []
  pub all_stored : db'.items ≡ db.items ++ stored_items resp.request_id resp.items
  pub event : AuditEvent
  pub recorded : db'.events ≡ db.events ++ event ∷ []
  pub named : resp.audit_event_id ≡ some event.id
  pub event_kind : event.kind ≡ memory_disclosure
  pub memories : event.memory_ids ≡ item_ids resp.items

abbrev pub IsAnswer : Db → Response × Db → Type 0
IsAnswer db (resp, db') = IsShared db resp db' ⊎ IsAsked db resp db' ⊎ IsRefused db resp db'

pub answer-IsAnswer :
    (rt : Runtime) (db : Db) (r : MemoryRequest) (policy : Evaluation) (current : List (Memory × ℕ))
    (d : Decision)
    → r.status ≡ status_of d
    → (d ≡ allow → (allowed_bundle policy current r.token_budget).items ≢ [])
    → IsAnswer db (answer rt (add_request r db) r policy current d)
unfolding answer
answer-IsAnswer rt db r policy current allow e filled = inl (record {
  status = e;
  some_items = filled refl;
  all_stored = refl;
  event = _;
  recorded = refl;
  named = refl;
  event_kind = refl;
  memories = refl;
})
answer-IsAnswer rt db r policy current needs_confirmation e filled =
    inr (inl (record { status = e; no_items = refl; nothing_stored = refl; no_event = refl }))
answer-IsAnswer rt db r policy current deny e filled = inr (
    inr (record {
      status = e;
      no_items = refl;
      nothing_stored = refl;
      event = _;
      recorded = refl;
      named = refl;
      event_kind = refl;
      no_memories = refl;
    }))

pub answer_items :
    (rt : Runtime) (db : Db) (r : MemoryRequest) (policy : Evaluation) (current : List (Memory × ℕ))
    (d : Decision) (i : BundleItem)
    → In i (answer rt db r policy current d).0.items
    → (d ≡ allow) × In i (allowed_bundle policy current r.token_budget).items
unfolding answer
answer_items rt db r policy current allow i l = (refl, l)
answer_items rt db r policy current needs_confirmation i l = elim l [ ]
answer_items rt db r policy current deny i l = elim l [ ]
