-- ===== src/MemoryRequests/Disclosure/Current.antt =====
-- What a current snapshot says of the live tables.
use mathlib.Core.Bool.{and-eq-true_iff}
use funes_vault.Common.{
  some_cancel, ℕ, [], ◌≢◌, if◌then◌else◌, In-filter, String, ◌≡◌, sym, ◌∙◌, ap, Bool, true, false,
  none, some, List, In, arith, all_sound, has, has_iff, opt_is_iff, opt_eq_iff, eq_iff, Bool-cases,
  inl, inr,
}
use funes_vault.Vault.Enums.{read, deny}
use funes_vault.Vault.Store.{
  Memory, Policy, Client, BundleItem, Snapshot, MemoryRequest, Db, find_memories,
}
use funes_vault.Policies.{Evaluation, evaluate_for_client, evaluate_candidate_memories}
use funes_vault.Policies.Sorting.{evaluate_candidate_memories-allowed}
use funes_vault.Policies.Disclosable.{IsDisclosable}
use funes_vault.Policies.Authority.{
  HasAuthority, evaluate_for_client-HasAuthority, gate_allows_nothing, evaluate_for_client-version,
}
use funes_vault.MemoryRequests.Runtime.{Runtime, client_revision}
use funes_vault.MemoryRequests.Disclosure.Entries.{get-versions_of}
use funes_vault.MemoryRequests.Disclosure.{
  Context, disclosure_context, get, versions_of, snapshot_is_current, header_is_current,
  item_is_current, denies, truthy, context_result,
}

-- The item may be given to the client now: the memory is the owner's, the policy covers it, and it
-- has not been changed since the version was recorded.
pub record IsCurrentItem (db : Db) (user_id : String) (p : Policy) (now : ℕ) (s : Snapshot)
    (i : BundleItem) : Type 0 where
  pub memory : Memory
  pub listed : In memory db.memories
  pub same_id : memory.id ≡ i.memory_id
  pub owner : memory.user_id ≡ user_id
  pub disclosable : IsDisclosable p now memory
  pub unchanged : get i.memory_id s.versions ≡ some memory.updated_at

-- Ids are primary keys: two listed memories with one id are the same row.
abbrev pub HasUniqueIds : Db → Type 0
HasUniqueIds db = (m k : Memory) → In m db.memories → In k db.memories → m.id ≡ k.id → m ≡ k

abbrev gate_of : Db → MemoryRequest → ℕ → Evaluation
gate_of db r now = evaluate_for_client db r.user_id r.client_id read now none

-- A memory of the context, found under an id, that the policy covers.
abbrev Covered : Db → MemoryRequest → List String → ℕ → Policy → String → Type 0
Covered db r ids now p id =
    (m : Memory) × In m (disclosure_context db r ids now).memories
    × (m.id ≡ id)
    × IsDisclosable p now m

has_if :
    (b : Bool) (xs : List String) (id : String)
    → has (if b then xs else []) id ≡ true
    → has xs id ≡ true
has_if true xs id h = h
has_if false xs id h = cc h

context_result_sound :
    (gate : Evaluation) (ms : List Memory) (now : ℕ) (id : String)
    → gate.allowed ≡ []
    → has (context_result gate ms now).allowed id ≡ true
    → (gate.decision ≢ deny)
      × ((p : Policy)
          → gate.policy ≡ some p
          → has (evaluate_candidate_memories p ms now).allowed id ≡ true)
context_result_sound gate ms now id none_yet h = elim (Bool-cases (denies gate.decision)) [
  | inl d ↦ absurd (nothing (rw (d, none_yet) at h))
  | inr a ↦ (λ e. cc (a, ap denies e), λ p e. rw (a, e) at h)
]
  where
    nothing : has [] id ≡ true → ⊥
    nothing e = cc e

-- Whatever a context allows, it allows by the client's authority, and the policy covers it.
pub allowed_sound :
    (db : Db) (r : MemoryRequest) (ids : List String) (now : ℕ) (id : String)
    → has (disclosure_context db r ids now).allowed id ≡ true
    → (c : Client) × (p : Policy) × ((disclosure_context db r ids now).client ≡ some c)
      × ((disclosure_context db r ids now).policy ≡ some p)
      × HasAuthority db r.user_id r.client_id read now c p
      × Covered db r ids now p id
unfolding disclosure_context
allowed_sound db r ids now id h =
    let gate = gate_of db r now in
    let ms = (disclosure_context db r ids now).memories in
    let (open_gate, covers) =
      context_result_sound gate ms now id (gate_allows_nothing db r.user_id r.client_id read now)
        (has_if _ (context_result gate ms now).allowed id h) in
    let (c, p, ec, ep, authority) =
      evaluate_for_client-HasAuthority db r.user_id r.client_id read now none open_gate in
    (
      c,
      p,
      ec,
      ep,
      authority,
      (evaluate_candidate_memories-allowed p now ms id).0 ((has_iff _ id).0 (covers p ep)),
    )

pub context_memories_listed :
    (db : Db) (r : MemoryRequest) (ids : List String) (now : ℕ) (m : Memory)
    → In m (disclosure_context db r ids now).memories
    → In m db.memories × (m.user_id ≡ r.user_id)
unfolding disclosure_context
context_memories_listed db r ids now m l =
    listed (denies (gate_of db r now).decision) (truthy r.policy_id) l
  where
    listed :
        (b d : Bool)
        → In m (if b then [] else if d then find_memories db r.user_id ids else [])
        → In m db.memories × (m.user_id ≡ r.user_id)
    listed true d l = elim l [ ]
    listed false false l = elim l [ ]
    listed false true l =
        let (k, t) = In-filter _ db.memories l in (k, ground (arith, eq_iff m.user_id r.user_id))

-- The tests of `snapshotIsCurrent` that concern the items.
item_tests :
    (rt : Runtime) (r : MemoryRequest) (s : Snapshot) (context : Context) (now : ℕ) (i : BundleItem)
    → snapshot_is_current rt r s context now ≡ true
    → In i s.items
    → (has context.allowed i.memory_id ≡ true)
      × (get i.memory_id (versions_of context.memories) ≡ get i.memory_id s.versions)
unfolding snapshot_is_current
item_tests rt r s context now i h l =
    let t = all_sound (item_is_current s context) ((and-eq-true_iff _ _).0 h).1 l in
    (((and-eq-true_iff _ _).0 t).0, (opt_eq_iff _ _).0 ((and-eq-true_iff _ _).0 t).1)

-- The tests that concern the request, the policy and the client.
header_tests :
    (rt : Runtime) (r : MemoryRequest) (s : Snapshot) (context : Context) (now : ℕ)
    → snapshot_is_current rt r s context now ≡ true
    → header_is_current rt r s context now ≡ true
unfolding snapshot_is_current
header_tests rt r s context now h = ((and-eq-true_iff _ _).0 h).0

-- What those tests compare, on a context whose client and policy are known.
header_facts :
    (rt : Runtime) (r : MemoryRequest) (s : Snapshot) (context : Context) (now : ℕ) (c : Client)
    (p : Policy)
    → header_is_current rt r s context now ≡ true
    → context.client ≡ some c
    → context.policy ≡ some p
    → (r.policy_id ≡ some s.policy_id)
      × (r.policy_version ≡ some s.policy_version)
      × (p.id ≡ s.policy_id)
      × (context.policy_version ≡ some s.policy_version)
      × (client_revision rt c ≡ s.client_version)
header_facts rt r s context now c p h ec ep = ground (
  arith,
  opt_is_iff r.policy_id s.policy_id,
  opt_is_iff r.policy_version s.policy_version,
  opt_is_iff context.policy_version s.policy_version,
  eq_iff p.id s.policy_id,
  eq_iff (client_revision rt c) s.client_version,
)

context_version :
    (db : Db) (r : MemoryRequest) (ids : List String) (now : ℕ) (p : Policy)
    → (disclosure_context db r ids now).policy ≡ some p
    → (disclosure_context db r ids now).policy_version ≡ some p.updated_at
unfolding disclosure_context
context_version db r ids now p h =
    evaluate_for_client-version db r.user_id r.client_id read now none p h

-- A current snapshot under its live context: it has not run out, the request, the snapshot and the
-- live policy are at one version, the client has not changed, and every item may be given, as it
-- was when it was approved.
pub record IsCurrent (rt : Runtime) (db : Db) (r : MemoryRequest) (s : Snapshot) (now : ℕ)
    (i : BundleItem) : Type 0 where
  pub client : Client
  pub policy : Policy
  pub authority : HasAuthority db r.user_id r.client_id read now client policy
  pub same_policy : (r.policy_id ≡ some policy.id) × (s.policy_id ≡ policy.id)
  pub same_version :
      (r.policy_version ≡ some policy.updated_at) × (s.policy_version ≡ policy.updated_at)
  pub same_client : s.client_version ≡ client_revision rt client
  pub current : IsCurrentItem db r.user_id policy now s i

pub snapshot_is_current_sound :
    (rt : Runtime) (db : Db) (r : MemoryRequest) (s : Snapshot) (ids : List String) (now : ℕ)
    (i : BundleItem)
    → HasUniqueIds db
    → snapshot_is_current rt r s (disclosure_context db r ids now) now ≡ true
    → In i s.items
    → IsCurrent rt db r s now i
snapshot_is_current_sound rt db r s ids now i unique h l =
    let context = disclosure_context db r ids now in
    let (allowed, version) = item_tests rt r s context now i h l in
    let head = header_tests rt r s context now h in
    let (c, p, ec, ep, authority, (m, ml, mi, covered)) =
      allowed_sound db r ids now i.memory_id allowed in
    let (listed, owner) = context_memories_listed db r ids now m ml in
    let (k, kl, ki, kv) = get-versions_of context.memories m ml in
    let (pid, pver, same_p, live, same_c) = header_facts rt r s context now c p head ec ep in
    let at_version : s.policy_version ≡ p.updated_at =
      some_cancel (sym live ∙ context_version db r ids now p ep) in
    record {
      client = c;
      policy = p;
      authority = authority;
      same_policy = (pid ∙ ap some (sym same_p), sym same_p);
      same_version = (pver ∙ ap some at_version, at_version);
      same_client = sym same_c;
      current = record {
        memory = m;
        listed = listed;
        same_id = mi;
        owner = owner;
        disclosable = covered;
        unchanged =
            sym version
            ∙ ap (λ id. get id (versions_of context.memories)) (sym mi)
            ∙ kv
            ∙ ap (λ (x : Memory). some x.updated_at)
                (unique k m (context_memories_listed db r ids now k kl).0 listed ki);
      };
    }
