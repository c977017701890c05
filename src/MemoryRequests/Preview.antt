-- ===== src/MemoryRequests/Preview.antt =====
-- apps/api/src/memory-requests/disclosure-preview.ts
pub mod Laws
pub mod Shown
use funes_vault.Common.{
  or_throw, ℕ, String, Bool, true, false, not, ◌&&◌, ◌||◌, ◌==◌, Option, none, some, List, [], ◌∷◌,
  if◌then◌else◌, leb, has, find, map, is_some, opt_eq, Result, err, ok, ◌>>=◌,
}
use funes_vault.Vault.Store.{Memory, Policy, Client, BundleItem, Snapshot, MemoryRequest, Db}
use funes_vault.Policies.{is_empty, id_of}
use funes_vault.MemoryRequests.Bundle.{Candidate, compile}
use funes_vault.MemoryRequests.Runtime.{Runtime, Error, null_access, client_revision}
use funes_vault.MemoryRequests.Disclosure.{
  Context, disclosure_context, truthy, is_approved, awaits_approval, safe_parse,
  snapshot_is_current, versions_of, is_later, get,
}
use funes_vault.MemoryRequests.Invalidation.{invalidate}

-- What retrieval proposes: a memory's id and its relevance.
pub record Proposal : Type 0 where
  pub id : String
  pub relevance_score : ℕ

pub record Preview : Type 0 where
  pub approval_expired : Bool
  pub revision : String
  pub items : List BundleItem
  pub can_approve : Bool

-- `byId.get(id)`, over a map that was built from the memories in order.
abbrev pub memory_by_id : String → List Memory → Option Memory
memory_by_id id memories = get id (map (λ (m : Memory). (m.id, m)) memories)

abbrev pub candidate_of : Memory → ℕ → Candidate
candidate_of m score = record {
  id = m.id;
  title = m.title;
  body = m.body;
  sensitivity = m.sensitivity;
  categories = m.categories;
  relevance_score = score;
}

-- `memory && context.allowed.has(c.id)`
abbrev add_eligible :
    Option Memory → Bool → ℕ → List (Memory × Candidate) → List (Memory × Candidate)
add_eligible none allowed score rest = rest
add_eligible (some m) allowed score rest =
    if allowed then (m, candidate_of m score) ∷ rest else rest

-- The proposals whose memory is at hand and allowed, each with its memory.
unfoldable pub eligible : List Memory → List String → List Proposal → List (Memory × Candidate)
eligible memories allowed [] = []
eligible memories allowed (c ∷ cs) =
    add_eligible (memory_by_id c.id memories) (has allowed c.id) c.relevance_score
      (eligible memories allowed cs)

abbrev pub or_empty : Option String → String
or_empty none = ""
or_empty (some s) = s

-- The ids that the preview looks at: those of the granted snapshot, or the proposals'.
abbrev preview_ids : MemoryRequest → Option Snapshot → List Proposal → List String
preview_ids request previous candidates =
    if is_approved request.status
    then elim previous [ none ↦ [] | some s ↦ map (λ (i : BundleItem). i.memory_id) s.items ]
    else map (λ (c : Proposal). c.id) candidates

-- The snapshot that the eligible memories give.
abbrev fresh_snapshot : Runtime → ℕ → Context → Client → List Proposal → Snapshot
fresh_snapshot rt token_budget context client candidates =
    let found = eligible context.memories context.allowed candidates in
    let bundle = compile (map (λ (e : Memory × Candidate). e.1) found) token_budget in
    record {
      items = bundle.items;
      versions = map (λ (e : Memory × Candidate). (e.0.id, e.0.updated_at)) found;
      policy_id = or_empty (id_of context.policy);
      policy_version = or_empty context.policy_version;
      client_version = client_revision rt client;
      instructions = bundle.instructions;
    }

-- An approved request shows the granted items, or none if anything has changed.
abbrev granted_snapshot : Bool → Snapshot → Option Snapshot → Bool → Snapshot
granted_snapshot approved fresh none unchanged = fresh
granted_snapshot approved fresh (some previous) unchanged =
    if approved
    then record fresh {
      items = if unchanged then previous.items else [];
      versions = previous.versions;
      instructions = previous.instructions;
    }
    else fresh

abbrev is_unchanged : Runtime → MemoryRequest → Option Snapshot → Context → ℕ → Bool
is_unchanged rt request none context now = false
is_unchanged rt request (some s) context now = snapshot_is_current rt request s context now

-- A waiting request whose policy is no longer the one that it is bound to.
abbrev is_outdated : MemoryRequest → Context → Bool
is_outdated request context =
    awaits_approval request.status
    && truthy request.policy_id
    && (not context.bound || not (opt_eq request.policy_version context.policy_version))

-- The row and the tables after the check of the policy.
abbrev refresh : Runtime → MemoryRequest → Context → Db → Result Error (MemoryRequest × Db)
refresh rt request context db =
    if is_outdated request context then invalidate rt request context db else ok (request, db)

-- The snapshot and the preview of a row that was checked.
abbrev show :
    Runtime
    → MemoryRequest
    → Option Snapshot
    → Context
    → Client
    → List Proposal
    → ℕ
    → Snapshot × Preview
show rt request previous context client candidates now =
    let approved = is_approved request.status in
    let snapshot =
      granted_snapshot approved (fresh_snapshot rt request.token_budget context client candidates)
        previous (is_unchanged rt request previous context now) in
    (
      snapshot,
      record {
        approval_expired = approved && not (is_later request.approval_expires_at now);
        revision = rt.preview_digest request.id snapshot;
        items = snapshot.items;
        can_approve =
            awaits_approval request.status && context.bound && not (is_empty snapshot.items);
      },
    )

-- `previewDisclosure`
unfoldable pub preview_disclosure :
    Runtime → Db → MemoryRequest → List Proposal → ℕ → Result Error ((Snapshot × Preview) × Db)
preview_disclosure rt db request candidates now =
    let previous = safe_parse request.review_snapshot in
    let context = disclosure_context db request (preview_ids request previous candidates) now in
    do
      client ← or_throw context.client null_access
      checked ← refresh rt request context db
      ok (show rt checked.0 previous context client candidates now, checked.1)
