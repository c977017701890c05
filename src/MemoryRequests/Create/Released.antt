-- ===== src/MemoryRequests/Create/Released.antt =====
-- What stands behind an immediate answer.
use funes_vault.Common.{
  ℕ, String, ◌≡◌, sym, ap, ◌∙◌, subst, ◌≢◌, ◌⊎◌, inl, inr, false, some, List, [], ◌∷◌, In, In-cons,
  map, Option-cases,
}
use funes_vault.Vault.Enums.{allow, deny, read}
use funes_vault.Vault.Store.{Memory, Policy, Client, Db}
use funes_vault.Policies.{Evaluation, evaluate_for_client, evaluate_candidate_memories, is_empty}
use funes_vault.Policies.Disclosable.{IsDisclosable}
use funes_vault.Policies.Authority.{
  HasAuthority, evaluate_for_client-HasAuthority, evaluate_for_client-candidates,
}
use funes_vault.Policies.Sorting.{
  evaluate_candidate_memories-allowed, evaluate_candidate_memories-allow,
}
use funes_vault.MemoryRequests.Preview.{Proposal, memory_by_id}
use funes_vault.MemoryRequests.Preview.Shown.{memory_by_id_sound}
use funes_vault.MemoryRequests.Create.{current_memories}

abbrev pub memory_of : Memory × ℕ → Memory
memory_of c = c.0

pub current_memories_sound :
    (live : List Memory) (found : List Proposal) (c : Memory × ℕ)
    → In c (current_memories live found)
    → In (memory_of c) live
unfolding current_memories
current_memories_sound live [] c l = elim l [ ]
current_memories_sound live (f ∷ fs) c l = elim (Option-cases (memory_by_id f.id live)) [
  | inl n ↦ current_memories_sound live fs c (rw n at l)
  | inr (m, n) ↦ elim (In-cons (rw n at l)) [
    | inr k ↦ current_memories_sound live fs c k
    | inl e ↦
        subst (λ (x : Memory × ℕ). In (memory_of x) live) (sym e)
          (memory_by_id_sound f.id live m n).0
  ]
]

-- The evaluation that a new request is decided by.
abbrev pub IsDecided : Db → String → String → ℕ → List (Memory × ℕ) → Evaluation → Type 0
IsDecided db user_id client_id now current policy =
    (policy.decision ≡ deny)
    ⊎ (policy ≡ evaluate_for_client db user_id client_id read now (some (map memory_of current)))

-- What stands behind an immediate answer: the client's authority, under a policy that needs no
-- confirmation, and its evaluation of the memories at hand.
pub record IsReleased (db : Db) (user_id client_id : String) (now : ℕ) (current : List (Memory × ℕ))
    (policy : Evaluation) : Type 0 where
  pub client : Client
  pub bound : Policy
  pub authority : HasAuthority db user_id client_id read now client bound
  pub unconfirmed : bound.requires_confirmation ≡ false
  pub some_allowed : is_empty policy.allowed ≡ false
  pub covered :
      (id : String)
      → In id policy.allowed
      → (m : Memory) × In m (map memory_of current) × (m.id ≡ id) × IsDisclosable bound now m

pub decided-IsReleased :
    (db : Db) (user_id client_id : String) (now : ℕ) (current : List (Memory × ℕ))
    (policy : Evaluation)
    → IsDecided db user_id client_id now current policy
    → policy.decision ≡ allow
    → IsReleased db user_id client_id now current policy
decided-IsReleased db user_id client_id now current policy (inl refused) h = cc (refused, h)
decided-IsReleased db user_id client_id now current policy (inr e) h =
    let cs = map memory_of current in
    let live = evaluate_for_client db user_id client_id read now (some cs) in
    let allowed : live.decision ≡ allow = ap (λ (x : Evaluation). x.decision) (sym e) ∙ h in
    let open_gate : live.decision ≢ deny = λ q. cc (allowed, q) in
    let (c, p, ec, ep, authority) =
      evaluate_for_client-HasAuthority db user_id client_id read now (some cs) open_gate in
    let same = evaluate_for_client-candidates db user_id client_id read now cs p open_gate ep in
    let (filled, unconfirmed) =
      evaluate_candidate_memories-allow p now cs (ap (λ r. r.decision) (sym same) ∙ allowed) in
    let ids : policy.allowed ≡ (evaluate_candidate_memories p cs now).allowed =
      ap (λ (x : Evaluation). x.allowed) e ∙ ap (λ r. r.allowed) same in
    record {
      client = c;
      bound = p;
      authority = authority;
      unconfirmed = unconfirmed;
      some_allowed = ap is_empty ids ∙ filled;
      covered = λ id l.
          (evaluate_candidate_memories-allowed p now cs id).0 (subst (λ xs. In id xs) ids l);
    }
