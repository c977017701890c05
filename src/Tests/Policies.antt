-- ===== src/Tests/Policies.antt =====
-- The sample policy at the sample memory.
use funes_vault.Common.{◌≡◌, ◌≢◌, ◌≤◌, ◌↔◌, List, [], ◌∷◌, In, some, none, arith}
use funes_vault.Vault.Enums.{read, deny, needs_confirmation}
use funes_vault.Vault.Store.{Memory, Client, Policy}
use funes_vault.Policies.{
  evaluate_for_client, denial_reason, evaluate_candidate_memories, sort_memories,
}
use funes_vault.Policies.Disclosable.{IsDisclosable, denial_reason-eq-none_iff}
use funes_vault.Policies.Authority.{HasAuthority, evaluate_for_client-HasAuthority}
use funes_vault.Policies.Sorting.{
  evaluate_candidate_memories-allowed, evaluate_candidate_memories-decision,
}
use funes_vault.MemoryRequests.Bundle.{compile, Candidate}
use funes_vault.MemoryRequests.Bundle.Budget.{compile_within_budget}
use funes_vault.MemoryRequests.Bundle.Selection.{compile-Selects, Selects, total_tokens}
use funes_vault.MemoryRequests.Preview.{candidate_of}
use funes_vault.Tests.Sample.{start, tea, policy}

denial_reason-eq-none_iff_example :
    (denial_reason policy 1000 tea ≡ none) ↔ IsDisclosable policy 1000 tea
denial_reason-eq-none_iff_example = denial_reason-eq-none_iff policy 1000 tea

evaluate_candidate_memories-allowed_example :
    In "m1" (evaluate_candidate_memories policy (tea ∷ []) 1000).allowed
    ↔ ((m : Memory) × In m (tea ∷ []) × (m.id ≡ "m1") × IsDisclosable policy 1000 m)
evaluate_candidate_memories-allowed_example =
    evaluate_candidate_memories-allowed policy 1000 (tea ∷ []) "m1"

evaluate_candidate_memories-decision_example :
    ((evaluate_candidate_memories policy (tea ∷ []) 1000).decision ≡ deny)
    ↔ ((m : Memory) → In m (tea ∷ []) → ¬ IsDisclosable policy 1000 m)
evaluate_candidate_memories-decision_example =
    evaluate_candidate_memories-decision policy 1000 (tea ∷ [])

ask-ne-deny : needs_confirmation ≢ deny
ask-ne-deny h = cc h

evaluated_open : (evaluate_for_client start "u1" "c1" read 1000 (some (tea ∷ []))).decision ≢ deny
unfolding evaluate_for_client evaluate_candidate_memories sort_memories denial_reason
evaluated_open = ask-ne-deny

evaluate_for_client-HasAuthority_example :
    (c : Client) × (p : Policy) × ((evaluate_for_client start "u1" "c1" read 1000
        (some (tea ∷ []))).client
      ≡ some c)
    × ((evaluate_for_client start "u1" "c1" read 1000 (some (tea ∷ []))).policy ≡ some p)
    × HasAuthority start "u1" "c1" read 1000 c p
evaluate_for_client-HasAuthority_example =
    evaluate_for_client-HasAuthority start "u1" "c1" read 1000 (some (tea ∷ [])) evaluated_open

abbrev candidates : List Candidate
candidates = candidate_of tea 900000 ∷ candidate_of tea 500000 ∷ []

compile_within_budget_example : (compile candidates 1).estimated_tokens ≤ 1
compile_within_budget_example = compile_within_budget candidates 1 (omega arith)

compile-Selects_example :
    Selects candidates (compile candidates 3).items
    × ((compile candidates 3).estimated_tokens ≡ total_tokens (compile candidates 3).items)
compile-Selects_example = compile-Selects candidates 3
