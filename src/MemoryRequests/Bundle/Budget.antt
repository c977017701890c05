-- ===== src/MemoryRequests/Bundle/Budget.antt =====
-- The token budget of a bundle.
use funes_vault.Common.{
  ℕ, ◌-◌, ◌*◌, ◌≤◌, max, ◌≡◌, refl, true, List, [], ◌∷◌, arith, length, take, length-take,
}
use funes_vault.Vault.Store.{Text, BundleItem}
use funes_vault.Policies.{is_empty}
use funes_vault.MemoryRequests.Bundle.{
  Candidate, estimate_tokens, trim_end, clip_to_estimated_tokens, add_candidate, add_candidates,
  compile, format_memory,
}

length-trim_end : (text : Text) → length (trim_end text) ≤ length text
unfolding trim_end
length-trim_end [] = omega arith
length-trim_end (c ∷ text) = ground (arith, length-trim_end text)

-- A text longer than the budget allows is cut down to it.
estimate_tokens-clip :
    (text : Text) (budget : ℕ)
    → 1 ≤ budget
    → estimate_tokens (clip_to_estimated_tokens text budget) ≤ budget
unfolding estimate_tokens clip_to_estimated_tokens
estimate_tokens-clip text budget h = ground (
  arith,
  length-trim_end (take (max 1 (max 1 (budget * 4) - 1)) text),
  length-take (max 1 (max 1 (budget * 4) - 1)) text,
)

-- The running total stays within the budget, and an empty bundle counts nothing.
abbrev Within : ℕ → List BundleItem × ℕ → Type 0
Within budget (items, total) = (total ≤ budget) × (is_empty items ≡ true → total ≡ 0)

add_candidate-Within :
    (budget : ℕ) (c : Candidate) (b : List BundleItem × ℕ)
    → 1 ≤ budget
    → Within budget b
    → Within budget (add_candidate budget c b)
unfolding add_candidate
add_candidate-Within budget c ([], total) h w =
    ground (arith, estimate_tokens-clip (format_memory c) budget h)
add_candidate-Within budget c (i ∷ is, total) h w =
    ground (arith, estimate_tokens-clip (format_memory c) budget h)

add_candidates-Within :
    (budget : ℕ) (cs : List Candidate) (b : List BundleItem × ℕ)
    → 1 ≤ budget
    → Within budget b
    → Within budget (add_candidates budget cs b)
unfolding add_candidates
add_candidates-Within budget [] b h w = w
add_candidates-Within budget (c ∷ cs) b h w =
    add_candidates-Within budget cs (add_candidate budget c b) h
      (add_candidate-Within budget c b h w)

-- A bundle never costs more tokens than a positive budget allows.
pub compile_within_budget :
    (cs : List Candidate) (budget : ℕ) → 1 ≤ budget → (compile cs budget).estimated_tokens ≤ budget
unfolding compile
compile_within_budget cs budget h =
    (add_candidates-Within budget cs ([], 0) h (omega arith, λ _. refl)).0
