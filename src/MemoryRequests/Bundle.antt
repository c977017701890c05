-- ===== src/MemoryRequests/Bundle.antt =====
-- apps/api/src/memory-requests/bundle-compiler.service.ts: a bundle within a token budget.
pub mod Budget
pub mod Selection
use funes_vault.Common.{
  ℕ, ◌+◌, ◌-◌, ◌*◌, ◌/◌, max, String, Bool, true, false, not, ◌&&◌, ◌||◌, Option, none, some, List,
  [], ◌∷◌, ◌++◌, if◌then◌else◌, leb, ltb, nat_eq, length, take, any,
}
use funes_vault.Vault.Enums.{Sensitivity}
use funes_vault.Vault.Store.{Text, BundleItem}
use funes_vault.Policies.{is_empty}

-- `BundleCandidate`
pub record Candidate : Type 0 where
  pub id : String
  pub title : Text
  pub body : Text
  pub sensitivity : Sensitivity
  pub categories : List String
  pub relevance_score : ℕ

pub record Bundle : Type 0 where
  pub items : List BundleItem
  pub estimated_tokens : ℕ
  pub instructions : List String

-- `formatMemory`: the title, a colon and a space, the body.
abbrev pub format_memory : Candidate → Text
format_memory c = c.title ++ (b':' ∷ b' ' ∷ c.body)

-- `estimateTokens`: `Math.max(1, Math.ceil(text.length / 4))`
unfoldable pub estimate_tokens : Text → ℕ
estimate_tokens text = max 1 ((length text + 3) / 4)

-- The code units that `trimEnd` removes.
unfoldable pub is_space : ℕ → Bool
is_space c =
    leb 9 c && leb c 13
    || any (nat_eq c)
        (0x20 ∷ 0xa0 ∷ 0x1680 ∷ 0x2028 ∷ 0x2029 ∷ 0x202f ∷ 0x205f ∷ 0x3000 ∷ 0xfeff ∷ [])
    || leb 0x2000 c && leb c 0x200a

-- `trimEnd`
unfoldable pub trim_end : Text → Text
unfolding is_space
trim_end [] = []
trim_end (c ∷ text) =
    let rest = trim_end text in if is_empty rest && is_space c then [] else c ∷ rest

-- `clipToEstimatedTokens`
unfoldable pub clip_to_estimated_tokens : Text → ℕ → Text
unfolding trim_end
clip_to_estimated_tokens text token_budget =
    let max_characters = max 1 (token_budget * 4) in
    if leb (length text) max_characters
    then text
    else trim_end (take (max 1 (max_characters - 1)) text)

-- `Math.round(score * 1000) / 1000`, of a score in millionths.
abbrev pub round_score : ℕ → ℕ
round_score score = (score + 500) / 1000 * 1000

abbrev pub first_key : List String → Option String
first_key [] = none
first_key (key ∷ _) = some key

abbrev pub item_of : Candidate → Text → BundleItem
item_of c text = record {
  memory_id = c.id;
  text = text;
  category = first_key c.categories;
  sensitivity = c.sensitivity;
  relevance_score = round_score c.relevance_score;
  estimated_tokens = estimate_tokens text;
}

-- One round of the loop: the candidate is passed over, clipped, or taken whole.
unfoldable pub add_candidate : ℕ → Candidate → List BundleItem × ℕ → List BundleItem × ℕ
add_candidate token_budget c (items, estimated_tokens) =
    let text = format_memory c in
    let item_tokens = estimate_tokens text in
    let clipped = clip_to_estimated_tokens text token_budget in
    if not (is_empty items) && ltb token_budget (estimated_tokens + item_tokens)
    then (items, estimated_tokens)
    else if ltb token_budget item_tokens
    then (items ++ item_of c clipped ∷ [], estimated_tokens + estimate_tokens clipped)
    else (items ++ item_of c text ∷ [], estimated_tokens + item_tokens)

unfoldable pub add_candidates : ℕ → List Candidate → List BundleItem × ℕ → List BundleItem × ℕ
add_candidates token_budget [] bundle = bundle
add_candidates token_budget (c ∷ cs) bundle =
    add_candidates token_budget cs (add_candidate token_budget c bundle)

abbrev pub instructions : List String
instructions =
    "Use this context only for the declared task."
    ∷ "Do not retain or disclose this context beyond the declared retention." ∷ []

-- `compile`
unfoldable pub compile : List Candidate → ℕ → Bundle
unfolding add_candidates add_candidate estimate_tokens clip_to_estimated_tokens
compile candidates token_budget =
    let (items, estimated_tokens) = add_candidates token_budget candidates ([], 0) in
    record { items = items; estimated_tokens = estimated_tokens; instructions = instructions }
