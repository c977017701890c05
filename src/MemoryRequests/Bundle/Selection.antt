-- ===== src/MemoryRequests/Bundle/Selection.antt =====
-- Which candidates a bundle discloses, and what of each.
use mathlib.Core.List.{append_assoc, append-nil}
use native.Mathlib.Nat.{add_assoc, add-zero}
use funes_vault.Common.{
  ℕ, ◌+◌, ◌-◌, ◌*◌, max, ◌≡◌, refl, sym, ap, ◌∙◌, ◌≢◌, not, ◌&&◌, List, [], ◌∷◌, ◌++◌, arith, leb,
  ltb, length, take, drop, take-append-drop, Bool-cases, inl, inr, ◌⊎◌,
}
use funes_vault.Vault.Store.{Text, BundleItem}
use funes_vault.Policies.{is_empty}
use funes_vault.MemoryRequests.Bundle.{
  Candidate, estimate_tokens, trim_end, clip_to_estimated_tokens, add_candidate, add_candidates,
  compile, is_space, format_memory, item_of,
}

-- The item discloses a beginning of the candidate's formatted text and nothing else, under the
-- candidate's id and sensitivity.
pub record Discloses (c : Candidate) (i : BundleItem) : Type 0 where
  pub same_memory : i.memory_id ≡ c.id
  pub same_sensitivity : i.sensitivity ≡ c.sensitivity
  pub rest : Text
  pub beginning : i.text ++ rest ≡ format_memory c
  pub counted : i.estimated_tokens ≡ estimate_tokens i.text

-- The items disclose some of the candidates, each at most once and in the candidates' order.
pub data Selects : List Candidate → List BundleItem → Type 0 where
  nothing : Selects [] []
  passed :
      {c : Candidate} {cs : List Candidate} {is : List BundleItem}
      → Selects cs is
      → Selects (c ∷ cs) is
  taken :
      {c : Candidate} {i : BundleItem} {cs : List Candidate} {is : List BundleItem}
      → Discloses c i
      → Selects cs is
      → Selects (c ∷ cs) (i ∷ is)

abbrev pub total_tokens : List BundleItem → ℕ
total_tokens [] = 0
total_tokens (i ∷ is) = i.estimated_tokens + total_tokens is

-- What `trimEnd` removes.
trim_end_beginning : (text : Text) → (rest : Text) × (trim_end text ++ rest ≡ text)
unfolding trim_end
trim_end_beginning [] = ([], refl)
trim_end_beginning (c ∷ text) = elim (Bool-cases (is_empty (trim_end text) && is_space c)) [
  | inl e ↦ (c ∷ text, rw e)
  | inr e ↦ let (rest, q) = trim_end_beginning text in (rest, rw e (ap (◌∷◌ c) q))
]

clip_beginning :
    (text : Text) (budget : ℕ)
    → (rest : Text) × (clip_to_estimated_tokens text budget ++ rest ≡ text)
unfolding clip_to_estimated_tokens
clip_beginning text budget = elim (Bool-cases (leb (length text) (max 1 (budget * 4)))) [
  | inl e ↦ ([], rw e (append-nil text))
  | inr e ↦
      let n = max 1 (max 1 (budget * 4) - 1) in
      let (rest, q) = trim_end_beginning (take n text) in
      (
        rest ++ drop n text,
        rw e (
            sym (append_assoc _ rest (drop n text))
            ∙ ap (λ t. t ++ drop n text) q
            ∙ take-append-drop n text),
      )
]

clipped_Discloses :
    (c : Candidate) (budget : ℕ)
    → Discloses c (item_of c (clip_to_estimated_tokens (format_memory c) budget))
clipped_Discloses c budget =
    let (rest, q) = clip_beginning (format_memory c) budget in
    record {
      same_memory = refl;
      same_sensitivity = refl;
      rest = rest;
      beginning = q;
      counted = refl;
    }

whole_Discloses : (c : Candidate) → Discloses c (item_of c (format_memory c))
whole_Discloses c = record {
  same_memory = refl;
  same_sensitivity = refl;
  rest = [];
  beginning = append-nil (format_memory c);
  counted = refl;
}

-- A round adds nothing, or one item that discloses the candidate and is counted.
abbrev Adds : Candidate → List BundleItem × ℕ → List BundleItem × ℕ → Type 0
Adds c (items, total) after =
    ((items ≢ []) × (after ≡ (items, total)))
    ⊎ ((i : BundleItem) × Discloses c i × (after ≡ (items ++ i ∷ [], total + i.estimated_tokens)))

add_candidate-Adds :
    (budget : ℕ) (c : Candidate) (b : List BundleItem × ℕ) → Adds c b (add_candidate budget c b)
unfolding add_candidate
add_candidate-Adds budget c (items, total) =
    elim (Bool-cases
      (not (is_empty items) && ltb budget (total + estimate_tokens (format_memory c)))) [
        | inl over ↦ inl (ground arith, rw over)
        | inr fits ↦ elim (Bool-cases (ltb budget (estimate_tokens (format_memory c)))) [
          | inl long ↦ inr (
            item_of c (clip_to_estimated_tokens (format_memory c) budget),
            clipped_Discloses c budget,
            rw (fits, long),
          )
          | inr short ↦ inr (item_of c (format_memory c), whole_Discloses c, rw (fits, short))
        ]
      ]

-- The loop appends a selection of the candidates and adds its tokens to the total.
abbrev Extends : List Candidate → List BundleItem × ℕ → List BundleItem × ℕ → Type 0
Extends cs (items, total) after =
    (is : List BundleItem) × Selects cs is
    × (after ≡ (items ++ is, total + total_tokens is))
    × (items ≡ [] → cs ≢ [] → is ≢ [])

add_candidates-Extends :
    (budget : ℕ) (cs : List Candidate) (b : List BundleItem × ℕ)
    → Extends cs b (add_candidates budget cs b)
unfolding add_candidates
add_candidates-Extends budget [] (items, total) =
    ([], nothing, λ i. (sym (append-nil items) i, sym (add-zero total) i), λ _ h. absurd (h refl))
add_candidates-Extends budget (c ∷ cs) (items, total) =
    elim (add_candidate-Adds budget c (items, total)) [
      | inl (filled, e) ↦
          let (is, s, q, f) = add_candidates-Extends budget cs (items, total) in
          (is, passed s, rw e q, λ h _. absurd (filled h))
      | inr (i, d, e) ↦
          let (is, s, q, f) =
            add_candidates-Extends budget cs (items ++ i ∷ [], total + i.estimated_tokens) in
          (
            i ∷ is,
            taken d s,
            rw e (
                q ∙ λ j. (
                  append_assoc items (i ∷ []) is j,
                  add_assoc total i.estimated_tokens (total_tokens is) j,
                )),
            λ _ _ h. cc h,
          )
    ]

-- The items of a bundle disclose some of the candidates, in their order and each at most once, by a
-- beginning of the candidate's own text; and the estimate is the sum over the items.
pub compile-Selects :
    (cs : List Candidate) (budget : ℕ)
    → Selects cs (compile cs budget).items
      × ((compile cs budget).estimated_tokens ≡ total_tokens (compile cs budget).items)
unfolding compile
compile-Selects cs budget =
    let (is, s, e, f) = add_candidates-Extends budget cs ([], 0) in rw e (s, omega arith)

-- A bundle of any candidates is not empty.
pub compile-filled : (cs : List Candidate) (budget : ℕ) → cs ≢ [] → (compile cs budget).items ≢ []
unfolding compile
compile-filled cs budget =
    let (is, s, e, f) = add_candidates-Extends budget cs ([], 0) in rw e (f refl)
