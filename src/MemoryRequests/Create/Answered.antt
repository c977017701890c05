-- ===== src/MemoryRequests/Create/Answered.antt =====
-- The answer to a new request, as a whole.
use funes_vault.Common.{
  ℕ, String, ◌≡◌, refl, inl, inr, true, some, List, [], In, arith, map, Bool-cases, if◌then◌else◌,
}
use funes_vault.Vault.Enums.{Decision, deny, read}
use funes_vault.Vault.Store.{Memory, BundleItem, Db, find_memories}
use funes_vault.Policies.{Evaluation, evaluate_for_client}
use funes_vault.MemoryRequests.Runtime.{Runtime}
use funes_vault.MemoryRequests.Disclosure.{denies}
use funes_vault.MemoryRequests.Disclosure.Current.{HasUniqueIds}
use funes_vault.MemoryRequests.Preview.{Proposal}
use funes_vault.MemoryRequests.Create.Released.{
  memory_of, current_memories_sound, IsDecided, decided-IsReleased,
}
use funes_vault.MemoryRequests.Create.{
  BundleRequest, current_memories, new_request, add_request, create_in_transaction,
}
use funes_vault.MemoryRequests.Create.Outcome.{
  IsAnswered, live_memory-IsListed, bundle_sound, bundle_filled, IsAnswer, answer-IsAnswer,
  answer_items,
}

module _ (rt : Runtime) (db : Db) (user_id client_id : String) (body : BundleRequest)
    (gate : Evaluation) (found : List Proposal) (now : ℕ) where
  abbrev live : List Memory
  live =
      if denies gate.decision
      then []
      else find_memories db user_id (map (λ (c : Proposal). c.id) found)

  abbrev current : List (Memory × ℕ)
  current = current_memories live found

  abbrev decided : Evaluation
  decided =
      if denies gate.decision
      then gate
      else evaluate_for_client db user_id client_id read now (some (map memory_of current))

  decided-IsDecided : IsDecided db user_id client_id now current decided
  decided-IsDecided = elim (Bool-cases (denies gate.decision)) [
    | inl t ↦ inl (rw t (denies_sound gate.decision t))
    | inr f ↦ inr (rw f)
  ]
    where
      denies_sound : (d : Decision) → denies d ≡ true → d ≡ deny
      denies_sound d h = ground arith

  -- A new request is answered in one of three ways: items are shared, and then each of them is stored
  -- with the request and one disclosure event names exactly their memories; or a confirmation is
  -- asked for, with no item and no event; or it is refused, with no item and one event of the refusal.
  pub create-IsAnswer :
      IsAnswer db (create_in_transaction rt db user_id client_id body gate found now)
  unfolding create_in_transaction
  create-IsAnswer =
      answer-IsAnswer rt db (new_request rt db user_id client_id body decided now) decided current
        decided.decision refl
        (λ a.
          bundle_filled db user_id client_id now body.token_budget current decided
            (decided-IsReleased db user_id client_id now current decided decided-IsDecided a))

  -- Every item of an immediate answer is the beginning of the current text of one of the owner's
  -- memories that the client's policy covers; the policy is in force, grants to read and needs no
  -- confirmation. This holds whatever the gate said before the transaction and whatever is proposed.
  pub create-IsAnswered :
      (i : BundleItem)
      → HasUniqueIds db
      → In i (create_in_transaction rt db user_id client_id body gate found now).0.items
      → IsAnswered db user_id client_id now i
  unfolding create_in_transaction
  create-IsAnswered i unique l =
      let (a, k) =
        answer_items rt (add_request (new_request rt db user_id client_id body decided now) db)
          (new_request rt db user_id client_id body decided now) decided current decided.decision i
          l in
      bundle_sound db user_id client_id now body.token_budget current decided i unique
        (λ x kx.
          live_memory-IsListed db user_id (map (λ (c : Proposal). c.id) found)
            (denies gate.decision) (memory_of x) (current_memories_sound live found x kx))
        (decided-IsReleased db user_id client_id now current decided decided-IsDecided a) k
