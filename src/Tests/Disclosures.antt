-- ===== src/Tests/Disclosures.antt =====
-- The owner approves the sample request, and the client collects it.
use funes_vault.Common.{ok, ap, ◌≡◌, refl, ◌≢◌, List, [], ◌∷◌, here, some, none, Bool, true, false}
use funes_vault.Vault.Enums.{Retention, internal, read, RequestStatus}
use funes_vault.Vault.Store.{Db, Snapshot, MemoryRequest, BundleItem}
use funes_vault.Policies.{Evaluation, evaluate_for_client}
use funes_vault.Policies.{sort_memories, denial_reason, evaluate_candidate_memories}
use funes_vault.MemoryRequests.Bundle.{compile, add_candidates, add_candidate, estimate_tokens}
use funes_vault.MemoryRequests.Disclosure.{
  disclosure_context, lock_disclosure_request, snapshot_is_current,
}
use funes_vault.MemoryRequests.Disclosure.Current.{HasUniqueIds}
use funes_vault.MemoryRequests.Invalidation.{invalidate}
use funes_vault.MemoryRequests.Preview.{eligible}
use funes_vault.MemoryRequests.Review.{unique, chosen_versions}
use funes_vault.MemoryRequests.Create.{current_memories, answer}
use funes_vault.MemoryRequests.Preview.{Preview, preview_disclosure}
use funes_vault.MemoryRequests.Preview.Laws.{preview_approved_unchanged}
use funes_vault.MemoryRequests.Preview.Shown.{IsShown, preview-IsShown}
use funes_vault.MemoryRequests.Review.{approve, refuse, decide}
use funes_vault.MemoryRequests.Review.Settled.{decide_once}
use funes_vault.MemoryRequests.Review.Decisions.{Grants, decide-Grants}
use funes_vault.MemoryRequests.Collection.{Response, result}
use funes_vault.MemoryRequests.Collection.Granted.{
  IsGranted, result-IsGranted, IsRecorded, result-IsRecorded,
}
use funes_vault.MemoryRequests.OneTime.{Reach}
use funes_vault.MemoryRequests.OneTime.Once.{result_once, refuse_for_good}
use funes_vault.MemoryRequests.Create.{BundleRequest, create_in_transaction}
use funes_vault.MemoryRequests.Create.Outcome.{IsAnswer, IsAnswered}
use funes_vault.MemoryRequests.Create.Answered.{create-IsAnswered, create-IsAnswer}
use funes_vault.Tests.Sample.{
  rt, start, open_start, waiting, proposals, ok_or, start-HasUniqueIds, open_start-HasUniqueIds,
}

-- What the owner is shown.
abbrev blank_snapshot : Snapshot
blank_snapshot = record {
  items = [];
  versions = [];
  policy_id = "";
  policy_version = "";
  client_version = "";
  instructions = [];
}

abbrev blank_preview : Preview
blank_preview = record { approval_expired = false; revision = ""; items = []; can_approve = false }

abbrev shown : (Snapshot × Preview) × Db
shown =
    ok_or ((blank_snapshot, blank_preview), start)
      (preview_disclosure rt start waiting proposals 1000)

abbrev item : BundleItem
item = record {
  memory_id = "m1";
  text = 84 ∷ 58 ∷ 32 ∷ 116 ∷ 101 ∷ 97 ∷ [];
  category = some "taste";
  sensitivity = internal;
  relevance_score = 900000;
  estimated_tokens = 2;
}

shown_test : shown.0.1.items ≡ item ∷ []
unfolding preview_disclosure disclosure_context evaluate_for_client evaluate_candidate_memories
    sort_memories denial_reason eligible compile add_candidates add_candidate estimate_tokens
    invalidate lock_disclosure_request snapshot_is_current decide unique chosen_versions result
    create_in_transaction current_memories answer
shown_test = refl

preview-IsShown_example : IsShown start waiting 1000 item
unfolding preview_disclosure disclosure_context evaluate_for_client evaluate_candidate_memories
    sort_memories denial_reason eligible compile add_candidates add_candidate estimate_tokens
    invalidate lock_disclosure_request snapshot_is_current decide unique chosen_versions result
    create_in_transaction current_memories answer
preview-IsShown_example =
    preview-IsShown rt start waiting proposals 1000 shown item start-HasUniqueIds refl refl
      (here refl)

-- The tables after the approval, the collection, and a second collection.
abbrev approved_db : Db
approved_db =
    ok_or start (decide rt start "u1" "r1" (approve "preview-1" ("m1" ∷ [])) proposals 1000)

decide-Grants_example : Grants rt start "u1" "r1" "preview-1" ("m1" ∷ []) proposals 1000 approved_db
unfolding preview_disclosure disclosure_context evaluate_for_client evaluate_candidate_memories
    sort_memories denial_reason eligible compile add_candidates add_candidate estimate_tokens
    invalidate lock_disclosure_request snapshot_is_current decide unique chosen_versions result
    create_in_transaction current_memories answer
decide-Grants_example =
    decide-Grants rt start "u1" "r1" "preview-1" ("m1" ∷ []) proposals 1000 approved_db
      start-HasUniqueIds refl

decide_once_example : decide rt approved_db "u1" "r1" refuse proposals 1500 ≢ ok approved_db
unfolding preview_disclosure disclosure_context evaluate_for_client evaluate_candidate_memories
    sort_memories denial_reason eligible compile add_candidates add_candidate estimate_tokens
    invalidate lock_disclosure_request snapshot_is_current decide unique chosen_versions result
    create_in_transaction current_memories answer
decide_once_example =
    decide_once rt start "u1" "r1" (approve "preview-1" ("m1" ∷ [])) proposals 1000 approved_db "u1"
      refuse proposals 1500 approved_db refl

abbrev empty_answer : Response
empty_answer = record {
  request_id = "";
  status = RequestStatus.denied;
  policy_id = none;
  reason = none;
  token_budget = 0;
  estimated_tokens = 0;
  items = [];
  instructions = [];
  denied = [];
  audit_event_id = none;
}

abbrev collected : Response × Db
collected = ok_or (empty_answer, start) (result rt approved_db "u1" "c1" "r1" 2000)

abbrev collected_again : Response × Db
collected_again = ok_or (empty_answer, start) (result rt collected.1 "u1" "c1" "r1" 3000)

approved_db-HasUniqueIds : HasUniqueIds approved_db
unfolding preview_disclosure disclosure_context evaluate_for_client evaluate_candidate_memories
    sort_memories denial_reason eligible compile add_candidates add_candidate estimate_tokens
    invalidate lock_disclosure_request snapshot_is_current decide unique chosen_versions result
    create_in_transaction current_memories answer
approved_db-HasUniqueIds = start-HasUniqueIds

result-IsGranted_example : IsGranted rt approved_db "u1" "c1" "r1" 2000 item
unfolding preview_disclosure disclosure_context evaluate_for_client evaluate_candidate_memories
    sort_memories denial_reason eligible compile add_candidates add_candidate estimate_tokens
    invalidate lock_disclosure_request snapshot_is_current decide unique chosen_versions result
    create_in_transaction current_memories answer
result-IsGranted_example =
    result-IsGranted rt approved_db "u1" "c1" "r1" 2000 collected.0 collected.1 item
      approved_db-HasUniqueIds refl (here refl)

is_cons : List BundleItem → Bool
is_cons [] = false
is_cons (x ∷ xs) = true

cons-ne-nil : (xs : List BundleItem) → is_cons xs ≡ true → xs ≢ []
unfolding is_cons
cons-ne-nil xs h e = cc (h, ap is_cons e)

collected_some : collected.0.items ≢ []
unfolding is_cons preview_disclosure disclosure_context evaluate_for_client
    evaluate_candidate_memories sort_memories denial_reason eligible compile add_candidates
    add_candidate estimate_tokens invalidate lock_disclosure_request snapshot_is_current decide
    unique chosen_versions result create_in_transaction current_memories answer
collected_some = cons-ne-nil collected.0.items refl

result-IsRecorded_example : IsRecorded approved_db "u1" "c1" "r1" collected.0 collected.1
unfolding preview_disclosure disclosure_context evaluate_for_client evaluate_candidate_memories
    sort_memories denial_reason eligible compile add_candidates add_candidate estimate_tokens
    invalidate lock_disclosure_request snapshot_is_current decide unique chosen_versions result
    create_in_transaction current_memories answer
result-IsRecorded_example =
    result-IsRecorded rt approved_db "u1" "c1" "r1" 2000 collected.0 collected.1 refl collected_some

result_once_example : collected_again.0.items ≡ []
unfolding preview_disclosure disclosure_context evaluate_for_client evaluate_candidate_memories
    sort_memories denial_reason eligible compile add_candidates add_candidate estimate_tokens
    invalidate lock_disclosure_request snapshot_is_current decide unique chosen_versions result
    create_in_transaction current_memories answer
result_once_example =
    result_once rt approved_db collected.1 collected.1 collected_again.1 "u1" "c1" "r1" 2000
      collected.0 "u1" "c1" 3000 collected_again.0 refl collected_some Reach.here refl

abbrev refused_db : Db
refused_db = ok_or start (decide rt start "u1" "r1" refuse proposals 1000)

abbrev after_refusal : Response × Db
after_refusal = ok_or (empty_answer, start) (result rt refused_db "u1" "c1" "r1" 2000)

refuse_for_good_example : after_refusal.0.items ≡ []
unfolding preview_disclosure disclosure_context evaluate_for_client evaluate_candidate_memories
    sort_memories denial_reason eligible compile add_candidates add_candidate estimate_tokens
    invalidate lock_disclosure_request snapshot_is_current decide unique chosen_versions result
    create_in_transaction current_memories answer
refuse_for_good_example =
    refuse_for_good rt start refused_db refused_db after_refusal.1 "u1" "r1" proposals 1000 "u1"
      "c1" 2000 after_refusal.0 refl Reach.here refl

abbrev approved_request : MemoryRequest
approved_request = record waiting { status = RequestStatus.approved }

abbrev approved_view : (Snapshot × Preview) × Db
approved_view =
    ok_or ((blank_snapshot, blank_preview), open_start)
      (preview_disclosure rt start approved_request proposals 1000)

preview_approved_unchanged_example : approved_view.1 ≡ start
unfolding preview_disclosure disclosure_context evaluate_for_client evaluate_candidate_memories
    sort_memories denial_reason eligible compile add_candidates add_candidate estimate_tokens
    invalidate lock_disclosure_request snapshot_is_current decide unique chosen_versions result
    create_in_transaction current_memories answer
preview_approved_unchanged_example =
    preview_approved_unchanged rt start approved_request proposals 1000 approved_view refl refl

abbrev body : BundleRequest
body = record {
  purpose = none;
  task = "t";
  requested_categories = [];
  retention = Retention.session;
  third_party_processors = [];
  token_budget = 100;
}

abbrev gate : Evaluation
gate = evaluate_for_client open_start "u1" "c1" read 1000 none

create-IsAnswered_example : IsAnswered open_start "u1" "c1" 1000 item
unfolding preview_disclosure disclosure_context evaluate_for_client evaluate_candidate_memories
    sort_memories denial_reason eligible compile add_candidates add_candidate estimate_tokens
    invalidate lock_disclosure_request snapshot_is_current decide unique chosen_versions result
    create_in_transaction current_memories answer
create-IsAnswered_example =
    create-IsAnswered rt open_start "u1" "c1" body gate proposals 1000 item open_start-HasUniqueIds
      (here refl)

create-IsAnswer_example :
    IsAnswer open_start (create_in_transaction rt open_start "u1" "c1" body gate proposals 1000)
create-IsAnswer_example = create-IsAnswer rt open_start "u1" "c1" body gate proposals 1000
