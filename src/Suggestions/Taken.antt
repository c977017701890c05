-- ===== src/Suggestions/Taken.antt =====
-- What an intake that succeeds has written.
use funes_vault.Common.{
  arith, ◌>>◌, ℕ, String, ◌≡◌, refl, sym, ap, ◌∙◌, subst, Bool, true, false, not, ◌==◌, Option,
  none, some, [], ◌∷◌, ◌++◌, ◌⊎◌, inl, inr, Bool-cases, any, ok, guard, ok_cancel, >>-guard,
  >>=-eq-ok, >>-eq-ok,
}
use funes_vault.Vault.Enums.{Operation, Decision, allow, needs_confirmation, deny, SourceType}
use funes_vault.Vault.Store.{Memory}
use funes_vault.Policies.{Evaluation}
use funes_vault.Suggestions.Store.{
  SuggestionStatus, Suggestion, Db, Runtime, duplicate_id, secret_content,
}
use funes_vault.Suggestions.Records.{
  SuggestionRequest, assert_exist, create_suggestion_record, create_memory, new_suggestion,
  memory_of_suggestion,
}
use funes_vault.Suggestions.Intake.{
  SuggestionInput, SuggestionResponse, create_suggestion, create_user_suggestion,
  intake_transaction, create_direct_memory, queue_suggestion, answer, evaluate, writes_directly,
  enqueue_for,
}
use funes_vault.Suggestions.Settled.{Evolves, same, arrives}

not_sound : (b : Bool) → not b ≡ true → b ≡ false
not_sound b h = ground arith

create_suggestion_record-Evolves :
    (s : Suggestion) (db : Db) {db' : Db}
    → create_suggestion_record s db ≡ ok db'
    → Evolves db.suggestions db'.suggestions × (db'.vault ≡ db.vault)
create_suggestion_record-Evolves s db h =
    let (fresh, e) =
      >>-guard (not (any (λ (x : Suggestion). x.id == s.id) db.suggestions)) duplicate_id _ h in
    (
      subst (λ (x : Db). Evolves db.suggestions x.suggestions) (ok_cancel e)
          (arrives s (not_sound _ fresh) same),
      sym (ap (λ (x : Db). x.vault) (ok_cancel e)),
    )

-- The memory that a direct write adds.
abbrev pub written_memory : Runtime → SuggestionInput → ℕ → Db → Memory
written_memory rt input now db =
    memory_of_suggestion rt db.rows
      (new_suggestion rt db.rows input.user_id SourceType.client_suggestion (some input.client_id)
        (evaluate input Operation.write now db).result.policy_id true SuggestionStatus.applied
        input.body)
      now

-- The suggestions have evolved, and a memory was added if the policy lets the client write.
pub record IsTaken (rt : Runtime) (input : SuggestionInput) (now : ℕ) (db db' : Db) : Type 0 where
  pub evolves : Evolves db.suggestions db'.suggestions
  pub memories :
      (db'.vault.memories ≡ db.vault.memories)
      ⊎ ((writes_directly input now db ≡ true)
          × (db'.vault.memories ≡ db.vault.memories ++ written_memory rt input now db ∷ []))

create_direct_memory-IsTaken :
    (rt : Runtime) (input : SuggestionInput) (now : ℕ) (db db' : Db) (response : SuggestionResponse)
    → writes_directly input now db ≡ true
    → create_direct_memory rt input (evaluate input Operation.write now db) now db
      ≡ ok (response, db')
    → IsTaken rt input now db db'
create_direct_memory-IsTaken rt input now db db' response direct h =
    let s =
      new_suggestion rt db.rows input.user_id SourceType.client_suggestion (some input.client_id)
        (evaluate input Operation.write now db).result.policy_id true SuggestionStatus.applied
        input.body in
    let m = written_memory rt input now db in
    let (db1, recorded, rest) = >>=-eq-ok (create_suggestion_record s db) _ h in
    let (db2, made, last) = >>=-eq-ok (create_memory m db1) _ rest in
    let (evolves, same_vault) = create_suggestion_record-Evolves s db recorded in
    let (fresh, added) =
      >>-guard (not (any (λ (x : Memory). x.id == m.id) db1.vault.memories)) duplicate_id _ made in
    let final = ap (λ (x : SuggestionResponse × Db). x.1) (ok_cancel last) in
    record {
      evolves =
          subst (Evolves db.suggestions)
            (ap (λ (x : Db). x.suggestions) (ok_cancel added)
              ∙ ap (λ (x : Db). x.suggestions) final)
            evolves;
      memories = inr (
        direct,
        sym (ap (λ (x : Db). x.vault.memories) final)
            ∙ sym (ap (λ (x : Db). x.vault.memories) (ok_cancel added))
            ∙ ap (λ (v : funes_vault.Vault.Store.Db). v.memories ++ m ∷ []) same_vault,
      );
    }

queue_suggestion-IsTaken :
    (rt : Runtime) (input : SuggestionInput) (policy : Evaluation) (now : ℕ) (db db' : Db)
    (response : SuggestionResponse)
    → queue_suggestion rt input policy db ≡ ok (response, db')
    → IsTaken rt input now db db'
queue_suggestion-IsTaken rt input policy now db db' response h =
    let (db1, recorded, last) = >>=-eq-ok (create_suggestion_record _ db) _ h in
    let (evolves, same_vault) = create_suggestion_record-Evolves _ db recorded in
    let final = ap (λ (x : SuggestionResponse × Db). x.1) (ok_cancel last) in
    record {
      evolves = subst (Evolves db.suggestions) (ap (λ (x : Db). x.suggestions) final) evolves;
      memories = inl (
          sym (ap (λ (x : Db). x.vault.memories) final)
          ∙ ap (λ (v : funes_vault.Vault.Store.Db). v.memories) same_vault);
    }

answer-IsTaken :
    (rt : Runtime) (input : SuggestionInput) (policy : Evaluation) (decision : Decision) (now : ℕ)
    (db db' : Db) (response : SuggestionResponse)
    → answer rt input policy decision db ≡ ok (response, db')
    → IsTaken rt input now db db'
answer-IsTaken rt input policy allow now db db' response h =
    queue_suggestion-IsTaken rt input policy now db db' response h
answer-IsTaken rt input policy needs_confirmation now db db' response h =
    queue_suggestion-IsTaken rt input policy now db db' response h
answer-IsTaken rt input policy deny now db db' response h =
    let final = ap (λ (x : SuggestionResponse × Db). x.1) (ok_cancel h) in
    record {
      evolves = subst (Evolves db.suggestions) (ap (λ (x : Db). x.suggestions) final) same;
      memories = inl (sym (ap (λ (x : Db). x.vault.memories) final));
    }

intake_transaction-IsTaken :
    (rt : Runtime) (input : SuggestionInput) (now : ℕ) (db db' : Db) (response : SuggestionResponse)
    → intake_transaction rt input now db ≡ ok (response, db')
    → IsTaken rt input now db db'
intake_transaction-IsTaken rt input now db db' response h =
    let (checks, rest) =
      >>-eq-ok
        (guard (not (rt.secret_like input.body.title input.body.body input.body.evidence))
            secret_content
          >> assert_exist db input.body.category_keys)
        _ h in
    elim (Bool-cases (writes_directly input now db)) [
      | inl t ↦ create_direct_memory-IsTaken rt input now db db' response t (rw t at rest)
      | inr t ↦
          answer-IsTaken rt input (evaluate input Operation.suggest now db)
            (evaluate input Operation.suggest now db).result.decision now db db' response
            (rw t at rest)
    ]

pub create_suggestion-IsTaken :
    (rt : Runtime) (input : SuggestionInput) (now : ℕ) (db db' : Db) (response : SuggestionResponse)
    → create_suggestion rt input now db ≡ ok (response, db')
    → IsTaken rt input now db db'
unfolding create_suggestion
create_suggestion-IsTaken rt input now db db' response h =
    let ((r, db1), taken, last) = >>=-eq-ok (intake_transaction rt input now db) _ h in
    let before = intake_transaction-IsTaken rt input now db db1 r taken in
    let final = ap (λ (x : SuggestionResponse × Db). x.1) (ok_cancel last) in
    let (same_suggestions, same_vault) = enqueue_for_frame input.user_id r.memory_id db1 in
    record {
      evolves =
          subst (Evolves db.suggestions)
            (sym same_suggestions ∙ ap (λ (x : Db). x.suggestions) final) before.evolves;
      memories =
          subst
            (λ ms.
              (ms ≡ db.vault.memories)
              ⊎ ((writes_directly input now db ≡ true)
                  × (ms ≡ db.vault.memories ++ written_memory rt input now db ∷ [])))
            (ap (λ (v : funes_vault.Vault.Store.Db). v.memories) (sym same_vault)
              ∙ ap (λ (x : Db). x.vault.memories) final)
            before.memories;
    }
  where
    enqueue_for_frame :
        (user_id : String) (o : Option String) (db1 : Db)
        → ((enqueue_for user_id o db1).suggestions ≡ db1.suggestions)
          × ((enqueue_for user_id o db1).vault ≡ db1.vault)
    enqueue_for_frame user_id none db1 = (refl, refl)
    enqueue_for_frame user_id (some m) db1 = (refl, refl)

pub create_user_suggestion-Evolves :
    (rt : Runtime) (user_id : String) (body : SuggestionRequest) (db db' : Db) (s : Suggestion)
    → create_user_suggestion rt user_id body db ≡ ok (s, db')
    → Evolves db.suggestions db'.suggestions
unfolding create_user_suggestion
create_user_suggestion-Evolves rt user_id body db db' s h =
    let (checks, rest) =
      >>-eq-ok
        (guard (not (rt.secret_like body.title body.body body.evidence)) secret_content
          >> assert_exist db body.category_keys)
        _ h in
    let (db1, recorded, last) = >>=-eq-ok (create_suggestion_record _ db) _ rest in
    subst (Evolves db.suggestions) (ap (λ (x : Suggestion × Db). x.1.suggestions) (ok_cancel last))
      (create_suggestion_record-Evolves _ db recorded).0
