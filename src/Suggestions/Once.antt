-- ===== src/Suggestions/Once.antt =====
-- Proposals and reviews in any order.
use funes_vault.Common.{
  ℕ, String, ◌≡◌, ◌≢◌, sym, subst, true, ◌==◌, ◌⊎◌, inl, inr, ok, eq_iff, arith,
}
use funes_vault.Suggestions.Store.{Suggestion, Db, Runtime, is_queued}
use funes_vault.Suggestions.Records.{SuggestionRequest}
use funes_vault.Suggestions.Review.{apply_loaded_user_suggestion, reject_loaded_user_suggestion}
use funes_vault.Suggestions.Intake.{
  SuggestionInput, SuggestionResponse, create_suggestion, create_user_suggestion,
}
use funes_vault.Suggestions.Settled.{Evolves, IsSettled, Evolves-IsSettled}
use funes_vault.Suggestions.Applied.{
  IsReviewed, IsReviewed-Evolves, IsReviewed-IsSettled, apply_loaded-IsReviewed,
  reject_loaded-IsReviewed,
}
use funes_vault.Suggestions.Taken.{create_suggestion-IsTaken, create_user_suggestion-Evolves}

-- A transaction on the suggestions; a review has loaded its suggestion at some time before.
pub data Step (rt : Runtime) (db db' : Db) : Type 0 where
  proposes :
      (input : SuggestionInput) (now : ℕ) (response : SuggestionResponse)
      → create_suggestion rt input now db ≡ ok (response, db')
      → Step rt db db'
  chats :
      (user_id : String) (body : SuggestionRequest) (s : Suggestion)
      → create_user_suggestion rt user_id body db ≡ ok (s, db')
      → Step rt db db'
  applies :
      (user_id : String) (s : Suggestion) (now : ℕ)
      → apply_loaded_user_suggestion rt user_id s now db ≡ ok db'
      → Step rt db db'
  rejects :
      (user_id : String) (s : Suggestion)
      → reject_loaded_user_suggestion rt user_id s db ≡ ok db'
      → Step rt db db'

pub data Steps (rt : Runtime) (db : Db) : Db → Type 0 where
  finished : Steps rt db db
  next : {db' db'' : Db} → Steps rt db db' → Step rt db' db'' → Steps rt db db''

Step-Evolves :
    (rt : Runtime) (db db' : Db) → Step rt db db' → Evolves db.suggestions db'.suggestions
Step-Evolves rt db db' (proposes input now response h) =
    (create_suggestion-IsTaken rt input now db db' response h).evolves
Step-Evolves rt db db' (chats user_id body s h) =
    create_user_suggestion-Evolves rt user_id body db db' s h
Step-Evolves rt db db' (applies user_id s now h) =
    IsReviewed-Evolves db db' user_id s.id (apply_loaded-IsReviewed rt user_id s now db db' h)
Step-Evolves rt db db' (rejects user_id s h) =
    IsReviewed-Evolves db db' user_id s.id (reject_loaded-IsReviewed rt user_id s db db' h)

Steps-IsSettled :
    (rt : Runtime) (db db' : Db) (id : String)
    → Steps rt db db'
    → IsSettled db.suggestions id
    → IsSettled db'.suggestions id
Steps-IsSettled rt db db' id finished h = h
Steps-IsSettled rt db db' id (next {db' = before} steps step) h =
    Evolves-IsSettled id (Step-Evolves rt before db' step) (Steps-IsSettled rt db before id steps h)

-- No review of a settled suggestion succeeds.
not-IsReviewed :
    (db db' : Db) (user_id id : String)
    → IsSettled db.suggestions id
    → ¬ IsReviewed db db' user_id id
not-IsReviewed db db' user_id id h r =
    let (s, l, t) = r.waiting in
    let open_ : is_queued s.status ≡ true = ground arith in
    let named : (s.id == id) ≡ true = ground arith in
    let closed = h.reviewed s l ((eq_iff s.id id).0 named) in cc

-- A suggestion is reviewed once: after it was applied or rejected, and whatever proposals and reviews
-- follow, no copy of it, however old, is applied or rejected by any user.
pub review_once :
    (rt : Runtime) (user_id : String) (s : Suggestion) (now : ℕ) (db db1 db2 : Db) (other : String)
    (copy : Suggestion) (then_ : ℕ) (db3 : Db)
    → (apply_loaded_user_suggestion rt user_id s now db ≡ ok db1)
      ⊎ (reject_loaded_user_suggestion rt user_id s db ≡ ok db1)
    → Steps rt db1 db2
    → copy.id ≡ s.id
    → (apply_loaded_user_suggestion rt other copy then_ db2 ≢ ok db3)
      × (reject_loaded_user_suggestion rt other copy db2 ≢ ok db3)
review_once rt user_id s now db db1 db2 other copy then_ db3 h steps same =
    let reviewed : IsReviewed db db1 user_id s.id = elim h [
      | inl a ↦ apply_loaded-IsReviewed rt user_id s now db db1 a
      | inr r ↦ reject_loaded-IsReviewed rt user_id s db db1 r
    ] in
    let settled : IsSettled db2.suggestions copy.id =
      subst (IsSettled db2.suggestions) (sym same) (
        Steps-IsSettled rt db1 db2 s.id steps
          (IsReviewed-IsSettled db db1 user_id s.id reviewed)) in
    (
      λ a.
          not-IsReviewed db2 db3 other copy.id settled
            (apply_loaded-IsReviewed rt other copy then_ db2 db3 a),
      λ r.
          not-IsReviewed db2 db3 other copy.id settled
            (reject_loaded-IsReviewed rt other copy db2 db3 r),
    )
