-- ===== src/Suggestions/Bulk.antt =====
-- The report of a review of many suggestions is true.
use funes_vault.Common.{
  set_of, ℕ, suc, ◌+◌, String, ◌≡◌, refl, sym, ap, ◌∙◌, ◌==◌, List, [], ◌∷◌, map, inl, inr,
  Result-cases, In, here, there, filter, has, length, arith, ◌&&◌,
}
use funes_vault.Suggestions.Store.{Suggestion, Db, Runtime, Error}
use funes_vault.Suggestions.Review.{
  BulkAction, BulkReport, Outcome, done, failed, bulk_review_user_suggestions, bulk_loop,
  failed_count, categories_checked, report,
}
use funes_vault.Suggestions.Settled.{IsSettled}
use funes_vault.Suggestions.Rounds.{IsReport, bulk_loop-IsReport}

length-map : {A B : Type 0} (f : A → B) (xs : List A) → length (map f xs) ≡ length xs
length-map f [] = refl
length-map f (x ∷ xs) = omega (arith, length-map f xs)

-- How many suggestions a list of results says are done, and how many are not.
abbrev pub count_done : List (String × Outcome) → ℕ
count_done [] = 0
count_done ((id, done) ∷ rs) = suc (count_done rs)
count_done ((id, failed e) ∷ rs) = count_done rs

abbrev pub count_failed : List (String × Outcome) → ℕ
count_failed [] = 0
count_failed ((id, done) ∷ rs) = count_failed rs
count_failed ((id, failed e) ∷ rs) = suc (count_failed rs)

failed_count_lem : (rs : List (String × Outcome)) → failed_count rs ≡ count_failed rs
failed_count_lem [] = refl
failed_count_lem ((id, done) ∷ rs) = failed_count_lem rs
failed_count_lem ((id, failed e) ∷ rs) = ap suc (failed_count_lem rs)

count_parts : (rs : List (String × Outcome)) → count_done rs + count_failed rs ≡ length rs
count_parts [] = refl
count_parts ((id, done) ∷ rs) = omega (arith, count_parts rs)
count_parts ((id, failed e) ∷ rs) = omega (arith, count_parts rs)

-- What a report of a review of many must say.
abbrev pub Tells : List String → BulkReport → Db → Db → Type 0
Tells ids r db db' =
    (map (λ (x : String × Outcome). x.0) r.results ≡ ids)
    × (r.requested ≡ length ids)
    × (r.succeeded ≡ count_done r.results)
    × (r.failures ≡ count_failed r.results)
    × ((id : String) → In (id, done) r.results → IsSettled db'.suggestions id)
    × ((s : Suggestion) → In s db.suggestions → ¬ In (s.id, done) r.results → In s db'.suggestions)

told :
    (ids : List String) (rs : List (String × Outcome)) (db db' : Db)
    → IsReport ids db.suggestions db'.suggestions rs
    → Tells ids (report ids (rs, db')).0 db db'
told ids rs db db' r =
    let count : length rs ≡ length ids =
      sym (length-map (λ (x : String × Outcome). x.0) rs) ∙ ap length r.names in
    (
      r.names,
      refl,
      omega (arith, count, failed_count_lem rs, count_parts rs),
      failed_count_lem rs,
      r.settled,
      r.spared,
    )

none_done :
    (e : Error) (ids : List String) (id : String)
    → ¬ In {A = String × Outcome} (id, done) (map (λ (x : String). (x, failed e)) ids)
none_done e [] id l = elim l [ ]
none_done e (x ∷ ids) id (here q) = cc (ap (λ (r : String × Outcome). r.1) q)
none_done e (x ∷ ids) id (there l) = none_done e ids id l

all_failed_counts :
    (e : Error) (ids : List String)
    → (0 ≡ count_done (map (λ (x : String). (x, failed e)) ids))
      × (length ids ≡ count_failed (map (λ (x : String). (x, failed e)) ids))
all_failed_counts e [] = (refl, refl)
all_failed_counts e (x ∷ ids) =
    let (none_done_yet, all) = all_failed_counts e ids in (none_done_yet, ap suc all)

names_of_failed :
    (e : Error) (ids : List String)
    → map (λ (x : String × Outcome). x.0) (map (λ (x : String). (x, failed e)) ids) ≡ ids
names_of_failed e [] = refl
names_of_failed e (x ∷ ids) = ap (λ xs. x ∷ xs) (names_of_failed e ids)

-- The report of a review of many suggestions has one result for each of the ids, without repetition
-- and in their order; it counts as succeeded exactly the results that are done and as failed exactly
-- those that failed; each suggestion that it reports as done is off the queue when it ends, and every
-- other suggestion is as it was.
pub bulk_review-Tells :
    (rt : Runtime) (user_id : String) (action : BulkAction) (listed : List String) (now : ℕ)
    (db : Db)
    → Tells
        (set_of listed)
        (bulk_review_user_suggestions rt user_id action listed now db).0
        db
        (bulk_review_user_suggestions rt user_id action listed now db).1
unfolding bulk_review_user_suggestions
bulk_review-Tells rt user_id action listed now db =
    let ids = set_of listed in
    let loaded = filter (λ (s : Suggestion). has ids s.id && s.user_id == user_id) db.suggestions in
    elim (Result-cases (categories_checked action loaded db)) [
      | inr (e, q) ↦
          rw (bulk_review_user_suggestions, q)
            (
              names_of_failed e ids,
              refl,
              (all_failed_counts e ids).0,
              (all_failed_counts e ids).1,
              λ id l. absurd (none_done e ids id l),
              λ s l fresh. l,
            )
      | inl (u, q) ↦
          rw (bulk_review_user_suggestions, q)
            (told ids _ db (bulk_loop rt user_id action loaded now ids db).1
              (bulk_loop-IsReport rt user_id action loaded now ids db))
    ]
