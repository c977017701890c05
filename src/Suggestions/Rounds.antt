-- ===== src/Suggestions/Rounds.antt =====
-- The rounds of a review of many suggestions.
use funes_vault.Common.{
  ◌≢◌, false, eq_false_of_ne, update_where, In-update_where_of, if◌then◌else◌, ℕ, String, ◌≡◌, refl,
  sym, ap, subst, ◌==◌, List, [], ◌∷◌, map, inl, inr, Result-cases, ok, In, here, there, find,
  find_sound, eq_iff, arith, or_throw, or_throw-eq-ok, >>=-eq-ok, >>-guard,
}
use funes_vault.Suggestions.Store.{
  Suggestion, Db, Runtime, Error, is_queued, not_found, not_reviewable,
}
use funes_vault.Suggestions.Review.{
  BulkAction, apply, reject, Outcome, done, failed, bulk_loop, bulk_attempt, review_one,
}
use funes_vault.Suggestions.Records.{is_claimable, set_status}
use funes_vault.Suggestions.Settled.{IsSettled, Evolves-IsSettled}
use funes_vault.Suggestions.Applied.{
  IsReviewed, IsReviewed-Evolves, IsReviewed-IsSettled, apply_loaded-IsReviewed,
  reject_loaded-IsReviewed,
}

review_one-IsReviewed :
    (rt : Runtime) (user_id : String) (action : BulkAction) (s : Suggestion) (now : ℕ) (db db' : Db)
    → review_one rt user_id action s now db ≡ ok db'
    → IsReviewed db db' user_id s.id
review_one-IsReviewed rt user_id apply s now db db' h =
    apply_loaded-IsReviewed rt user_id s now db db' h
review_one-IsReviewed rt user_id reject s now db db' h =
    reject_loaded-IsReviewed rt user_id s db db' h

bulk_attempt-IsReviewed :
    (rt : Runtime) (user_id : String) (action : BulkAction) (loaded : List Suggestion) (now : ℕ)
    (id : String) (db db' : Db)
    → bulk_attempt rt user_id action loaded now id db ≡ ok db'
    → IsReviewed db db' user_id id
bulk_attempt-IsReviewed rt user_id action loaded now id db db' h =
    let (s, found, rest) =
      >>=-eq-ok (or_throw (find (λ (x : Suggestion). x.id == id) loaded) not_found) _ h in
    let (queued, last) = >>-guard (is_queued s.status) not_reviewable _ rest in
    let named : s.id ≡ id =
      (eq_iff s.id id).0 (find_sound _ loaded s (or_throw-eq-ok _ _ found)).1 in
    subst (IsReviewed db db' user_id) named
      (review_one-IsReviewed rt user_id action s now db db' last)

-- The loop: its results name the ids, and what is done is settled and stays so.
pub record IsReport (ids : List String) (before after : List Suggestion)
    (rs : List (String × Outcome)) : Type 0 where
  pub names : map (λ (r : String × Outcome). r.0) rs ≡ ids
  pub evolves : (id : String) → IsSettled before id → IsSettled after id
  pub settled : (id : String) → In (id, done) rs → IsSettled after id
  pub spared : (s : Suggestion) → In s before → ¬ In (s.id, done) rs → In s after

-- A review of one suggestion leaves the others as they were.
unreviewed :
    (db after : Db) (user_id id : String)
    → IsReviewed db after user_id id
    → (s : Suggestion) → In s db.suggestions
    → s.id ≢ id
    → In s after.suggestions
unreviewed db after user_id id r s l other =
    let f : (s.id == id) ≡ false = eq_false_of_ne s.id id other in
    let g : is_claimable user_id id s ≡ false = ground arith in
    let inner = update_where (is_claimable user_id id) (set_status r.status) db.suggestions in
    let k : In s inner =
      subst (λ b. In (if b then set_status r.status s else s) inner) g
        (In-update_where_of (is_claimable user_id id) (set_status r.status) l) in
    subst (In s) (sym r.suggestions) (
      subst
        (λ b.
          In (if b then set_status r.status s else s)
            (update_where (λ (x : Suggestion). x.id == id) (set_status r.status) inner))
        f (In-update_where_of (λ (x : Suggestion). x.id == id) (set_status r.status) k))

pub bulk_loop-IsReport :
    (rt : Runtime) (user_id : String) (action : BulkAction) (loaded : List Suggestion) (now : ℕ)
    (ids : List String) (db : Db)
    → IsReport ids db.suggestions
        (bulk_loop rt user_id action loaded now ids db).1.suggestions
        (bulk_loop rt user_id action loaded now ids db).0
unfolding bulk_loop
bulk_loop-IsReport rt user_id action loaded now [] db = record {
  names = refl;
  evolves = λ id h. h;
  settled = λ id l. elim l [ ];
  spared = λ s l fresh. l;
}
bulk_loop-IsReport rt user_id action loaded now (id ∷ ids) db =
    elim (Result-cases (bulk_attempt rt user_id action loaded now id db)) [
      | inl (after, e) ↦
          let reviewed = bulk_attempt-IsReviewed rt user_id action loaded now id db after e in
          let rest = bulk_loop-IsReport rt user_id action loaded now ids after in
          rw e (record {
            names = ap (λ xs. id ∷ xs) rest.names;
            evolves = λ x h.
                rest.evolves x
                  (Evolves-IsSettled x (IsReviewed-Evolves db after user_id id reviewed) h);
            settled = λ x l.
                first x l rest.settled
                  (rest.evolves id (IsReviewed-IsSettled db after user_id id reviewed));
            spared = λ s l fresh.
                rest.spared s
                  (unreviewed db after user_id id reviewed s l
                    (λ same. fresh (here (ap (λ i. (i, done)) same))))
                  (λ m. fresh (there m));
          })
      | inr (x, e) ↦
          let rest = bulk_loop-IsReport rt user_id action loaded now ids db in
          rw e (record {
            names = ap (λ xs. id ∷ xs) rest.names;
            evolves = rest.evolves;
            settled = λ y l. later x y l rest.settled;
            spared = λ s l fresh. rest.spared s l (λ m. fresh (there m));
          })
    ]
  where
    first :
        {rs : List (String × Outcome)} {xs : List Suggestion} (x : String)
        → In (x, done) ((id, done) ∷ rs)
        → ((y : String) → In (y, done) rs → IsSettled xs y)
        → IsSettled xs id
        → IsSettled xs x
    first {xs} x (here e) h k = subst (IsSettled xs) (sym (ap (λ (r : String × Outcome). r.0) e)) k
    first x (there l) h k = h x l

    later :
        {rs : List (String × Outcome)} {xs : List Suggestion} (x : Error) (y : String)
        → In (y, done) ((id, failed x) ∷ rs)
        → ((z : String) → In (z, done) rs → IsSettled xs z)
        → IsSettled xs y
    later x y (here e) h = cc (ap (λ (r : String × Outcome). r.1) e)
    later x y (there l) h = h y l
