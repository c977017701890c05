-- ===== src/Suggestions/Settled.antt =====
-- A suggestion is reviewed once, whatever copy of it the second review has loaded.
use funes_vault.Common.{
  String, ◌≡◌, refl, sym, ap, ◌∙◌, subst, Bool, true, false, ◌==◌, nat_eq, List, [], ◌∷◌, ◌++◌, inl,
  inr, Bool-cases, In, In-append, In-append_left, In-cons, In-filter, In-update_where,
  In-update_where_of, here, any, any_complete, filter, length, update_where, eq_iff, arith,
  if◌then◌else◌, ok, ok_cancel, >>-guard,
}
use funes_vault.Suggestions.Store.{SuggestionStatus, Suggestion, Db, is_queued, not_reviewable}
use funes_vault.Suggestions.Records.{is_claimable, claim_suggestion, set_status}

-- How the rows of the suggestions change.
pub data Evolves : List Suggestion → List Suggestion → Type 0 where
  same : {xs : List Suggestion} → Evolves xs xs
  settles :
      {xs ys : List Suggestion} (p : Suggestion → Bool) (status : SuggestionStatus)
      → is_queued status ≡ false
      → Evolves xs ys
      → Evolves xs (update_where p (set_status status) ys)
  arrives :
      {xs ys : List Suggestion} (s : Suggestion)
      → any (λ (x : Suggestion). x.id == s.id) ys ≡ false
      → Evolves xs ys
      → Evolves xs (ys ++ s ∷ [])

-- The suggestion is there, and no row of it waits for a review.
pub record IsSettled (xs : List Suggestion) (id : String) : Type 0 where
  pub listed : (s : Suggestion) × In s xs × (s.id ≡ id)
  pub reviewed : (s : Suggestion) → In s xs → s.id ≡ id → is_queued s.status ≡ false

IsSettled-after :
    (p : Suggestion → Bool) (status : SuggestionStatus) (xs : List Suggestion) (id : String)
    → is_queued status ≡ false
    → IsSettled xs id
    → IsSettled (update_where p (set_status status) xs) id
IsSettled-after p status xs id closed h =
    let (s, l, e) = h.listed in
    record {
      listed = (
        if p s then set_status status s else s,
        In-update_where_of p (set_status status) l,
        kept_id s ∙ e,
      );
      reviewed = λ y k q.
          let (x, m, c) = In-update_where p (set_status status) xs k in
          elim c [
            | inl (t, o) ↦ ap (λ (z : Suggestion). is_queued z.status) o ∙ closed
            | inr (t, o) ↦
                ap (λ (z : Suggestion). is_queued z.status) o
                ∙ h.reviewed x m (sym (ap (λ (z : Suggestion). z.id) o) ∙ q)
          ];
    }
  where
    kept_id : (s : Suggestion) → (if p s then set_status status s else s).id ≡ s.id
    kept_id s = elim (Bool-cases (p s)) [ inl t ↦ rw t refl | inr t ↦ rw t refl ]

pub Evolves-IsSettled :
    {xs ys : List Suggestion} (id : String) → Evolves xs ys → IsSettled xs id → IsSettled ys id
Evolves-IsSettled id same h = h
Evolves-IsSettled id (settles {ys} p status closed e) h =
    IsSettled-after p status ys id closed (Evolves-IsSettled id e h)
Evolves-IsSettled id (arrives {ys} s fresh e) h =
    let before = Evolves-IsSettled id e h in
    let (x, l, q) = before.listed in
    record {
      listed = (x, In-append_left _ l, q);
      reviewed = λ y k r. elim (In-append ys k) [
        | inl m ↦ before.reviewed y m r
        | inr m ↦ elim (In-cons m) [
          | inr n ↦ elim n [ ]
          | inl o ↦ absurd (
              clash
                (any_complete (λ (z : Suggestion). z.id == s.id) l
                  ((eq_iff x.id s.id).1 (q ∙ sym r ∙ ap (λ (z : Suggestion). z.id) o)))
                fresh)
        ]
      ];
    }
  where
    clash : {b : Bool} → b ≡ true → b ≡ false → ⊥
    clash t f = cc

-- After the status was written to every row of the id.
pub update_status-IsSettled :
    (id : String) (status : SuggestionStatus) (xs : List Suggestion)
    → is_queued status ≡ false
    → (s : Suggestion) × In s xs × (s.id ≡ id)
    → IsSettled (update_where (λ (s : Suggestion). s.id == id) (set_status status) xs) id
update_status-IsSettled id status xs closed (s, l, e) = record {
  listed = (
    set_status status s,
    subst
        (λ b.
          In (if b then set_status status s else s)
            (update_where (λ (s : Suggestion). s.id == id) (set_status status) xs))
        ((eq_iff s.id id).1 e)
        (In-update_where_of (λ (s : Suggestion). s.id == id) (set_status status) l),
    e,
  );
  reviewed = λ y k q.
      let (x, m, c) = In-update_where (λ (s : Suggestion). s.id == id) (set_status status) xs k in
      elim c [
        | inl (t, o) ↦ ap (λ (z : Suggestion). is_queued z.status) o ∙ closed
        | inr (t, o) ↦
            absurd (other t ((eq_iff x.id id).1 (sym (ap (λ (z : Suggestion). z.id) o) ∙ q)))
      ];
}
  where
    other : {b : Bool} → b ≡ false → b ≡ true → ⊥
    other f t = cc

-- A claim that succeeds has found its row.
pub claim_suggestion_sound :
    (user_id id : String) (status : SuggestionStatus) (db : Db) {db' : Db}
    → claim_suggestion user_id id status db ≡ ok db'
    → ((s : Suggestion) × In s db.suggestions × (is_claimable user_id id s ≡ true))
      × ((record db {
        suggestions = update_where (is_claimable user_id id) (set_status status) db.suggestions;
      })
          ≡ db')
claim_suggestion_sound user_id id status db h =
    let (one, e) =
      >>-guard (nat_eq (length (filter (is_claimable user_id id) db.suggestions)) 1) not_reviewable
        _ h in
    (
      found (filter (is_claimable user_id id) db.suggestions) one
          (λ s l. In-filter _ db.suggestions l),
      ok_cancel e,
    )
  where
    found :
        (xs : List Suggestion)
        → nat_eq (length xs) 1 ≡ true
        → ((s : Suggestion) → In s xs → In s db.suggestions × (is_claimable user_id id s ≡ true))
        → (s : Suggestion) × In s db.suggestions × (is_claimable user_id id s ≡ true)
    found [] one inside = absurd (ground arith)
    found (x ∷ xs) one inside = let (l, t) = inside x (here refl) in (x, l, t)
