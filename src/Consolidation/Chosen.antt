-- ===== src/Consolidation/Chosen.antt =====
-- The chosen archivals do not undo one another.
use funes_vault.Common.{
  some_cancel, String, ◌≡◌, refl, sym, ap, ◌∙◌, ◌≢◌, true, false, ◌&&◌, Option, none, some, List,
  [], ◌∷◌, In, here, there, In-cons, any_complete, has, has_iff, opt_is, opt_is_iff, Bool-cases,
  inl, inr, arith, IsDistinct, nobody, newcomer, subst,
}
use funes_vault.Consolidation.{
  ArchiveCandidate, canonical_is_gone, is_target, is_viable, choose, dedupe_candidates,
}

-- What a viable candidate has passed.
record IsViable (all : List ArchiveCandidate) (seen : List String) (c : ArchiveCandidate)
    : Type 0 where
  fresh : has seen c.memory_id ≡ false
  kept : (id : String) → c.canonical_id ≡ some id → has seen id ≡ false
  free :
      (o : ArchiveCandidate)
      → In o all
      → has seen o.memory_id ≡ true
      → o.canonical_id ≢ some c.memory_id

IsViable-sound :
    (all : List ArchiveCandidate) (seen : List String) (c : ArchiveCandidate)
    → is_viable all seen c ≡ true
    → IsViable all seen c
unfolding is_viable
IsViable-sound all seen c h = record {
  fresh = ground arith;
  kept = λ id e. canonical id c.canonical_id e (ground arith);
  free = λ o l t e.
      let hit : (has seen o.memory_id && opt_is o.canonical_id c.memory_id) ≡ true =
        rw (t, (opt_is_iff o.canonical_id c.memory_id).1 e) refl in
      let target =
        any_complete
          (λ (x : ArchiveCandidate). has seen x.memory_id && opt_is x.canonical_id c.memory_id) l
          hit in
      no_target target (ground arith);
}
  where
    canonical :
        (id : String) (o : Option String)
        → o ≡ some id
        → canonical_is_gone all seen o ≡ false
        → has seen id ≡ false
    canonical id none e f = cc e
    canonical id (some k) e f = rw (sym (some_cancel e)) (ground arith)

    no_target : is_target all seen c.memory_id ≡ true → is_target all seen c.memory_id ≡ false → ⊥
    no_target a b = cc (a, b)

-- A chosen candidate was viable when at least the given ids had been chosen.
abbrev WasViable : List ArchiveCandidate → List String → ArchiveCandidate → Type 0
WasViable all seen c =
    (now : List String) × ((id : String) → has seen id ≡ true → has now id ≡ true)
    × IsViable all now c

has-cons : (seen : List String) (k id : String) → has seen id ≡ true → has (k ∷ seen) id ≡ true
has-cons seen k id h = (has_iff (k ∷ seen) id).1 (there ((has_iff seen id).0 h))

has-head : (seen : List String) (k : String) → has (k ∷ seen) k ≡ true
has-head seen k = (has_iff (k ∷ seen) k).1 (here refl)

choose_sound :
    (all : List ArchiveCandidate) (seen : List String) (cs : List ArchiveCandidate)
    (x : ArchiveCandidate)
    → In x (choose all seen cs)
    → In x cs × WasViable all seen x
unfolding choose
choose_sound all seen [] x l = elim l [ ]
choose_sound all seen (c ∷ cs) x l = elim (Bool-cases (is_viable all seen c)) [
  | inr f ↦ let (k, w) = choose_sound all seen cs x (rw f at l) in (there k, w)
  | inl t ↦ elim (In-cons (rw t at l)) [
    | inl e ↦
        (here e, subst (WasViable all seen) (sym e) (seen, λ id h. h, IsViable-sound all seen c t))
    | inr m ↦
        let (k, (now, grows, v)) = choose_sound all (c.memory_id ∷ seen) cs x m in
        (there k, (now, λ id h. grows id (has-cons seen c.memory_id id h), v))
  ]
]

abbrev pub memory_of : ArchiveCandidate → String
memory_of c = c.memory_id

choose-IsDistinct :
    (all : List ArchiveCandidate) (seen : List String) (cs : List ArchiveCandidate)
    → IsDistinct memory_of (choose all seen cs)
unfolding choose
choose-IsDistinct all seen [] = nobody
choose-IsDistinct all seen (c ∷ cs) = elim (Bool-cases (is_viable all seen c)) [
  | inr f ↦ rw f (choose-IsDistinct all seen cs)
  | inl t ↦ rw t (
      newcomer {x = c} {xs = choose all (c.memory_id ∷ seen) cs}
        (λ y l e.
          let (k, (now, grows, v)) = choose_sound all (c.memory_id ∷ seen) cs y l in
          cc (v.fresh, ap (has now) e ∙ grows c.memory_id (has-head seen c.memory_id)))
        (choose-IsDistinct all (c.memory_id ∷ seen) cs))
]

module _ (all : List ArchiveCandidate) (a b : ArchiveCandidate)
    (points : a.canonical_id ≡ some b.memory_id) (apart : a.memory_id ≢ b.memory_id) where
  -- The target was chosen first, so the pointing candidate was not viable.
  target_first : (seen : List String) → has seen b.memory_id ≡ true → WasViable all seen a → ⊥
  target_first seen h (now, grows, v) = cc (v.kept b.memory_id points, grows b.memory_id h)

  -- The pointing candidate was chosen first, so the target was not viable.
  pointer_first :
      (seen : List String) → In a all → has seen a.memory_id ≡ true → WasViable all seen b → ⊥
  pointer_first seen l h (now, grows, v) = v.free a l (grows a.memory_id h) points

  never_both :
      (seen : List String) (cs : List ArchiveCandidate)
      → In a all
      → In a (choose all seen cs)
      → In b (choose all seen cs)
      → ⊥
  unfolding choose
  never_both seen [] l m k = elim m [ ]
  never_both seen (c ∷ cs) l m k = elim (Bool-cases (is_viable all seen c)) [
    | inr f ↦ never_both seen cs l (rw f at m) (rw f at k)
    | inl t ↦ elim (In-cons (rw t at m)) [
      | inl e ↦ elim (In-cons (rw t at k)) [
        | inl q ↦ apart (ap memory_of e ∙ ap memory_of (sym q))
        | inr k' ↦
            pointer_first (c.memory_id ∷ seen) l
              (ap (has (c.memory_id ∷ seen)) (ap memory_of e) ∙ has-head seen c.memory_id)
              (choose_sound all (c.memory_id ∷ seen) cs b k').1
      ]
      | inr m' ↦ elim (In-cons (rw t at k)) [
        | inl q ↦
            target_first (c.memory_id ∷ seen)
              (ap (has (c.memory_id ∷ seen)) (ap memory_of q) ∙ has-head seen c.memory_id)
              (choose_sound all (c.memory_id ∷ seen) cs a m').1
        | inr k' ↦ never_both (c.memory_id ∷ seen) cs l m' k'
      ]
    ]
  ]

-- No memory is archived twice.
pub dedupe_candidates-IsDistinct :
    (candidates : List ArchiveCandidate) → IsDistinct memory_of (dedupe_candidates candidates)
unfolding dedupe_candidates
dedupe_candidates-IsDistinct candidates = choose-IsDistinct candidates [] candidates

-- A memory that is kept in the place of an archived one is not archived itself: of the chosen
-- candidates, none archives the canonical memory of another.
pub dedupe_candidates_keeps_targets :
    (candidates : List ArchiveCandidate) (a b : ArchiveCandidate)
    → In a (dedupe_candidates candidates)
    → In b (dedupe_candidates candidates)
    → a.memory_id ≢ b.memory_id
    → a.canonical_id ≢ some b.memory_id
unfolding dedupe_candidates
dedupe_candidates_keeps_targets candidates a b l k apart points =
    never_both candidates a b points apart [] candidates
      (choose_sound candidates [] candidates a l).0 l k
