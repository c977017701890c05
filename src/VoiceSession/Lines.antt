-- ===== src/VoiceSession/Lines.antt =====
-- The transcript: the pieces of a line accumulate in order, and its end replaces them.
use mathlib.Core.List.{append_assoc, append-nil}
use funes_vault.Common.{
  String, ◌≡◌, refl, sym, ap, ◌∙◌, false, ◌==◌, eq_iff, Option, none, some, List, [], ◌∷◌, ◌++◌,
  map, find, arith, Bool-cases, inl, inr,
}
use funes_vault.Vault.Store.{Text}
use funes_vault.VoiceSession.{
  Line, user, State, Mode, append_delta, replace, merged, merge_line, upsert_line, new_line, reduce,
  run, user_transcript_delta,
}

module _ {P : Type 0} where
  abbrev pub line_of : String → List (Line P) → Option (Line P)
  line_of id lines = find (λ (c : Line P). c.id == id) lines

  line_of-append :
      (id : String) (lines : List (Line P)) (line : Line P)
      → line.id ≡ id
      → line_of id lines ≡ none
      → line_of id (lines ++ line ∷ []) ≡ some line
  line_of-append id [] line e h = ground (arith, eq_iff line.id id)
  line_of-append id (x ∷ xs) line e h = elim (Bool-cases (x.id == id)) [
    | inl t ↦ cc (rw t at h)
    | inr f ↦ rw f (line_of-append id xs line e (rw f at h))
  ]

  merge_line_hit :
      (mode : Mode) (line c : Line P)
      → c.id ≡ line.id
      → (merge_line mode line c ≡ merged mode line c) × ((merge_line mode line c).id ≡ line.id)
  merge_line_hit append_delta line c e = let t = (eq_iff c.id line.id).1 e in (rw t refl, rw t e)
  merge_line_hit replace line c e = let t = (eq_iff c.id line.id).1 e in (rw t refl, rw t e)

  line_of-merge :
      (mode : Mode) (lines : List (Line P)) (line : Line P) {c : Line P}
      → line_of line.id lines ≡ some c
      → line_of line.id (map (merge_line mode line) lines) ≡ some (merged mode line c)
  line_of-merge mode [] line h = cc h
  line_of-merge mode (x ∷ xs) line h = elim (Bool-cases (x.id == line.id)) [
    | inl t ↦
        let (same, id) = merge_line_hit mode line x ((eq_iff x.id line.id).0 t) in
        rw ((eq_iff _ line.id).1 id) (
          ap some same
          ∙ ap
              (λ (o : Option (Line P)). elim o [ none ↦ none | some y ↦ some (merged mode line y) ])
              (rw t at h))
    | inr f ↦ rw (f, f) (line_of-merge mode xs line (rw f at h))
  ]

  line_of-upsert_new :
      (mode : Mode) (lines : List (Line P)) (line : Line P)
      → line_of line.id lines ≡ none
      → line_of line.id (upsert_line lines line mode) ≡ some line
  unfolding upsert_line
  line_of-upsert_new mode lines line h = rw h (line_of-append line.id lines line refl h)

  line_of-upsert_old :
      (mode : Mode) (lines : List (Line P)) (line : Line P) {c : Line P}
      → line_of line.id lines ≡ some c
      → line_of line.id (upsert_line lines line mode) ≡ some (merged mode line c)
  unfolding upsert_line
  line_of-upsert_old mode lines line h = rw h (line_of-merge mode lines line h)

abbrev pub joined : List Text → Text
joined [] = []
joined (d ∷ ds) = d ++ joined ds

module _ {P T : Type 0} (id : String) where
  grows :
      (s : State P T) (text : Text) (ds : List Text)
      → line_of id s.lines ≡ some (new_line id user text false)
      → line_of id (run s (map (user_transcript_delta id) ds)).lines
        ≡ some (new_line id user (text ++ joined ds) false)
  unfolding run reduce
  grows s text [] h = h ∙ ap (λ t. some (new_line id user t false)) (sym (append-nil text))
  grows s text (d ∷ ds) h =
      grows (reduce s (user_transcript_delta id d)) (text ++ d) ds
        (line_of-upsert_old append_delta s.lines (new_line id user d false) h)
      ∙ ap (λ t. some (new_line id user t false)) (append_assoc text d (joined ds))

  -- The pieces of what the user says are joined in the order in which they come: a new line holds
  -- exactly their texts, and is not final.
  pub deltas_join :
      (s : State P T) (d : Text) (ds : List Text)
      → line_of id s.lines ≡ none
      → line_of id (run s (map (user_transcript_delta id) (d ∷ ds))).lines
        ≡ some (new_line id user (joined (d ∷ ds)) false)
  unfolding run reduce
  deltas_join s d ds h =
      grows (reduce s (user_transcript_delta id d)) d ds
        (line_of-upsert_new append_delta s.lines (new_line id user d false) h)
