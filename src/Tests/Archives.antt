-- ===== src/Tests/Archives.antt =====
-- Three proposed archivals, of which two are chosen.
use funes_vault.Common.{◌≡◌, refl, ◌≢◌, some, List, [], ◌∷◌, here, there, eq_iff}
use funes_vault.Consolidation.{
  ArchiveCandidate, exact_duplicate, superseded, conflict, dedupe_candidates, choose, is_viable,
}
use funes_vault.Consolidation.Chosen.{dedupe_candidates_keeps_targets}

abbrev older : ArchiveCandidate
older = record { memory_id = "m1"; canonical_id = some "m2"; reason = exact_duplicate }

abbrev newer : ArchiveCandidate
newer = record { memory_id = "m2"; canonical_id = some "m3"; reason = superseded }

abbrev other : ArchiveCandidate
other = record { memory_id = "m4"; canonical_id = some "m3"; reason = conflict }

abbrev proposed : List ArchiveCandidate
proposed = older ∷ newer ∷ other ∷ []

chosen_test : dedupe_candidates proposed ≡ older ∷ other ∷ []
unfolding dedupe_candidates choose is_viable
chosen_test = refl

older-ne-other : older.memory_id ≢ other.memory_id
older-ne-other h = cc ((eq_iff "m1" "m4").1 h)

dedupe_candidates_keeps_targets_example : older.canonical_id ≢ some other.memory_id
unfolding dedupe_candidates choose is_viable
dedupe_candidates_keeps_targets_example =
    dedupe_candidates_keeps_targets proposed older other (here refl) (there (here refl))
      older-ne-other
