-- ===== src/Consolidation.antt =====
-- apps/api/src/consolidation/dedupe-candidates.ts: which of the proposed archivals are carried out.
pub mod Chosen
use funes_vault.Common.{
  String, Bool, true, false, not, ◌&&◌, ◌||◌, ◌==◌, Option, none, some, List, [], ◌∷◌, any, has,
  if◌then◌else◌, opt_is,
}

-- `ArchiveCandidateReason`
pub data ArchiveReason : Type 0 where
  expired exact_duplicate semantic_duplicate conflict superseded : ArchiveReason

abbrev is_expired : ArchiveReason → Bool
is_expired expired = true
is_expired _ = false

-- A candidate's memory, the memory that is kept in its place, and the reason.
pub record ArchiveCandidate : Type 0 where
  pub memory_id : String
  pub canonical_id : Option String
  pub reason : ArchiveReason

-- The canonical memory is archived already, or some candidate archives it as expired.
abbrev canonical_is_gone : List ArchiveCandidate → List String → Option String → Bool
canonical_is_gone candidates seen none = false
canonical_is_gone candidates seen (some id) =
    has seen id
    || any (λ (o : ArchiveCandidate). o.memory_id == id && is_expired o.reason) candidates

-- An archived memory points to this one.
abbrev is_target : List ArchiveCandidate → List String → String → Bool
is_target candidates seen id =
    any (λ (o : ArchiveCandidate). has seen o.memory_id && opt_is o.canonical_id id) candidates

-- The test of the filter, with the ids that were chosen so far.
unfoldable pub is_viable : List ArchiveCandidate → List String → ArchiveCandidate → Bool
is_viable candidates seen c =
    not (has seen c.memory_id)
    && not (canonical_is_gone candidates seen c.canonical_id)
    && not (is_target candidates seen c.memory_id)

unfoldable pub choose :
    List ArchiveCandidate → List String → List ArchiveCandidate → List ArchiveCandidate
choose candidates seen [] = []
choose candidates seen (c ∷ cs) =
    let viable = is_viable candidates seen c in
    let rest = choose candidates (if viable then c.memory_id ∷ seen else seen) cs in
    if viable then c ∷ rest else rest

-- `dedupeCandidates`
unfoldable pub dedupe_candidates : List ArchiveCandidate → List ArchiveCandidate
dedupe_candidates candidates = choose candidates [] candidates
