-- ===== src/Suggestions/Applied.antt =====
-- What a review that succeeds has found and written.
use funes_vault.Common.{
  ◌>>=◌, ◌>>◌, ℕ, String, ◌≡◌, refl, sym, ap, ◌∙◌, subst, true, false, not, ◌==◌, some, inl, inr,
  Bool-cases, In, In-update_where_of, update_where, eq_iff, arith, if◌then◌else◌, ok, guard,
  or_throw, ok_cancel, >>-guard, >>=-eq-ok, or_throw-eq-ok, or_throw-guarded, any,
}
use funes_vault.Vault.Store.{Memory}
use funes_vault.Suggestions.Store.{
  SuggestionStatus, Suggestion, duplicate_id, Db, Runtime, is_queued, is_consolidation, find_memory,
  not_a_consolidation, no_target, target_not_found, stale_target, stale_survivor,
}
use funes_vault.Suggestions.Records.{
  is_claimable, claim_suggestion, update_status, set_status, create_memory, memory_of_suggestion,
}
use funes_vault.Suggestions.Archive.{
  apply_archive_suggestion, archive_transaction, archive_memory, set_archived, archived_status,
  record_archival, target_is_current, survivor_is_current, string_metadata,
}
use funes_vault.Suggestions.Review.{
  apply_loaded_user_suggestion, reject_loaded_user_suggestion, archives, create_from_suggestion,
}
use funes_vault.Suggestions.Settled.{
  Evolves, same, settles, IsSettled, update_status-IsSettled, claim_suggestion_sound,
}

-- A review took the suggestion from the queue.
pub record IsReviewed (db db' : Db) (user_id id : String) : Type 0 where
  pub status : SuggestionStatus
  pub closed : is_queued status ≡ false
  pub waiting : (s : Suggestion) × In s db.suggestions × (is_claimable user_id id s ≡ true)
  pub suggestions :
      db'.suggestions
      ≡ update_where
          (λ (s : Suggestion). s.id == id)
          (set_status status)
          (update_where (is_claimable user_id id) (set_status status) db.suggestions)

-- An archival that is applied, for its target.
pub record IsArchived (rt : Runtime) (user_id : String) (s : Suggestion) (now : ℕ) (db db' : Db)
    (target_id : String) (target : Memory) : Type 0 where
  pub named : string_metadata s.source_metadata.target_memory_id ≡ some target_id
  pub reviewed : IsReviewed db db' user_id s.id
  pub db1 : Db
  pub same_vault : db1.vault ≡ db.vault
  pub found : find_memory db1 user_id target_id ≡ some target
  pub current : target_is_current s.source_metadata.target_version target ≡ true
  pub survivor :
      survivor_is_current db1 user_id target s.source_metadata now
        s.source_metadata.canonical_memory_id
      ≡ true
  pub memories :
      db'.vault.memories
      ≡ update_where
          (λ (m : Memory). m.id == target.id)
          (set_archived (archived_status s.source_metadata.reason) (rt.iso now))
          db1.vault.memories

claimed-IsReviewed :
    (user_id id : String) (status : SuggestionStatus) (db db1 db' : Db)
    → is_queued status ≡ false
    → claim_suggestion user_id id status db ≡ ok db1
    → db'.suggestions
      ≡ update_where (λ (s : Suggestion). s.id == id) (set_status status) db1.suggestions
    → IsReviewed db db' user_id id
claimed-IsReviewed user_id id status db db1 db' closed claim e =
    let (waiting, written) = claim_suggestion_sound user_id id status db claim in
    record {
      status = status;
      closed = closed;
      waiting = waiting;
      suggestions =
          e
          ∙ ap
              (λ (x : Db).
                update_where (λ (s : Suggestion). s.id == id) (set_status status) x.suggestions)
              (sym written);
    }

archive_transaction-IsArchived :
    (rt : Runtime) (user_id : String) (s : Suggestion) (target_id : String) (now : ℕ) (db db' : Db)
    → string_metadata s.source_metadata.target_memory_id ≡ some target_id
    → archive_transaction rt user_id s target_id now db ≡ ok db'
    → (target : Memory) × IsArchived rt user_id s now db db' target_id target
archive_transaction-IsArchived rt user_id s target_id now db db' named h =
    let (db1, claim, rest) =
      >>=-eq-ok (claim_suggestion user_id s.id SuggestionStatus.applied db) _ h in
    after db1 claim rest
  where
    after :
        (db1 : Db)
        → claim_suggestion user_id s.id SuggestionStatus.applied db ≡ ok db1
        → or_throw (find_memory db1 user_id target_id) target_not_found >>= (λ target.
          guard (target_is_current s.source_metadata.target_version target) stale_target
          >> guard
              (survivor_is_current db1 user_id target s.source_metadata now
                s.source_metadata.canonical_memory_id)
              stale_survivor
          >> ok (
              record_archival rt user_id s target.id (
                update_status s.id SuggestionStatus.applied (
                  archive_memory target.id
                    (archived_status s.source_metadata.reason)
                    (rt.iso now)
                    db1))))
          ≡ ok db'
        → (target : Memory) × IsArchived rt user_id s now db db' target_id target
    after db1 claim rest =
        let (target, found, current, survivor, written) =
          or_throw-guarded (find_memory db1 user_id target_id) target_not_found stale_target
            stale_survivor (λ target. target_is_current s.source_metadata.target_version target)
            (λ target.
              survivor_is_current db1 user_id target s.source_metadata now
                s.source_metadata.canonical_memory_id)
            (λ target. record_archival rt user_id s target.id (
              update_status s.id SuggestionStatus.applied (
                archive_memory target.id (archived_status s.source_metadata.reason) (rt.iso now)
                  db1)))
            rest in
        (
          target,
          record {
            named = named;
            reviewed =
                claimed-IsReviewed user_id s.id SuggestionStatus.applied db db1 db' refl claim
                  (sym (ap (λ (x : Db). x.suggestions) written));
            db1 = db1;
            same_vault = sym (
                ap (λ (x : Db). x.vault)
                  (claim_suggestion_sound user_id s.id SuggestionStatus.applied db claim).1);
            found = found;
            current = current;
            survivor = survivor;
            memories = sym (ap (λ (x : Db). x.vault.memories) written);
          },
        )

pub apply_archive_suggestion-IsArchived :
    (rt : Runtime) (user_id : String) (s : Suggestion) (now : ℕ) (db db' : Db)
    → apply_archive_suggestion rt user_id s now db ≡ ok db'
    → (target_id : String) × (target : Memory) × IsArchived rt user_id s now db db' target_id target
unfolding apply_archive_suggestion
apply_archive_suggestion-IsArchived rt user_id s now db db' h =
    let (proper, rest) = >>-guard (is_consolidation s.source_type) not_a_consolidation _ h in
    let (target_id, named, last) =
      >>=-eq-ok (or_throw (string_metadata s.source_metadata.target_memory_id) no_target)
        (λ id. archive_transaction rt user_id s id now db) rest in
    let (target, archived) =
      archive_transaction-IsArchived rt user_id s target_id now db db' (or_throw-eq-ok _ _ named)
        last in
    (target_id, target, archived)

create_from_suggestion-IsReviewed :
    (rt : Runtime) (user_id : String) (s : Suggestion) (now : ℕ) (db db' : Db)
    → create_from_suggestion rt user_id s now db ≡ ok db'
    → IsReviewed db db' user_id s.id
create_from_suggestion-IsReviewed rt user_id s now db db' h =
    let m = memory_of_suggestion rt db.rows s now in
    let (db1, claim, rest) =
      >>=-eq-ok (claim_suggestion user_id s.id SuggestionStatus.applied db) _ h in
    let (db2, made, last) = >>=-eq-ok (create_memory m db1) _ rest in
    let (fresh, added) =
      >>-guard (not (any (λ (x : Memory). x.id == m.id) db1.vault.memories)) duplicate_id _ made in
    claimed-IsReviewed user_id s.id SuggestionStatus.applied db db1 db' refl claim (
      sym (ap (λ (x : Db). x.suggestions) (ok_cancel last))
      ∙ ap
          (λ (x : Db).
            update_where (λ (y : Suggestion). y.id == s.id) (set_status SuggestionStatus.applied)
              x.suggestions)
          (sym (ok_cancel added)))

pub apply_loaded-IsReviewed :
    (rt : Runtime) (user_id : String) (s : Suggestion) (now : ℕ) (db db' : Db)
    → apply_loaded_user_suggestion rt user_id s now db ≡ ok db'
    → IsReviewed db db' user_id s.id
unfolding apply_loaded_user_suggestion
apply_loaded-IsReviewed rt user_id s now db db' h = elim (Bool-cases (archives s)) [
  | inl t ↦
      let (target_id, target, archived) =
        apply_archive_suggestion-IsArchived rt user_id s now db db' (rw t at h) in
      archived.reviewed
  | inr t ↦ create_from_suggestion-IsReviewed rt user_id s now db db' (rw t at h)
]

pub reject_loaded-IsReviewed :
    (rt : Runtime) (user_id : String) (s : Suggestion) (db db' : Db)
    → reject_loaded_user_suggestion rt user_id s db ≡ ok db'
    → IsReviewed db db' user_id s.id
unfolding reject_loaded_user_suggestion
reject_loaded-IsReviewed rt user_id s db db' h =
    let (db1, claim, rest) =
      >>=-eq-ok (claim_suggestion user_id s.id SuggestionStatus.rejected db) _ h in
    claimed-IsReviewed user_id s.id SuggestionStatus.rejected db db1 db' refl claim
      (sym (ap (λ (x : Db). x.suggestions) (ok_cancel rest)))

-- A review settles its suggestion and changes the rows as they may change.
pub IsReviewed-Evolves :
    (db db' : Db) (user_id id : String)
    → IsReviewed db db' user_id id
    → Evolves db.suggestions db'.suggestions
IsReviewed-Evolves db db' user_id id r =
    subst (Evolves db.suggestions) (sym r.suggestions)
      (settles _ r.status r.closed (settles _ r.status r.closed same))

pub IsReviewed-IsSettled :
    (db db' : Db) (user_id id : String)
    → IsReviewed db db' user_id id
    → IsSettled db'.suggestions id
IsReviewed-IsSettled db db' user_id id r =
    let (s, l, t) = r.waiting in
    subst (λ xs. IsSettled xs id) (sym r.suggestions)
      (update_status-IsSettled id r.status
        (update_where (is_claimable user_id id) (set_status r.status) db.suggestions) r.closed
        (
          set_status r.status s,
          subst
              (λ b.
                In (if b then set_status r.status s else s)
                  (update_where (is_claimable user_id id) (set_status r.status) db.suggestions))
              t (In-update_where_of (is_claimable user_id id) (set_status r.status) l),
          (eq_iff s.id id).0 (ground arith),
        ))
