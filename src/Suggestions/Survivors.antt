-- ===== src/Suggestions/Survivors.antt =====
-- An archival that is applied archives the memory that was proposed, and leaves a survivor.
use funes_vault.Common.{
  refl, ◌∙◌, ◌⊎◌, ◌↔◌, Bool-cases, In-update_where, some_cancel, ℕ, String, ◌≡◌, ◌≢◌, sym, ap,
  subst, Bool, true, false, ◌==◌, Option, none, some, List, inl, inr, Option-cases, In,
  In-update_where_of, find_sound, ok, eq_iff, arith, eq_false_of_ne, if◌then◌else◌, update_where,
}
use funes_vault.Vault.Enums.{MemoryStatus, ReviewState, is_active, is_reviewed}
use funes_vault.Vault.Store.{Memory}
use funes_vault.Policies.Disclosable.{IsAhead}
use funes_vault.Suggestions.Store.{Suggestion, SourceMetadata, Db, Runtime}
use funes_vault.Suggestions.Archive.{
  apply_archive_suggestion, string_metadata, target_is_current, survivor_is_current, find_survivor,
  survives, has_passed, set_archived, archived_status,
}
use funes_vault.Suggestions.Applied.{apply_archive_suggestion-IsArchived}

-- The memory that an archival keeps in place of another one.
pub record IsSurvivor (memories : List Memory) (user_id id target_id : String) (now : ℕ)
    (m : Memory) : Type 0 where
  pub listed : In m memories
  pub named : m.id ≡ id
  pub owned : m.user_id ≡ user_id
  pub live : m.status ≡ MemoryStatus.active
  pub reviewed : m.review_state ≡ ReviewState.approved
  pub unexpired : IsAhead m.expires_at now
  pub another : m.id ≢ target_id

ahead : (o : Option ℕ) (now : ℕ) → has_passed o now ≡ false → IsAhead o now
ahead none now h = tt
ahead (some t) now h = ground arith

IsSurvivor-sound :
    (db : Db) (user_id : String) (target : Memory) (meta : SourceMetadata) (now : ℕ) (id : String)
    → survivor_is_current db user_id target meta now (some id) ≡ true
    → (m : Memory) × IsSurvivor db.vault.memories user_id id target.id now m
IsSurvivor-sound db user_id target meta now id h =
    elim (Option-cases (find_survivor db user_id id)) [
      | inl e ↦ cc (rw e at h)
      | inr (m, e) ↦
          let (l, t) = find_sound _ db.vault.memories m e in
          let passes : survives target meta.canonical_version now (some m) ≡ true = rw e at h in
          let active : is_active m.status ≡ true = ground arith in
          let approved : is_reviewed m.review_state ≡ true = ground arith in
          let unexpired : has_passed m.expires_at now ≡ false = ground arith in
          let different : (m.id == target.id) ≡ false = ground arith in
          (
            m,
            record {
              listed = l;
              named = (eq_iff m.id id).0 (ground arith);
              owned = (eq_iff m.user_id user_id).0 (ground arith);
              live = status_of m.status active;
              reviewed = state_of m.review_state approved;
              unexpired = ahead m.expires_at now unexpired;
              another = λ q. clash different ((eq_iff m.id target.id).1 q);
            },
          )
    ]
  where
    status_of : (s : MemoryStatus) → is_active s ≡ true → s ≡ MemoryStatus.active
    status_of s h = ground arith

    state_of : (s : ReviewState) → is_reviewed s ≡ true → s ≡ ReviewState.approved
    state_of s h = ground arith

    clash : {b : Bool} → b ≡ false → b ≡ true → ⊥
    clash f t = cc

named_target : (o : Option String) (id : String) → string_metadata o ≡ some id → o ≡ some id
named_target none id h = cc h
named_target (some text) id h = elim (Bool-cases (text == "")) [
  | inl t ↦ cc (rw t at h)
  | inr t ↦ rw t at h
]

-- The archived row of a target.
pub record IsShelved (reason : Option String) (target m : Memory) : Type 0 where
  pub shelved : (m.status ≡ MemoryStatus.archived) ⊎ (m.status ≡ MemoryStatus.expired)
  pub by_expiry : (m.status ≡ MemoryStatus.expired) ↔ (reason ≡ some "expired")
  pub same_text : (m.title ≡ target.title) × (m.body ≡ target.body)

set_archived-IsShelved :
    (reason : Option String) (version : String) (m : Memory)
    → IsShelved reason m (set_archived (archived_status reason) version m)
set_archived-IsShelved none version m = record {
  shelved = inl refl;
  by_expiry = (λ e. cc e, λ e. cc e);
  same_text = (refl, refl);
}
set_archived-IsShelved (some r) version m = elim (Bool-cases (r == "expired")) [
  | inl t ↦ record {
    shelved = inr (rw t refl);
    by_expiry = (λ e. ap some ((eq_iff r "expired").0 t), λ e. rw t refl);
    same_text = (refl, refl);
  }
  | inr f ↦ record {
    shelved = inl (rw f refl);
    by_expiry = (λ e. cc (rw f at e), λ e. cc ((eq_iff r "expired").1 (some_cancel e), f));
    same_text = (refl, refl);
  }
]

current_sound :
    (v : String) (m : Memory)
    → target_is_current (some v) m ≡ true
    → v ≢ ""
    → (m.status ≡ MemoryStatus.active) × (m.updated_at ≡ v)
current_sound v m h full =
    let some_version : (v == "") ≡ false = eq_false_of_ne v "" full in
    let active : is_active m.status ≡ true = ground arith in
    let recorded : (m.updated_at == v) ≡ true = ground arith in
    (status_of m.status active, (eq_iff m.updated_at v).0 recorded)
  where
    status_of : (s : MemoryStatus) → is_active s ≡ true → s ≡ MemoryStatus.active
    status_of s h = ground arith

-- An archival that is applied archives the memory that was proposed for it, which is the user's: it is
-- still listed, with its text, and every row of its id is then archived, or expired exactly if that was
-- the reason. It was an active one of the recorded version, if a version was recorded. If a surviving memory was named, that one is still there, active, approved,
-- unexpired and another one than the archived. And every other memory is as it was.
pub apply_archive_suggestion_keeps :
    (rt : Runtime) (user_id : String) (s : Suggestion) (now : ℕ) (db db' : Db)
    → apply_archive_suggestion rt user_id s now db ≡ ok db'
    → (target : Memory) × In target db.vault.memories
      × (s.source_metadata.target_memory_id ≡ some target.id)
      × (target.user_id ≡ user_id)
      × ((m : Memory) × In m db'.vault.memories
          × (m.id ≡ target.id)
          × IsShelved s.source_metadata.reason target m)
      × ((m : Memory)
          → In m db'.vault.memories
          → m.id ≡ target.id
          → (m.status ≡ MemoryStatus.archived) ⊎ (m.status ≡ MemoryStatus.expired))
      × ((v : String)
          → s.source_metadata.target_version ≡ some v
          → v ≢ ""
          → (target.status ≡ MemoryStatus.active) × (target.updated_at ≡ v))
      × ((id : String)
          → s.source_metadata.canonical_memory_id ≡ some id
          → (m : Memory) × IsSurvivor db'.vault.memories user_id id target.id now m)
      × ((m : Memory) → In m db.vault.memories → m.id ≢ target.id → In m db'.vault.memories)
apply_archive_suggestion_keeps rt user_id s now db db' h =
    let (target_id, target, a) = apply_archive_suggestion-IsArchived rt user_id s now db db' h in
    let (l, t) = find_sound _ a.db1.vault.memories target a.found in
    let status = archived_status s.source_metadata.reason in
    let kept : (m : Memory)
        → In m a.db1.vault.memories
        → m.id ≢ target.id
        → In m db'.vault.memories =
      λ m k other. subst (In m) (sym a.memories) (
        subst
          (λ b.
            In
              (if b
                then set_archived (archived_status s.source_metadata.reason) (rt.iso now) m
                else m)
              (update_where (λ (x : Memory). x.id == target.id)
                (set_archived (archived_status s.source_metadata.reason) (rt.iso now))
                a.db1.vault.memories))
          (eq_false_of_ne m.id target.id other)
          (In-update_where_of (λ (x : Memory). x.id == target.id) _ k)) in
    let same : a.db1.vault.memories ≡ db.vault.memories =
      ap (λ (v : funes_vault.Vault.Store.Db). v.memories) a.same_vault in
    (
      target,
      subst (In target) same l,
      named_target s.source_metadata.target_memory_id target_id a.named
          ∙ ap some (sym ((eq_iff target.id target_id).0 (ground arith))),
      (eq_iff target.user_id user_id).0 (ground arith),
      (
        set_archived status (rt.iso now) target,
        subst (In _) (sym a.memories) (
            subst
              (λ b. In (if b then set_archived status (rt.iso now) target else target) (
                update_where (λ (x : Memory). x.id == target.id) (set_archived status (rt.iso now))
                  a.db1.vault.memories))
              ((eq_iff target.id target.id).1 refl)
              (In-update_where_of (λ (x : Memory). x.id == target.id) _ l)),
        refl,
        set_archived-IsShelved s.source_metadata.reason (rt.iso now) target,
      ),
      λ m k e.
          let (x, xl, cases) =
            In-update_where (λ (y : Memory). y.id == target.id) (set_archived status (rt.iso now))
              a.db1.vault.memories (subst (In m) a.memories k) in
          elim cases [
            | inl (hit, q) ↦
                subst
                  (λ (y : Memory).
                    (y.status ≡ MemoryStatus.archived) ⊎ (y.status ≡ MemoryStatus.expired))
                  (sym q) (set_archived-IsShelved s.source_metadata.reason (rt.iso now) x).shelved
            | inr (miss, q) ↦
                cc ((eq_iff x.id target.id).1 (ap (λ (y : Memory). y.id) (sym q) ∙ e), miss)
          ],
      λ v e full.
          current_sound v target (subst (λ o. target_is_current o target ≡ true) e a.current) full,
      λ id e.
          let (m, survivor) = IsSurvivor-sound a.db1 user_id target s.source_metadata now id (
            subst (λ o. survivor_is_current a.db1 user_id target s.source_metadata now o ≡ true) e
              a.survivor) in
          (
            m,
            record {
              listed = kept m survivor.listed survivor.another;
              named = survivor.named;
              owned = survivor.owned;
              live = survivor.live;
              reviewed = survivor.reviewed;
              unexpired = survivor.unexpired;
              another = survivor.another;
            },
          ),
      λ m k other. kept m (subst (In m) (sym same) k) other,
    )
