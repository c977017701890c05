-- ===== src/MemoryRequests/Preview/Shown.antt =====
-- What a preview of a waiting request shows.
use funes_vault.Common.{
  ℕ, String, ◌≡◌, refl, sym, ap, ◌∙◌, subst, inl, inr, true, false, Option, none, some, List, [],
  ◌∷◌, In, here, there, In-cons, In-map, ok, Bool-cases, Option-cases, has, map,
}
use funes_vault.Vault.Enums.{read}
use funes_vault.Vault.Store.{Memory, Policy, Client, BundleItem, Snapshot, MemoryRequest, Db}
use funes_vault.Policies.Disclosable.{IsDisclosable}
use funes_vault.Policies.Authority.{HasAuthority}
use funes_vault.MemoryRequests.Bundle.{Candidate}
use funes_vault.MemoryRequests.Bundle.Selection.{
  Selects, nothing, passed, taken, Discloses, compile-Selects,
}
use funes_vault.MemoryRequests.Runtime.{Runtime}
use funes_vault.MemoryRequests.Disclosure.{Context, disclosure_context, is_approved, safe_parse}
use funes_vault.MemoryRequests.Disclosure.Entries.{get_sound}
use funes_vault.MemoryRequests.Disclosure.Current.{
  HasUniqueIds, allowed_sound, context_memories_listed,
}
use funes_vault.MemoryRequests.Preview.{
  Proposal, Preview, preview_disclosure, show, memory_by_id, candidate_of, eligible, fresh_snapshot,
}
use funes_vault.MemoryRequests.Preview.Laws.{context_of, preview_disclosure_parts, refresh_status}

pub Selects-sound :
    {cs : List Candidate} {is : List BundleItem} {i : BundleItem}
    → Selects cs is
    → In i is
    → (c : Candidate) × In c cs × Discloses c i
Selects-sound nothing l = elim l [ ]
Selects-sound (passed s) l = let (c, k, d) = Selects-sound s l in (c, there k, d)
Selects-sound (taken {c} {i = j} d s) l = elim (In-cons l) [
  | inl e ↦ (c, here refl, subst (Discloses c) (sym e) d)
  | inr m ↦ let (c', k, d') = Selects-sound s m in (c', there k, d')
]

-- An eligible candidate is a memory at hand whose id is allowed, as it is now.
abbrev IsEligible : List Memory → List String → Memory × Candidate → Type 0
IsEligible ms allowed (m, c) =
    In m ms × (has allowed m.id ≡ true) × ((score : ℕ) × (c ≡ candidate_of m score))

pub memory_by_id_sound :
    (id : String) (ms : List Memory) (m : Memory)
    → memory_by_id id ms ≡ some m
    → In m ms × (m.id ≡ id)
memory_by_id_sound id ms m h =
    let (x, l, e) = In-map (λ (x : Memory). (x.id, x)) ms (get_sound id _ h) in
    let same : m ≡ x = ap (λ (q : String × Memory). q.1) e in
    (
      subst (λ y. In y ms) (sym same) l,
      ap (λ (y : Memory). y.id) same ∙ sym (ap (λ (q : String × Memory). q.0) e),
    )

eligible_sound :
    (ms : List Memory) (allowed : List String) (cs : List Proposal) (e : Memory × Candidate)
    → In e (eligible ms allowed cs)
    → IsEligible ms allowed e
unfolding eligible
eligible_sound ms allowed [] e l = elim l [ ]
eligible_sound ms allowed (c ∷ cs) e l = elim (Option-cases (memory_by_id c.id ms)) [
  | inl n ↦ eligible_sound ms allowed cs e (rw n at l)
  | inr (m, n) ↦ elim (Bool-cases (has allowed c.id)) [
    | inr f ↦ eligible_sound ms allowed cs e (rw (n, f) at l)
    | inl t ↦ elim (In-cons (rw (n, t) at l)) [
      | inr k ↦ eligible_sound ms allowed cs e k
      | inl q ↦
          let (k, same) = memory_by_id_sound c.id ms m n in
          subst (IsEligible ms allowed) (sym q)
            (k, ap (has allowed) same ∙ t, (c.relevance_score, refl))
    ]
  ]
]

-- The item shows the beginning of a memory of the owner that the client's policy covers now.
pub record IsShown (db : Db) (r : MemoryRequest) (now : ℕ) (i : BundleItem) : Type 0 where
  pub client : Client
  pub policy : Policy
  pub authority : HasAuthority db r.user_id r.client_id read now client policy
  pub memory : Memory
  pub score : ℕ
  pub listed : In memory db.memories
  pub owner : memory.user_id ≡ r.user_id
  pub disclosable : IsDisclosable policy now memory
  pub discloses : Discloses (candidate_of memory score) i

fresh_snapshot_sound :
    (rt : Runtime) (db : Db) (r : MemoryRequest) (ids : List String) (now budget : ℕ)
    (client : Client) (cs : List Proposal) (i : BundleItem)
    → HasUniqueIds db
    → In i (fresh_snapshot rt budget (disclosure_context db r ids now) client cs).items
    → IsShown db r now i
fresh_snapshot_sound rt db r ids now budget client cs i unique l =
    let context = disclosure_context db r ids now in
    let found = eligible context.memories context.allowed cs in
    let (c, k, d) =
      Selects-sound (compile-Selects (map (λ (e : Memory × Candidate). e.1) found) budget).0 l in
    let (e, ke, same) = In-map (λ (e : Memory × Candidate). e.1) found k in
    let (km, allowed, (score, q)) = eligible_sound context.memories context.allowed cs e ke in
    let (owner_client, p, ec, ep, authority, (m, lm, same_id, covered)) =
      allowed_sound db r ids now e.0.id allowed in
    let (listed, owner) = context_memories_listed db r ids now e.0 km in
    let one_row = unique m e.0 (context_memories_listed db r ids now m lm).0 listed same_id in
    record {
      client = owner_client;
      policy = p;
      authority = authority;
      memory = e.0;
      score = score;
      listed = listed;
      owner = owner;
      disclosable = subst (IsDisclosable p now) one_row covered;
      discloses = subst (λ x. Discloses x i) (same ∙ q) d;
    }

waiting_shows_fresh :
    (rt : Runtime) (r : MemoryRequest) (previous : Option Snapshot) (context : Context)
    (client : Client) (cs : List Proposal) (now : ℕ)
    → is_approved r.status ≡ false
    → (show rt r previous context client cs now).1.items
      ≡ (fresh_snapshot rt r.token_budget context client cs).items
waiting_shows_fresh rt r none context client cs now h = refl
waiting_shows_fresh rt r (some s) context client cs now h = rw h

-- A preview of a request that is not approved shows nothing but what the client could be given: each
-- item is the beginning of the current text of one of the owner's memories, which the client's policy,
-- in force and granting to read, covers.
pub preview-IsShown :
    (rt : Runtime) (db : Db) (r : MemoryRequest) (cs : List Proposal) (now : ℕ)
    (shown : (Snapshot × Preview) × Db) (i : BundleItem)
    → HasUniqueIds db
    → is_approved r.status ≡ false
    → preview_disclosure rt db r cs now ≡ ok shown
    → In i shown.0.1.items
    → IsShown db r now i
preview-IsShown rt db r cs now shown i unique waiting h l =
    let (client, checked, ec, e, es) = preview_disclosure_parts rt db r cs now shown h in
    let still = refresh_status rt r (context_of rt db r cs now) db checked shown.1 waiting e in
    fresh_snapshot_sound rt db r _ now checked.token_budget client cs i unique (
      subst (λ is. In i is)
        (ap (λ (x : Snapshot × Preview). x.1.items) es
          ∙ waiting_shows_fresh rt checked (safe_parse r.review_snapshot)
              (context_of rt db r cs now) client cs now still)
        l)
