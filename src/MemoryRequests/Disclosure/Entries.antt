-- ===== src/MemoryRequests/Disclosure/Entries.antt =====
-- Maps as lists of entries.
use funes_vault.Common.{
  String, ◌≡◌, sym, ap, ◌∙◌, ◌≢◌, ◌==◌, none, some, List, [], ◌∷◌, arith, In, here, there, In-map,
  In-of_map, Option-cases, Bool-cases, inl, inr, eq_iff,
}
use funes_vault.Vault.Store.{Memory}
use funes_vault.MemoryRequests.Disclosure.{get, versions_of}

module _ {ℓ} {V : Type ℓ} where
  pub get_sound : (k : String) (es : List (String × V)) {v : V} → get k es ≡ some v → In (k, v) es
  get_sound k [] h = cc h
  get_sound k ((j, w) ∷ es) {v} h = elim (Option-cases (get k es)) [
    | inr (u, e) ↦ there (get_sound k es (e ∙ (rw (e, get) at h)))
    | inl e ↦ elim (Bool-cases (j == k)) [
      | inl same ↦
          let q : w ≡ v = ground arith in
          let p : j ≡ k = (eq_iff j k).0 same in here (λ i. (sym p i, sym q i))
      | inr other ↦ absurd (ground arith)
    ]
  ]

  pub get-ne-none : {k : String} {v : V} {es : List (String × V)} → In (k, v) es → get k es ≢ none
  get-ne-none {k} (here {x = (j, w)} {xs = es} p) = elim (Option-cases (get k es)) [
    | inr (u, e) ↦ λ h. ground arith
    | inl e ↦ λ h. ground (arith, (eq_iff j k).1 (sym (ap (λ (q : String × V). q.0) p)))
  ]
  get-ne-none {k} (there {x = (j, w)} {xs = es} m) = elim (Option-cases (get k es)) [
    | inr (u, e) ↦ λ h. ground arith
    | inl e ↦ absurd (get-ne-none m e)
  ]

-- A version that is looked up for a listed memory is that of a memory with its id.
pub get-versions_of :
    (ms : List Memory) (m : Memory)
    → In m ms
    → (k : Memory) × In k ms × (k.id ≡ m.id) × (get m.id (versions_of ms) ≡ some k.updated_at)
get-versions_of ms m l = elim (Option-cases (get m.id (versions_of ms))) [
  | inl e ↦ absurd (get-ne-none (In-of_map (λ (x : Memory). (x.id, x.updated_at)) l) e)
  | inr (v, e) ↦
      let (k, t, q) = In-map (λ (x : Memory). (x.id, x.updated_at)) ms (get_sound m.id _ e) in
      (
        k,
        t,
        sym (ap (λ (y : String × String). y.0) q),
        e ∙ ap (λ (y : String × String). some y.1) q,
      )
]
