-- ===== src/CaptureQueue/Cleared.antt =====
-- What the removal of synced captures leaves.
use funes_vault.Common.{
  ◌≡◌, refl, ap, ◌∙◌, ◌≢◌, ◌↔◌, false, eq_iff, List, [], ◌∷◌, In, here, there, In-cons, In-filter,
  In-of_filter, filter, Bool-cases, inl, inr, IsDistinct, IsDistinct-unique, eq_false_of_ne,
}
use funes_vault.CaptureQueue.Store.{id_of}
use funes_vault.CaptureQueue.{QueuedCapture, is_synced, remove, remove_all, clear_synced_captures}

In-remove_all :
    (ds store : List QueuedCapture) (c : QueuedCapture)
    → In c (remove_all ds store)
      ↔ (In c store × ((d : QueuedCapture) → In d ds → id_of c ≢ id_of d))
unfolding remove
In-remove_all ds store c = (sound ds store, complete ds store)
  where
    sound :
        (ds store : List QueuedCapture)
        → In c (remove_all ds store)
        → In c store × ((d : QueuedCapture) → In d ds → id_of c ≢ id_of d)
    sound [] store l = (l, λ d k. elim k [ ])
    sound (x ∷ xs) store l =
        let (k, h) = sound xs (remove x.capture_id store) l in
        let (m, t) = In-filter _ store k in
        (
          m,
          λ d n e. elim (In-cons n) [
            | inl q ↦ cc (t, (eq_iff c.capture_id x.capture_id).1 (e ∙ ap id_of q))
            | inr n' ↦ h d n' e
          ],
        )

    complete :
        (ds store : List QueuedCapture)
        → In c store × ((d : QueuedCapture) → In d ds → id_of c ≢ id_of d)
        → In c (remove_all ds store)
    complete [] store h = h.0
    complete (x ∷ xs) store h = complete xs (remove x.capture_id store) (
      In-of_filter _ h.0 (rw (eq_false_of_ne c.capture_id x.capture_id (h.1 x (here refl))) refl),
      λ d n. h.1 d (there n),
    )

-- Clearing removes the synced captures and nothing else.
pub clear_synced_captures_iff :
    (store : List QueuedCapture) (c : QueuedCapture)
    → IsDistinct id_of store
    → In c (clear_synced_captures store) ↔ (In c store × (is_synced c ≡ false))
unfolding clear_synced_captures
clear_synced_captures_iff store c d = (
  λ l.
      let (k, h) = (In-remove_all (filter is_synced store) store c).0 l in
      (
        k,
        elim (Bool-cases (is_synced c)) [
          | inl t ↦ absurd (h c (In-of_filter is_synced k t) refl)
          | inr t ↦ t
        ],
      ),
  λ h. (In-remove_all (filter is_synced store) store c).1 (
    h.0,
    λ x l e.
        let (k, t) = In-filter is_synced store l in
        cc (h.1, t, ap is_synced (IsDistinct-unique id_of d h.0 k e)),
  ),
)
