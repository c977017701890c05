-- ===== src/Administration/Refined.antt =====
-- The table of policies implements a partial map from apps to permissions.
use funes_vault.Common.{
  List, arith, String, ◌≡◌, ◌≢◌, refl, sym, ap, ◌∙◌, Bool, true, false, not, ◌==◌, none, some, In,
  In-filter, find, filter, find-append_new, find-append_old, find-eq-none, find-update_where,
  find-update_where_other, find-filter_other, IsDistinct-unique, IsDistinct-find, eq_iff,
  eq_false_of_ne, subst,
}
use funes_vault.Vault.Store.{Policy}
use funes_vault.Administration.{Db, Runtime, UpdatePolicyRequest}
use funes_vault.Administration.Permissions.{with_update_data}
use funes_vault.Administration.Asked.{
  with_update_data-IsAmended, default_request-IsDefault, new_policy-IsAsked,
}
use funes_vault.Administration.Steps.{
  Step, creates, updates, deletes, restores, Steps, done, next, IsSound, permissions, Change,
  grants, amends, withdraws, Changes, unchanged, further, Call, update, delete, Asks, by_request,
  by_default,
}
use funes_vault.Administration.Kept.{
  IsCreated, IsUpdated, IsDeleted, create_policy-IsCreated, restore_defaults-IsCreated,
  update_policy-IsUpdated, delete_policy-IsDeleted, is_free, create-IsSound, update-IsSound,
  delete-IsSound,
}

same_text : (s : String) → (s == s) ≡ true
same_text s = (eq_iff s s).1 refl

never_both : {b : Bool} → b ≡ true → b ≢ false
never_both t f = cc (sym t ∙ f)

create-Change :
    {db db' : Db} {who : String} {p : Policy} {call : Call}
    → Asks db.categories call p
    → IsCreated db db' who p
    → Change db.categories who (permissions db) (permissions db') call
unfolding permissions
create-Change {db} {db'} {who} {p} asks e =
    let free : permissions db p.client_id ≡ none =
      find-eq-none (λ (q : Policy). q.client_id == p.client_id) db.policies
        (λ q l. (is_free db p q e.free l).1) in
    grants p asks e.owner free
      (ap (find (λ (q : Policy). q.client_id == p.client_id)) e.policies
        ∙ find-append_new _ db.policies p free (same_text p.client_id))
      (record {
        others = λ app other.
            ap (find (λ (q : Policy). q.client_id == app)) e.policies
            ∙ find-append_old _ db.policies p (eq_false_of_ne p.client_id app (λ q. other (sym q)));
      })

-- A listed row with the id of another is that other.
same_row :
    {db : Db} {p q : Policy}
    → IsSound db
    → In p db.policies
    → In q db.policies
    → (q.id == p.id) ≡ true
    → q ≡ p
same_row {db} {p} {q} s l m t = IsDistinct-unique _ s.ids m l ((eq_iff q.id p.id).0 t)

-- So it is for another app.
other_app :
    {db : Db} {p q : Policy} {app : String}
    → IsSound db
    → In p db.policies
    → In q db.policies
    → app ≢ p.client_id
    → (q.id == p.id) ≡ true
    → (q.client_id == app) ≡ false
other_app {p} {q} {app} s l m other t =
    eq_false_of_ne q.client_id app
      (λ e. other (sym e ∙ ap (λ (x : Policy). x.client_id) (same_row s l m t)))

update-Change :
    {db db' : Db} {who id : String} {p : Policy} (input : UpdatePolicyRequest) (stamp : String)
    → IsSound db
    → IsUpdated db db' who id p (with_update_data input stamp)
    → Change db.categories who (permissions db) (permissions db') (update id input)
unfolding permissions
update-Change {db} {db'} {who} {id} {p} input stamp s e =
    let f = with_update_data input stamp in
    let found : permissions db p.client_id ≡ some p = IsDistinct-find _ s.apps e.listed in
    let written =
      find-update_where (λ (q : Policy). q.client_id == p.client_id) (λ (q : Policy). q.id == p.id)
        f db.policies (λ q. refl) found in
    subst (λ i. Change db.categories who (permissions db) (permissions db') (update i input))
      e.named
      (amends p (f p) (with_update_data-IsAmended input stamp p) e.owner found
        (ap (find (λ (q : Policy). q.client_id == p.client_id)) e.policies
          ∙ (rw (same_text p.id) at written))
        (record {
          others = λ app other.
              ap (find (λ (q : Policy). q.client_id == app)) e.policies
              ∙ find-update_where_other _ _ f db.policies
                  (λ q m t. (other_app s e.listed m other t, other_app s e.listed m other t));
        }))

delete-Change :
    {db db' : Db} {who id : String} {p : Policy}
    → IsSound db
    → IsDeleted db db' who id p
    → Change db.categories who (permissions db) (permissions db') (delete id)
unfolding permissions
delete-Change {db} {db'} {who} {id} {p} s e =
    let keep : Policy → Bool = λ q. not (q.id == p.id) in
    subst (λ i. Change db.categories who (permissions db) (permissions db') (delete i)) e.named
      (withdraws p e.owner (IsDistinct-find _ s.apps e.listed)
        (ap (find (λ (q : Policy). q.client_id == p.client_id)) e.policies
          ∙ find-eq-none _ (filter keep db.policies) (λ q l.
            let (m, t) = In-filter keep db.policies l in
            eq_false_of_ne q.client_id p.client_id (λ same.
              let e' = IsDistinct-unique _ s.apps m e.listed same in
              never_both t (rw (e', same_text p.id) refl))))
        (record {
          others = λ app other.
              ap (find (λ (q : Policy). q.client_id == app)) e.policies
              ∙ find-filter_other _ keep db.policies
                  (λ q m t. other_app s e.listed m other (eq_true_of_not _ t));
        }))
  where
    eq_true_of_not : (b : Bool) → not b ≡ false → b ≡ true
    eq_true_of_not b h = ground arith

step-Change :
    (rt : Runtime) {db db' : Db} {who : String} {call : Call}
    → IsSound db
    → Step rt db db' who call
    → IsSound db'
      × (db'.categories ≡ db.categories)
      × Change db.categories who (permissions db) (permissions db') call
step-Change rt {db} {who} s (creates input default now r h) =
    let e = create_policy-IsCreated rt db who input default now h in
    (
      create-IsSound s e,
      e.categories,
      create-Change (by_request (new_policy-IsAsked rt db who input now)) e,
    )
step-Change rt {db} {who} s (updates id input now r h) =
    let (p, e) = update_policy-IsUpdated rt db who id input now h in
    (update-IsSound input (rt.iso now) s e, e.categories, update-Change input (rt.iso now) s e)
step-Change rt {db} {who} s (deletes id r h) =
    let (p, e) = delete_policy-IsDeleted db who id h in
    (delete-IsSound s e, e.categories, delete-Change s e)
step-Change rt {db} {who} s (restores app now r h) =
    let (c, e) = restore_defaults-IsCreated rt db who app now h in
    (
      create-IsSound s e,
      e.categories,
      create-Change (by_default (default_request-IsDefault rt db who app c now)) e,
    )

implemented :
    (rt : Runtime) (db db' : Db) (calls : List (String × Call))
    → IsSound db
    → Steps rt db calls db'
    → IsSound db'
      × (db'.categories ≡ db.categories)
      × Changes db.categories (permissions db) calls (permissions db')
implemented rt db db' calls s done = (s, refl, unchanged)
implemented rt db db' calls s (next {db' = middle} {who} {call} steps step) =
    let (t, same, changes) = implemented rt db middle _ s steps in
    let (u, kept, change) = step-Change rt t step in
    (
      u,
      kept ∙ same,
      further who changes (
          subst (λ categories. Change categories who (permissions middle) (permissions db') call)
            same change),
    )

-- The table of policies, whose keys are unique and whose policies are for apps of their own owners,
-- stays so under all calls of the owners on it, in any order; and it then behaves as a partial map from
-- apps to permissions, on which each call does what it asks for, to permissions of the caller, and
-- touches no other app's: to an app that has none, a creation grants those of its request, and a
-- restoration some to read in all categories without an end or a confirmation; an update amends the given fields of the permissions of its id; and a deletion
-- withdraws those of its id.
pub Steps-Changes :
    (rt : Runtime) (db db' : Db) (calls : List (String × Call))
    → IsSound db
    → Steps rt db calls db'
    → IsSound db' × Changes db.categories (permissions db) calls (permissions db')
Steps-Changes rt db db' calls s steps =
    let (t, same, changes) = implemented rt db db' calls s steps in (t, changes)
