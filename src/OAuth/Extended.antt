-- ===== src/OAuth/Extended.antt =====
-- What an approval does to the client and the policy of the connector.
use funes_vault.Common.{
  ℕ, String, ◌≡◌, refl, sym, ap, ◌∙◌, subst, true, ◌&&◌, ◌||◌, ◌==◌, Option, none, some, List, [],
  find, find_sound, find-update_where, find-append_new, In, ok, eq_iff, arith, opt_is,
  if◌then◌else◌,
}
use funes_vault.Vault.Enums.{TrustLevel, Operation, is_trusted}
use funes_vault.Vault.Store.{Client, Policy}
use funes_vault.OAuth.Store.{Registration, AuthorizationRequest, Db, Runtime}
use funes_vault.OAuth.Permissions.{find_grant_client, scopes_to_operations, resulting_operations}
use funes_vault.OAuth.Consent.Requests.{find_request, grant_policy, has_operation}
use funes_vault.OAuth.Consent.Grants.{
  DecisionInput, approve, set_trusted, set_operations, grant_client, new_policy,
  ensure_grant_client, ensure_grant_policy,
}
use funes_vault.OAuth.Effects.{approve-HasGranted}
use funes_vault.OAuth.Frames.{
  ensure_grant_client_cases, ensure_grant_policy_cases, ensure_grant_client-Keeps,
}
use funes_vault.OAuth.Operations.{
  no_repeats, has_operation-resulting_operations, resulting_operations_same,
}

abbrev pub operations_of : Option Policy → List Operation
operations_of none = []
operations_of (some p) = p.operations

-- The policy `p` has the operations of `old` and those that the scopes ask for, and no other.
abbrev pub Joins : List Operation → List String → Policy → Type 0
Joins old scopes p =
    (o : Operation)
    → has_operation p.operations o
      ≡ (has_operation old o || has_operation (scopes_to_operations scopes) o)

-- The client by which the user has granted the registration.
abbrev pub Granted : Db → String → Registration → Client → Type 0
Granted db user_id g c =
    (find_grant_client db user_id g.id ≡ some c) × (c.trust_level ≡ TrustLevel.approved)

pub ensure_grant_client-Granted :
    (rt : Runtime) (db : Db) (user_id : String) (g : Registration) {c : Client} {db1 : Db}
    → ensure_grant_client rt db user_id g ≡ ok (c, db1)
    → Granted db1 user_id g c
ensure_grant_client-Granted rt db user_id g h =
    ensure_grant_client_cases rt db user_id g (λ c db1. Granted db1 user_id g c)
      (λ c found t. (found, trusted_level c.trust_level t))
      (λ c found u. (
        find-update_where _ _ set_trusted db.clients (λ y. refl) found
            ∙ ap (λ b. some (if b then set_trusted c else c)) ((eq_iff c.id c.id).1 refl),
        refl,
      ))
      (λ absent fresh. (
        find-append_new _ db.clients (grant_client rt db user_id g) absent
            (ground (arith, (eq_iff user_id user_id).1 refl, (eq_iff g.id g.id).1 refl)),
        refl,
      ))
      h
  where
    trusted_level : (t : TrustLevel) → is_trusted t ≡ true → t ≡ TrustLevel.approved
    trusted_level t h = ground arith

ensure_grant_policy-Joins :
    (rt : Runtime) (user_id : String) (c : Client) (scopes : List String) (now : ℕ) (db : Db)
    {db2 : Db}
    → ((p : Policy) → In p db.policies → no_repeats p.operations ≡ true)
    → ensure_grant_policy rt user_id c scopes now db ≡ ok db2
    → (p : Policy) × (grant_policy db2 user_id c.id ≡ some p)
      × Joins (operations_of (grant_policy db user_id c.id)) scopes p
ensure_grant_policy-Joins rt user_id c scopes now db distinct h =
    ensure_grant_policy_cases rt user_id c scopes now db
      (λ db2.
        (p : Policy) × (grant_policy db2 user_id c.id ≡ some p)
        × Joins (operations_of (grant_policy db user_id c.id)) scopes p)
      (λ p found same. (
        p,
        found,
        λ o.
            ap (λ os. has_operation os o)
              (sym (
                resulting_operations_same p.operations scopes
                  (distinct p (find_sound _ db.policies p found).0) same))
            ∙ joined p found o,
      ))
      (λ p found.
        let merged = set_operations (resulting_operations p.operations scopes) (rt.iso now) in
        (
          merged p,
          find-update_where _ _ merged db.policies (λ y. refl) found
              ∙ ap (λ b. some (if b then merged p else p)) ((eq_iff p.id p.id).1 refl),
          joined p found,
        ))
      (λ absent fresh. (
        new_policy rt db user_id c scopes now,
        find-append_new _ db.policies (new_policy rt db user_id c scopes now) absent
            (ground (arith, (eq_iff c.id c.id).1 refl, (eq_iff user_id user_id).1 refl)),
        λ o. rw absent refl,
      ))
      h
  where
    joined :
        (p : Policy)
        → grant_policy db user_id c.id ≡ some p
        → (o : Operation)
        → has_operation (resulting_operations p.operations scopes) o ≡ (
            has_operation (operations_of (grant_policy db user_id c.id)) o
            || has_operation (scopes_to_operations scopes) o)
    joined p found o = rw found (has_operation-resulting_operations o p.operations scopes)

-- Where no policy lists an operation twice, an approval leaves the user a trusted client for the
-- connector, and for that client a policy with the operations that it had before, those that the
-- scopes of the request ask for, and no other.
pub approve-Joins :
    (rt : Runtime) (db : Db) (input : DecisionInput) (now : ℕ) (url : String) (db' : Db)
    → ((p : Policy) → In p db.policies → no_repeats p.operations ≡ true)
    → approve rt db input now ≡ ok (url, db')
    → (r : AuthorizationRequest) × (c : Client) × (p : Policy) × (find_request db input.request_id
        ≡ some r)
      × (find_grant_client db' input.user_id r.registration_id ≡ some c)
      × (c.trust_level ≡ TrustLevel.approved)
      × (grant_policy db' input.user_id c.id ≡ some p)
      × Joins (operations_of (grant_policy db input.user_id c.id)) r.scopes p
approve-Joins rt db input now url db' distinct h =
    let (r, g, c, pending, e) = approve-HasGranted rt db input now h in
    let (k, same_policies) = ensure_grant_client-Keeps rt db input.user_id g e.client_ensured in
    let (found, trusted) = ensure_grant_client-Granted rt db input.user_id g e.client_ensured in
    let (p, policy_found, joins) =
      ensure_grant_policy-Joins rt input.user_id c r.scopes now e.db1
        (subst (λ ps. (p : Policy) → In p ps → no_repeats p.operations ≡ true) (sym same_policies)
          distinct)
        e.policy_ensured in
    let own : g.id ≡ r.registration_id =
      (eq_iff g.id r.registration_id).0 (find_sound _ db.registrations g pending.registered).1 in
    (
      r,
      c,
      p,
      pending.found,
      subst
          (λ id.
            find (λ (x : Client). x.user_id == input.user_id && opt_is x.oauth_registration_id id)
              db'.clients
            ≡ some c)
          own
          (ap
              (λ cs.
                find
                  (λ (x : Client).
                    x.user_id == input.user_id && opt_is x.oauth_registration_id g.id)
                  cs)
              e.clients
            ∙ found),
      trusted,
      ap (find (λ (x : Policy). x.client_id == c.id && x.user_id == input.user_id)) e.policies
          ∙ policy_found,
      subst
          (λ ps.
            Joins
              (operations_of
                (find (λ (x : Policy). x.client_id == c.id && x.user_id == input.user_id) ps))
              r.scopes p)
          same_policies joins,
    )
