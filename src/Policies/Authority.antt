-- ===== src/Policies/Authority.antt =====
-- The gate of policy-evaluation.service.ts: who may ask for memories at all.
use funes_vault.Common.{
  some_cancel, [], ℕ, String, ◌≡◌, refl, ◌≢◌, true, false, Option, none, some, List, arith, In, any,
  any_sound, find_sound, eq_iff, subst, ap,
}
use funes_vault.Vault.Enums.{Operation, same_operation, TrustLevel, is_blocked, deny, RequestReason}
use funes_vault.Vault.Store.{Memory, Policy, Client, Db, find_client}
use funes_vault.Policies.{
  evaluate_candidate_memories, version_of, evaluate_for_client, gate_reason, has_expired,
  bind_policy, conclude,
}
use funes_vault.Policies.Disclosable.{IsAhead, IsAhead-of_unexpired}

-- The owner's client may perform the operation: it is the owner's and not blocked, and its policy,
-- which is the owner's too, has not expired and grants the operation.
pub record HasAuthority (db : Db) (user_id client_id : String) (operation : Operation) (now : ℕ)
    (c : Client) (p : Policy) : Type 0 where
  pub client_listed : In c db.clients
  pub client_named : c.id ≡ client_id
  pub client_owner : c.user_id ≡ user_id
  pub trusted : c.trust_level ≢ TrustLevel.blocked
  pub policy_listed : In p db.policies
  pub policy_bound : p.client_id ≡ client_id
  pub policy_owner : p.user_id ≡ user_id
  pub in_force : IsAhead p.expires_at now
  pub granted : In operation p.operations

pub same_operation_sound : (a b : Operation) → same_operation a b ≡ true → a ≡ b
same_operation_sound a b h = ground arith

operations_sound :
    (op : Operation) (ops : List Operation) → any (same_operation op) ops ≡ true → In op ops
operations_sound op ops h =
    let (a, l, t) = any_sound (same_operation op) ops h in
    subst (λ o. In o ops) (same_operation_sound a op (ground arith)) l

-- A gate that gives no reason has found a client and a policy in force that grants the operation.
gate_reason_sound :
    (client : Option Client) (policy : Option Policy) (op : Operation) (now : ℕ)
    → gate_reason client policy op now ≡ none
    → (c : Client) × (p : Policy) × (client ≡ some c)
      × (policy ≡ some p)
      × (is_blocked c.trust_level ≡ false)
      × (has_expired p.expires_at now ≡ false)
      × (any (same_operation op) p.operations ≡ true)
gate_reason_sound none policy op now h = cc h
gate_reason_sound (some c) none op now h = absurd (ground arith)
gate_reason_sound (some c) (some p) op now h =
    (c, p, refl, refl, ground arith, ground arith, ground arith)

gate_of_not-deny :
    (reason : Option RequestReason) (policy : Option Policy) (cands : Option (List Memory))
    (now : ℕ)
    → (conclude reason policy cands now).decision ≢ deny
    → reason ≡ none
gate_of_not-deny none policy cands now h = refl
gate_of_not-deny (some r) policy cands now h = absurd (h refl)

-- An evaluation that does not deny rests on the authority of the owner's client.
pub evaluate_for_client-HasAuthority :
    (db : Db) (user_id client_id : String) (op : Operation) (now : ℕ) (cands : Option (List Memory))
    → (evaluate_for_client db user_id client_id op now cands).decision ≢ deny
    → (c : Client) × (p : Policy) × ((evaluate_for_client db user_id client_id op now cands).client
        ≡ some c)
      × ((evaluate_for_client db user_id client_id op now cands).policy ≡ some p)
      × HasAuthority db user_id client_id op now c p
unfolding evaluate_for_client
evaluate_for_client-HasAuthority db user_id client_id op now cands h =
    let client = find_client db user_id client_id in
    let policy = bind_policy db client in
    let (c, p, ec, ep, trusted, in_force, granted) =
      gate_reason_sound client policy op now (gate_of_not-deny _ policy cands now h) in
    let (cl, ct) = find_sound _ db.clients c ec in
    let (pl, pt) = find_sound _ db.policies p (rw ec at ep) in
    (
      c,
      p,
      ec,
      ep,
      record {
        client_listed = cl;
        client_named = ground (arith, eq_iff c.id client_id);
        client_owner = ground (arith, eq_iff c.user_id user_id);
        trusted = λ e. cc (trusted, ap is_blocked e);
        policy_listed = pl;
        policy_bound = ground (arith, eq_iff p.client_id c.id, eq_iff c.id client_id);
        policy_owner = ground (arith, eq_iff p.user_id c.user_id, eq_iff c.user_id user_id);
        in_force = IsAhead-of_unexpired p.expires_at now in_force;
        granted = operations_sound op p.operations granted;
      },
    )

-- The gate alone, with no candidates, allows no memory.
pub gate_allows_nothing :
    (db : Db) (user_id client_id : String) (op : Operation) (now : ℕ)
    → (evaluate_for_client db user_id client_id op now none).allowed ≡ []
unfolding evaluate_for_client
gate_allows_nothing db user_id client_id op now =
    refused _ (bind_policy db (find_client db user_id client_id)) now
  where
    refused :
        (reason : Option RequestReason) (policy : Option Policy) (now : ℕ)
        → (conclude reason policy none now).allowed ≡ []
    refused none none now = refl
    refused none (some p) now = refl
    refused (some r) policy now = refl

-- The version of an evaluation is that of its policy.
pub evaluate_for_client-version :
    (db : Db) (user_id client_id : String) (op : Operation) (now : ℕ) (cands : Option (List Memory))
    (p : Policy)
    → (evaluate_for_client db user_id client_id op now cands).policy ≡ some p
    → (evaluate_for_client db user_id client_id op now cands).policy_version ≡ some p.updated_at
unfolding evaluate_for_client
evaluate_for_client-version db user_id client_id op now cands p h = ap version_of h

result_of_open :
    (reason : Option RequestReason) (policy : Option Policy) (cs : List Memory) (now : ℕ)
    (p : Policy)
    → (conclude reason policy (some cs) now).decision ≢ deny
    → policy ≡ some p
    → conclude reason policy (some cs) now ≡ evaluate_candidate_memories p cs now
result_of_open (some r) policy cs now p h e = absurd (h refl)
result_of_open none none cs now p h e = cc e
result_of_open none (some q) cs now p h e =
    ap (λ x. evaluate_candidate_memories x cs now) (some_cancel e)

-- An evaluation of candidates that does not deny is the policy's evaluation of them.
pub evaluate_for_client-candidates :
    (db : Db) (user_id client_id : String) (op : Operation) (now : ℕ) (cs : List Memory)
    (p : Policy)
    → (evaluate_for_client db user_id client_id op now (some cs)).decision ≢ deny
    → (evaluate_for_client db user_id client_id op now (some cs)).policy ≡ some p
    → (evaluate_for_client db user_id client_id op now (some cs)).result
      ≡ evaluate_candidate_memories p cs now
unfolding evaluate_for_client
evaluate_for_client-candidates db user_id client_id op now cs p h e =
    result_of_open _ (bind_policy db (find_client db user_id client_id)) cs now p h e
