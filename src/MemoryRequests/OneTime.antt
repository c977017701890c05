-- ===== src/MemoryRequests/OneTime.antt =====
-- The life of the requests of apps/api/src/memory-requests: the transactions on them as steps, in any
-- order and with any other writes to the vault between them.
pub mod Spent
pub mod Change
pub mod Once
use funes_vault.Common.{
  ℕ, String, ◌≡◌, ◌≢◌, Option, none, some, List, In, ok, map, if◌then◌else◌, opt_is,
}
use funes_vault.Vault.Store.{MemoryRequest, Db}
use funes_vault.Policies.{Evaluation}
use funes_vault.MemoryRequests.Runtime.{Runtime}
use funes_vault.MemoryRequests.Preview.{Proposal, Preview}
use funes_vault.MemoryRequests.Review.{Review, preview_in_transaction, decide}
use funes_vault.MemoryRequests.Collection.{Response, result}
use funes_vault.MemoryRequests.Create.{BundleRequest, create_in_transaction}

-- `onDelete: SetNull` of the request's policy.
abbrev pub unlink : String → MemoryRequest → MemoryRequest
unlink policy_id r = if opt_is r.policy_id policy_id then record r { policy_id = none } else r

-- A transaction that commits. `creates` uses that a new id is not taken; `elsewhere` is any write that
-- leaves the table of requests alone, and `unlinks` the deletion of a policy.
pub data Step (rt : Runtime) (before after : Db) : Type 0 where
  previews :
      (user_id id : String) (found : List Proposal) (now : ℕ) (shown : Preview)
      → preview_in_transaction rt before user_id id found now ≡ ok (shown, after)
      → Step rt before after
  decides :
      (user_id id : String) (review : Review) (found : List Proposal) (now : ℕ)
      → decide rt before user_id id review found now ≡ ok after
      → Step rt before after
  collects :
      (user_id client_id id : String) (now : ℕ) (resp : Response)
      → result rt before user_id client_id id now ≡ ok (resp, after)
      → Step rt before after
  creates :
      (user_id client_id : String) (body : BundleRequest) (gate : Evaluation)
      (found : List Proposal) (now : ℕ) (resp : Response)
      → ((r : MemoryRequest) → In r before.requests → r.id ≢ rt.cuid before.rows)
      → create_in_transaction rt before user_id client_id body gate found now ≡ (resp, after)
      → Step rt before after
  elsewhere : after.requests ≡ before.requests → Step rt before after
  unlinks :
      (policy_id : String)
      → after.requests ≡ map (unlink policy_id) before.requests
      → Step rt before after

pub data Reach (rt : Runtime) (start : Db) : Db → Type 0 where
  here : Reach rt start start
  next : {db db' : Db} → Reach rt start db → Step rt db db' → Reach rt start db'
