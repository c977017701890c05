-- ===== src/MemoryRequests/Create/Rows.antt =====
-- The row that a new request adds.
use funes_vault.Common.{ℕ, String, ◌≡◌, refl, List, [], ◌∷◌, ◌++◌}
use funes_vault.Vault.Enums.{Decision, allow, needs_confirmation, deny}
use funes_vault.Vault.Store.{Memory, MemoryRequest, Db}
use funes_vault.Policies.{Evaluation}
use funes_vault.MemoryRequests.Runtime.{Runtime}
use funes_vault.MemoryRequests.Preview.{Proposal}
use funes_vault.MemoryRequests.Create.{BundleRequest, answer, create_in_transaction}

pub answer_rows :
    (rt : Runtime) (db : Db) (r : MemoryRequest) (policy : Evaluation) (current : List (Memory × ℕ))
    (d : Decision)
    → (answer rt db r policy current d).1.requests ≡ db.requests
unfolding answer
answer_rows rt db r policy current allow = refl
answer_rows rt db r policy current needs_confirmation = refl
answer_rows rt db r policy current deny = refl

-- One row is added, under the next id.
pub create_rows :
    (rt : Runtime) (db : Db) (user_id client_id : String) (body : BundleRequest) (gate : Evaluation)
    (found : List Proposal) (now : ℕ)
    → (r : MemoryRequest) × (r.id ≡ rt.cuid db.rows)
      × ((create_in_transaction rt db user_id client_id body gate found now).1.requests
          ≡ db.requests ++ r ∷ [])
unfolding create_in_transaction
create_rows rt db user_id client_id body gate found now = (_, refl, answer_rows rt _ _ _ _ _)
