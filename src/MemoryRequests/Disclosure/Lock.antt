-- ===== src/MemoryRequests/Disclosure/Lock.antt =====
-- What `lockDisclosureRequest` finds.
use funes_vault.Common.{
  String, ◌≡◌, true, Option, In, arith, ok, find_sound, eq_iff, or_throw-eq-ok,
}
use funes_vault.Vault.Store.{MemoryRequest, Db}
use funes_vault.MemoryRequests.Runtime.{not_found}
use funes_vault.MemoryRequests.Disclosure.{lock_disclosure_request, matches_client}

-- The row that the caller may act on: it is listed, and its id, owner and, where one is given, its
-- client are the caller's.
pub record IsLocked (db : Db) (user_id id : String) (client_id : Option String) (r : MemoryRequest)
    : Type 0 where
  pub listed : In r db.requests
  pub same_id : r.id ≡ id
  pub same_owner : r.user_id ≡ user_id
  pub same_client : matches_client client_id r ≡ true

pub lock_sound :
    (db : Db) (user_id id : String) (client_id : Option String) (r : MemoryRequest)
    → lock_disclosure_request db user_id id client_id ≡ ok r
    → IsLocked db user_id id client_id r
unfolding lock_disclosure_request
lock_sound db user_id id client_id r h =
    let (l, t) = find_sound _ db.requests r (or_throw-eq-ok _ not_found h) in
    record {
      listed = l;
      same_id = ground (arith, eq_iff r.id id);
      same_owner = ground (arith, eq_iff r.user_id user_id);
      same_client = ground arith;
    }
