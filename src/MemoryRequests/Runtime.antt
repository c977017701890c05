-- ===== src/MemoryRequests/Runtime.antt =====
-- What the memory requests use and do not implement: the digests of node:crypto over JSON and the
-- ids that the database hands out.
use funes_vault.Common.{ℕ, String, Option}
use funes_vault.Vault.Enums.{TrustLevel, Retention}
use funes_vault.Vault.Store.{Snapshot, Client}

pub record Runtime : Type 0 where
  -- The id of the n-th row.
  pub cuid : ℕ → String
  -- SHA-256 over the JSON list of id, name, trust level, retention, token hash and registration.
  pub client_digest :
      String → String → TrustLevel → Retention → Option String → Option String → String
  -- SHA-256 over the JSON of the request's id and the snapshot's fields.
  pub preview_digest : String → Snapshot → String

pub data Error : Type 0 where
  not_found : Error
  already_reviewed : Error
  preview_changed : Error
  not_in_preview : Error
  -- A TypeError: a property of null was read.
  null_access : Error

-- `clientRevision`
abbrev pub client_revision : Runtime → Client → String
client_revision rt c =
    rt.client_digest c.id c.name c.trust_level c.declared_retention c.token_hash
      c.oauth_registration_id
