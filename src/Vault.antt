-- ===== src/Vault.antt =====
-- The vault's data: the enumerations that the applications share, and the stored records.
pub mod Enums
pub mod Apps
pub mod Store
