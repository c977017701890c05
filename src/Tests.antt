-- ===== src/Tests.antt =====
-- Concrete runs, at which the theorems of the other modules are applied.
pub mod Sample
pub mod Policies
pub mod Disclosures
pub mod Archives
pub mod Credentials
pub mod Connectors
pub mod Proposals
pub mod Permissions
pub mod Clients
pub mod Pages
