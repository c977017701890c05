-- ===== src/Suggestions.antt =====
-- apps/api/src/memory-suggestions: what clients and jobs propose, and the owner's review of it.
pub mod Store
pub mod Records
pub mod Archive
pub mod Review
pub mod Intake
pub mod Settled
pub mod Applied
pub mod Taken
pub mod Once
pub mod Rounds
pub mod Bulk
pub mod Authorized
pub mod Survivors
