-- ===== src/OAuth.antt =====
-- apps/api/src/oauth: the credentials of connectors.
pub mod Store
pub mod Tokens
pub mod Provider
pub mod Usable
pub mod Revoked
pub mod Scopes
pub mod Replay
pub mod Registrations
pub mod Permissions
pub mod Consent
pub mod Decisions
pub mod Decided
pub mod Frames
pub mod Effects
pub mod Sound
pub mod Steps
pub mod Enrolled
pub mod Spared
pub mod Extended
pub mod Operations
pub mod Connection
