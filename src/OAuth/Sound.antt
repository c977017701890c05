-- ===== src/OAuth/Sound.antt =====
-- apps/api/src/oauth: what holds of the tables whatever the connectors and the users do.
pub mod Decisions
pub mod Exchanges
pub mod Reached
