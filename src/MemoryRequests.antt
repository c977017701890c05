-- ===== src/MemoryRequests.antt =====
-- apps/api/src/memory-requests: what a client is given, at once or after the owner's approval.
pub mod Bundle
pub mod Runtime
pub mod Disclosure
pub mod Invalidation
pub mod Preview
pub mod Review
pub mod Collection
pub mod Create
pub mod OneTime
