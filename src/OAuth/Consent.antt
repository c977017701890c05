-- ===== src/OAuth/Consent.antt =====
-- apps/api/src/oauth/oauth-grants.service.ts, and `authorize` and `challengeForAuthorizationCode` of
-- oauth-provider.service.ts: a connector asks for a grant, and a user decides on it. An approval and a
-- denial load the request before their transaction.
pub mod Requests
pub mod Grants
