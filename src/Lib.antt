-- ===== src/Lib.antt =====
-- Funes Vault: a personal memory vault that discloses memories to AI clients under its owner's policies.
--
-- The parts and how they interact:
--   A client asks for memories (apps/api/src/memory-requests/memory-requests.service.ts). The policy of
--   the client (apps/api/src/policies/policy-evaluation.service.ts) answers at once, refuses, or asks the
--   owner, who previews what would be shared and decides on it (disclosure-preview.ts and
--   disclosure-review.service.ts beside it); an approval is collected by the client once. What is shared
--   is compiled under a token budget (bundle-compiler.service.ts) and recorded. Connectors reach the
--   vault by OAuth credentials (apps/api/src/oauth). Beside the vault's server, the web application
--   keeps a queue of captures (apps/web/src/features/capture) and the state of a voice session
--   (apps/web/src/features/voice).
--   Clients and jobs also propose memories (apps/api/src/memory-suggestions): the policy of a client may
--   let it write at once, else the owner reviews. The owner administers the clients
--   (apps/api/src/clients) and the policies that they stand under.
--
-- Which file models which part:
--   Common and its children: Boolean tests, lists, keyed lists and results of calls that may throw.
--   Vault/Enums, Vault/Store: packages/shared/src/enums.ts and domain.ts, and the tables of
--     packages/db/prisma/schema.prisma, as one record `Db` that is passed along.
--   Policies: policy-evaluation.service.ts (denialReason, evaluateCandidateMemories,
--     evaluateForClient); Disclosable, Sorting and Authority hold its theory.
--   MemoryRequests/Bundle: bundle-compiler.service.ts (compile and its helpers).
--   MemoryRequests/Disclosure, Invalidation: disclosure-context.ts, disclosure-snapshot.ts,
--     disclosure-state.ts, disclosure-audit.ts and `invalidate`.
--   MemoryRequests/Preview: disclosure-preview.ts. MemoryRequests/Review: `preview` and `decide` of
--     disclosure-review.service.ts. MemoryRequests/Collection: its `result`.
--   MemoryRequests/Create: memory-requests.service.ts (createBundleRequest).
--   MemoryRequests/OneTime: the transactions on requests as steps, in any order.
--   OAuth/Store, OAuth/Tokens, OAuth/Provider: apps/api/src/oauth/oauth-tokens.service.ts and
--     oauth-provider.service.ts (the exchanges and revocations of a connector's credentials).
--   OAuth/Registrations: oauth-clients-store.service.ts. OAuth/Permissions: oauth-permissions.ts.
--   OAuth/Consent: `authorize`, and oauth-grants.service.ts (getConsentContext, approve, deny).
--   OAuth/Steps: the calls of connectors and users as steps; OAuth/Sound holds its invariant.
--   Suggestions: apps/api/src/memory-suggestions. Store has its tables, Records the rows and the claim,
--     Intake the proposals (suggestion-intake.service.ts, suggestion-writer.service.ts), Review and
--     Archive the owner's decisions (suggestion-review.service.ts, suggestion-bulk-review.service.ts,
--     archive-suggestion-applier.ts); Once has them as steps.
--   Administration: apps/api/src/policies/policies.service.ts, with the defaults of
--     apps/api/src/first-party-access. Permissions has its calls, Steps the map from apps to
--     permissions that the table stands for, and what a call may do to it; Refined has its theory.
--     Clients is apps/api/src/clients/clients.service.ts, on the tables of OAuth/Store; Frames and
--     CutOff hold its theory. Vault/Apps: packages/shared/src/app-permissions.ts.
--   CaptureQueue: apps/web/src/features/capture/capture-queue.ts.
--   Consolidation: apps/api/src/consolidation/dedupe-candidates.ts.
--   VoiceSession: apps/web/src/features/voice/voice-session-state.ts.
--   Tests: concrete runs.
--
-- Conventions. An instant is a number of milliseconds, and the several `new Date()` of one call are one
--   instant. A text whose characters are counted is the list of its UTF-16 code units; a relevance
--   score is a whole number of millionths. The body of a transaction is a function from tables to
--   tables; a call that throws is an `err` and leaves the tables as they were. The transactions on a
--   request follow one another, as the row lock makes them; the gate and the retrieval of a request
--   precede its transaction, and are arbitrary arguments of it. Every recursion is structural, so no
--   fuel is needed.
--   A failing exchange of OAuth may have written, so it gives its outcome and the tables; the
--   statements of one exchange follow one another. A decision on a request for a grant loads the
--   request and runs its transaction with nothing between; `approve_transaction` is the transaction.
--   The unique columns of the schema are tested where a client, a policy, a registration, a code, a
--   suggestion or a memory is created, and where a client is renamed; those of the tokens and of the
--   items of a request are not. The registration of a connector counts the pending ones and creates
--   its row in separate statements; the model has them follow one another, so that the bound on
--   pending registrations is one for calls that do not overlap. The upload of captures has nothing
--   else add or remove captures while it waits for the vault. A credential that the administration of
--   clients generates is an argument of the call.
--
-- Assumptions. The digests of node:crypto and the ids of the database are fields of the record
--   `Runtime`, of which nothing is assumed (OAuth has one of its own, with its random credentials,
--   the normal form of a URL and the configured lifetimes); that ids are primary keys is the
--   hypothesis HasUniqueIds, HasUniqueClients, HasUniquePolicies or HasUniqueTokens, for the captures
--   IsDistinct, and for the administered policies IsSound. Retrieval may propose anything. Of an
--   audit event's metadata, the model keeps what was decided and which memories were shared. The
--   comparison of `localeCompare` and the replies of the vault to an upload are arguments.
--   The test of secret-like content is an argument; an embedding that is asked for is a row of a list.
--
-- Not modelled: the pages of consent, retrieval and embeddings (queries of a vector index and a
--   provider), chat and voice streams, sessions and cookies, jobs, exports, the guard of client
--   credentials, the enrolment of the first-party apps, what the deletion of a client takes along
--   of its requests and suggestions, the rest of consolidation, the MCP server and the pages
--   themselves.
pub mod Common
pub mod Vault
pub mod OAuth
pub mod Administration
pub mod Suggestions
pub mod Policies
pub mod Consolidation
pub mod MemoryRequests
pub mod CaptureQueue
pub mod Tests
pub mod VoiceSession
