-- ===== src/Lib.antt =====
-- The FDE context platform: a service that gathers the artifacts of customer engagements. Several
-- tenants share one database. Every tenant-facing query runs in a transaction of one tenant, the data
-- of an engagement is encrypted under a key of its own, and permissions are relationships between
-- users, tenants and engagements.
--
-- The parts and their files, with paths from the root of the repository:
--
--   Authz         packages/authz/src/in-memory.ts, types.ts: relationship tuples and the permission
--                 resolver (`check`, `resolve`, `relation_holds`). `resolve` takes fuel, and `check`
--                 gives twice the number of tuples and two: each call opens a node that was not seen,
--                 and the nodes are the one asked for and at most two for each tuple.
--   Authz/Store   the operations of the same file that change the tuples, and `lookupResources`
--   Authz/Client  packages/authz/src/client.ts, schema.ts: the typed helpers
--   Authz/Grants  what a permission means, as an inductive relation on the tuples
--   Keys          packages/crypto/src/key-provider.ts: the interface and the laws that its users need
--   Keys/Kms, Keys/Fake
--                 kms-key-provider.ts and fake-key-provider.ts; the key service is a parameter
--   Tenancy       the tables of packages/db/src/schema that the next two use, transactions
--                 (packages/db/src/rls.ts) and the audit log (packages/audit/src/log-access.ts)
--   Tenancy/Engagement
--                 packages/db/src/engagement.ts and packages/crypto/src/factory.ts: opening an
--                 engagement, shredding it and rotating its key
--   Tenancy/BreakGlass
--                 packages/audit/src/break-glass.ts: time-boxed emergency grants
--   Common        shared names, lists over the native numbers, texts
--   Llm           packages/llm/src/router.ts, pricing.ts, types.ts, provider.ts: one metered model call
--   Llm/Agent     the agent loop of router.ts; its fuel is `maxIterations`, as in the code
--   Identity/Refs packages/identity/src/matching.ts: the references that identify an entity, as sets
--   Identity/ReviewQueue
--                 packages/identity/src/review-queue.ts: the tables, and moving the edges of an entity
--   Identity/ReviewQueue/Decide
--                 review-queue.ts, `applyMatchDecision`: a reviewer's decision on two entities
--   Workers/Chunk apps/workers/src/activities/chunk-transcript.ts: overlapping windows of a transcript;
--                 the fuel is the length of the text, as each round moves the start of the window
--   Workers/CaptureSession
--                 apps/workers/src/workflows/capture-session.ts; the poll loop recurs on the attempts
--   Identity/Refs/Keys
--                 packages/identity/src/matching.ts, `deterministicKeys`: lookup keys by tier
--   Integration   packages/core/src/custom-integration-normalize.ts: records that a customer's mapping
--                 derives from a JSON payload
--   Review        tools/review/src/types.ts and the keys of findings in github.ts
--   Review/Plan   tools/review/src/github.ts: planActions and computeVerdict
--   Review/Sink   tools/review/src/github.ts: GitHubSink.emit, with the answers of `gh` as an argument
--   Review/Passes, Review/Diff
--                 tools/review/src/passes.ts and diff.ts: duplicates, retractions, the byte budget
--   Graph         packages/db/src/graph-write.ts: entities and facts of an engagement; which of several
--                 matching entities a query with LIMIT 1 and no order returns is an argument
--   Graph/Edges   graph-write.ts: the edges, and the nodes that references name
--   Graph/Resolve packages/identity/src/resolve-entity.ts: a person or organisation, by tiers of keys
--   Graph/Persist packages/identity/src/persist-graph.ts and sync-seam.ts: one artifact's records
--   Purge         packages/db/src/crypto-shred-purge.ts: the sealed columns of a shredded engagement;
--                 the fuel of a table is one more than its rows
--   Purge/Workflow
--                 apps/workers/src/activities/crypto-shred.ts and workflows/crypto-shred.ts
--
-- Engagement opening and rotation take a KeyProvider as a parameter and rely on KeyProviderLaws; both
-- providers of Keys fulfil them. Base 64 is a parameter with Base64Laws. Times are natural numbers
-- of milliseconds, given as arguments, and so are the random bytes and ids that the code draws.
--
-- Not modelled: the web application, the HTTP layer, SpiceDB, the connectors' remote calls, the vector
-- search, row locks between concurrent transactions, and the ciphers of node:crypto.
pub mod Authz
pub mod Common
pub mod Graph
pub mod Identity
pub mod Integration
pub mod Keys
pub mod Llm
pub mod Purge
pub mod Review
pub mod Tenancy
pub mod Workers
