-- ===== src/Lib.antt =====
-- A verification library for the services of a knowledge map: documents are registered (ingest),
-- facts extracted from them are resolved and classified (catalog), facts on one parameter are
-- compared (epistemic), evidence is collected for a question (search) and an answer is written and
-- checked (answer, llm). Services pass events through a table and a broker (platform/outbox,
-- platform/events, platform/nats) and the identity of the user in signed metadata (platform/auth).
--
-- Parts and files, with paths from the root of the repository:
--   Prelude        Boolean tests, lists, maps as association lists, results; no code of its own
--   Float          the operations of float64 as a record of parameters
--   Auth           internal/platform/auth/auth.go, rbac.go: HasRole, KnownRoles, DocAccessForRoles, Allowed
--   Auth.Verifiers demo.go, composite.go: Verify
--   Auth.Signed    grpc.go: outgoingContext, principalFromIncoming, verifyIncoming
--   Events         internal/platform/events: ValidateType, New, Validate, Marshal, Unmarshal
--   Events.Bus     internal/platform/nats/bus.go: handle, deadLetter, PublishWithHeaders
--   Outbox         internal/platform/outbox/outbox.go: Append, Drain, claimRecords
--   Ingest         internal/ingest: NormalizeMeta, RegisterDocument, Register
--   Llm            internal/llm: Complete, attempt, modelChain, and the fallback over providers
--   Catalog        internal/catalog: NormalizeBounds, ClassifyFact, buildCommand
--   Catalog.Store  internal/catalog/adapters/pg/repository.go: Commit, over the tables of db/migrations
--   Catalog.Merge  the same file: MergeEntities, UpdateFactStatus, MarkDocumentFailed
--   Catalog.Publish internal/catalog/app/service.go: buildEnvelopes and the end of CommitExtraction
--   Consensus      internal/epistemic/app/consensus.go: ComputeConsensus
--   Search         internal/search/app: rankFacts, assignRefs, factFilter, buildPack
--   Answer         internal/answer/app: Ask, replayCached, runGuard, interleaveChunks
--   Answer.Cache   internal/answer/adapters/pg/cache.go: Get, Put, Invalidate; ports/consumer: handle
--   Answer.Deltas  internal/answer/app/synth.go: chunkDeltas
--   Answer.Synth   the same file: synthesize, deriveMethods and the paragraphs of a summary
--   Rls            internal/platform/pg/rls.go: WithRLS, and the policy on documents of db/migrations
--   Blob           internal/platform/blob: URI, ParseURI, and the store in memory
--   Gateway        internal/gateway/ports/http: authorize with its audit, the routes, and
--                  documentFileHandler with rfc5987Escape
--   Witnesses      the theorems at concrete inputs
--
-- State is explicit: the tables of the database are records of lists, a transaction that fails
-- leaves them as they were, and each step that can fail is an argument that says whether it does.
-- The keys and references of the tables are written out where a statement depends on them, and the
-- facts that row security hides from a session are told by an argument. The worker on committed facts
-- reads the event that a commit appends, which Catalog.Publish builds and follows into the outbox.
-- Loops are recursions on the list that they walk, so no fuel is needed, except that chunkDeltas runs
-- on fuel, one unit for each word and one more; the loop of attempts in Llm
-- recurses on the number of attempts that are left, at first 2 for each model.
--
-- Not modelled: SQL text, HTTP, JSON, protobuf and hashing, which are parameters; floating-point
-- numbers, whose operations are the fields of Float, with the laws of an order where a theorem says
-- so; goroutines, delays and deadlines; most handlers of the gateway, the planner, the synthesis by a model, configuration and
-- start-up; the services in other languages.
pub mod Prelude
pub mod Auth
pub mod Events
pub mod Gateway
pub mod Outbox
pub mod Ingest
pub mod Llm
pub mod Float
pub mod Blob
pub mod Catalog
pub mod Consensus
pub mod Rls
pub mod Search
pub mod Answer
pub mod Witnesses
