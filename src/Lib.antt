-- ===== src/Lib.antt =====
-- Verification of the edgemneme memory service: the parts of its TypeScript sources that decide what
-- a search returns, which scope a model may propose for a memory, how scope identifiers are written and
-- read, and how workflows are scheduled and repaired.
--
-- The program keeps project memories and answers searches over them. A search plans its hard filters
-- (src/search/planning.ts), asks up to three recall providers for hits, fuses their ranks
-- (src/search/ranking.ts), has the hits validated against the current heads, drops what the filters do
-- not admit, removes duplicates, selects a diverse set, has it reranked, and packs excerpts of the
-- relevant candidates into a context of bounded cost (src/search/pipeline.ts). A memory's content is
-- divided into chunks, which are what a hit names (src/search/chunking.ts).
--
-- When a model turns evidence into a memory, the server offers it the scopes that the memory may have,
-- and checks the scope and the citations that the model proposes (src/quality/scope-options.ts). What is
-- kept or sent to the model is inspected for secrets first (src/quality/sensitive-content.ts).
--
-- Workflow instances are created, reused or repaired by src/workflows/recovery.ts;
-- src/github/sync-scheduling.ts computes when and in which batches the synchronisation with GitHub runs;
-- src/github/link-pagination.ts finds the next page of a listing, and src/github/content-policy.ts says
-- which blobs are text. The files of a commit are kept as a manifest; one that failed is claimed after 30
-- days and purged in chunks (src/github/tree-manifest-retention.ts, src/github/tree-manifest-purge.ts).
-- The pages of a listing are named by signed tokens (src/security/page-token.ts).
--
-- Files and sources:
--   Contracts/Taxonomy     src/contracts/taxonomy.ts: the enumerations
--   Contracts/Scope        src/contracts/scope.ts: the identifiers of ref and worktree scopes,
--                          isFormalScopeEntityValid
--   Contracts/Validity     src/contracts/validity.ts: the check of a validity interval
--   Search/Types           src/search/types.ts: the records that the stages pass on
--   Search/Platform        what the code takes from the JavaScript runtime, as parameters
--   Search/Planning        src/search/planning.ts: planHardFilters, passesHardFilters
--   Search/Chunking        src/search/chunking.ts: chunkMemoryContent, selectAuthoritativeMemoryChunk
--   Search/Ranking         src/search/ranking.ts: fuseReciprocalRanks, deduplicateCandidates
--   Search/Diversity       src/search/ranking.ts: selectWithMmr and the similarities
--   Search/Lexical         src/search/lexical.ts: normalizeLexicalQuery
--   Search/Budget          src/search/pipeline.ts: estimateTokens, truncateToTokenBudget,
--                          fitMemoryToContextBudget and the packing loop
--   Search/Pipeline        src/search/pipeline.ts: argument checks and SearchPipeline.search
--   Search/Generations     src/search/ranking.ts: defineIndexGenerationMetadata
--   Search/Filtering       src/search/vector-filtering.ts: batchStringValues, compactStringFilter
--   Github/ContentPolicy   src/github/content-policy.ts: classifyGitHubBlobPath,
--                          classifyGitHubBlobBytes and their tables
--   Github/LinkPagination  src/github/link-pagination.ts: parseNextPageLink
--   Github/Retention       src/github/tree-manifest-purge.ts: purgeClaimedManifestEntries,
--                          deferFailedPurgeClaim; src/github/tree-manifest-retention.ts:
--                          loadRetentionCandidates, claimFailedManifest and the loop over the
--                          failed manifests in maintainGitHubTreeManifestRetention
--   Github/Scheduling      src/github/sync-scheduling.ts: slots, identities, waits and batches
--   Quality/ScopeOptions   src/quality/scope-options.ts: buildCandidateScopeOptions,
--                          resolveModelScopeOption, toModelScopeOptions
--   Quality/SensitiveContent  src/quality/sensitive-content.ts: inspectMemoryModelValue and the
--                          inspections of content, values and paths
--   Security/Crypto        src/security/crypto.ts: encodeBase64Url, decodeBase64Url, constantTimeEqual
--   Security/PageToken     src/security/page-token.ts: createPageToken, readPageToken
--   Workflows/Recovery     src/workflows/recovery.ts: ensureWorkflowWithRepair
--   Base                   lists, texts, maps, sorting and decimal numbers that these share
--
-- Representation. A text is its list of code points; lengths in UTF-16 units and in UTF-8 bytes are
-- computed from them. A string with an unpaired surrogate has that surrogate as a code point. A thrown
-- error is the `err` of a Result, and an error's value stands for its message. A Map is an association
-- list in insertion order. Integer arguments are natural numbers, and a 32-bit hash is its unsigned
-- value. Floating-point numbers, dates, Unicode tables and collation are fields of the record Platform,
-- of which nothing is assumed; the recall providers, the head validator, the reranker and
-- detectExactReferences are functions of a search's dependencies, of which nothing is assumed either.
-- Asynchronous calls run one after the other.
--
-- encodeURIComponent and decodeURIComponent are parameters, with their documented behaviour as the
-- hypothesis IsUriCodec where a theorem needs it; a database query is a function that says whether a row
-- is present. A page token's HMAC, JSON, Date, btoa and atob are fields of the record PageTokenRuntime;
-- its round trip assumes of them what IsReadBack says.
--
-- For the retention of manifests, the SQL statements are functions on the rows of one manifest; between two
-- of them any function on the rows may run, which stands for other workers and for the time that passes,
-- and any call may be refused, which stands for constraints, triggers and lost connections. What one
-- worker may do is the relation Work of Github/Retention/Work, and Run joins its steps with what the
-- others do; the life of a manifest, with the steps of all, is the relation Step of
-- Github/Retention/Lifecycle.
--
-- Fuel. The bisection of truncateToTokenBudget gets the number of code points as its fuel, and each
-- round makes the interval shorter; the loop of selectWithMmr gets the number of candidates, and each
-- round takes one of them out. The loop of chunkWorkflowBatch gets the number of items, and each round
-- passes at least one of them. The repair loop has one round for each attempt, the limit and one more,
-- as in the source. The loops of parseLinkHeader get one round more than the characters that are left,
-- and each round reads at least one of them. The loops over the values in a value get two rounds more
-- than there are values in the objects of the heap; an object is expanded only once.
--
-- Not modelled: SQL, HTTP, queues and durable workflows, the regular expressions of exact references and
-- of the detectors of secrets, cryptography, and the prompts and calls of language models.
pub mod Base
pub mod Contracts
pub mod Search
pub mod Security
pub mod Github
pub mod Quality
pub mod Workflows
