-- ===== src/Lib.antt =====
-- Verification of the core of raglibrarian: the aggregates and algorithms that decide what its
-- services do with a book.
--
-- Parts and files (paths are from the repository's root):
-- - Base: helpers that all parts share. Go strings (Base/Strings) are sequences of runes, in which
--   an invalid byte has a number above all code points; signed integers (Base/Int) are unbounded.
-- - Ingestion/Job (with Ingestion/JobStates): services/ingestion-service/internal/domain/job.go.
--   The record ProcessingJob has the fields of the struct; each method is a function that returns
--   the new job or an error. `step` is any one call at an instant and `run` a history of calls.
-- - Ingestion/Selection: services/ingestion-service/internal/selection/selection.go. `decide` is
--   Decide and `validate_result` ValidateResult. What the code computes with the float64 ratio of a
--   policy is a parameter: a test of the ratio, and the share of a number of locations.
-- - Ingestion/Completion, Ingestion/Layout:
--   services/ingestion-service/internal/layoutworker/contract.go (Layout/Contract) and service.go. `process` is
--   Process behind the decoding of the protocol; what the download gives and what the analyzer and
--   Classify give are arguments, and `complete_analysis` is what follows the download. Completed has
--   the fields of the message BookContentSelectionCompletedV1.
-- - Ingestion/ContentSelection: DecodeContentSelectionCompleted of
--   services/ingestion-service/internal/transport/events.go behind the decoding of the protocol, and
--   the checks of services/ingestion-service/internal/application/content_selection.go. The worker
--   sends the message that Ingestion/Layout makes from the ranges of Ingestion/Selection.
-- - Ingestion/Stream: processClaimed of
--   services/ingestion-service/internal/application/processor.go from the first page of the extractor
--   to the last chunk. It drives the chunker of Ingestion/Chunker with the ranges that
--   Ingestion/ContentSelection decodes; the record Stream has the variables that the callback
--   changes, and the ranges from its index on.
-- - Ingestion/Attempts: processAccepted of the same file, behind the work on the source, with
--   classify, retryDelay and persistFailure. `attempt_job` claims a job of Ingestion/Job and settles
--   it; `attempt_all` is a sequence of attempts.
-- - Catalog/Book (with Catalog/Status and Catalog/Commands):
--   services/catalog-service/internal/catalog/domain.go and the change of the book in
--   services/catalog-service/repository/postgres_book_repository.go by a new lifecycle command.
--   `apply_processing_fact` is ApplyProcessingFact, with the switch cut into a function for each
--   case; a call returns the book as it stands beside the result, also on an error.
-- - Ingestion/Chunk, Ingestion/Chunker (with Chunker/State and Chunker/Lines):
--   services/ingestion-service/internal/domain/chunk.go and
--   services/ingestion-service/internal/chunking/chunker.go. The record Chunker has the fields of
--   the struct; `add_page`, `finish` and `boundary` are its methods. The tokenizer, the canonical
--   composition, the regular expression for headings, SHA-256 and the identifier hashed from a
--   chunk are the record Environment. The chunker takes ChunkInput from Ingestion/Chunk, which
--   takes the test of identifiers from Ingestion/JobStates. The numbers of a policy are not negative.
-- - Retrieval/IndexJob: the type IndexJob of services/retrieval-service/internal/domain/index.go.
-- - Edge/RateLimit: the limiters of services/edge-api/middleware/rate_limit.go. `attempt` is what
--   PrincipalRateLimiter.Allow and FixedWindowRateLimit have in common, with the clock as argument.
-- - Answer/Evidence: services/answer-service/internal/application/evidence.go. `select_evidence` is
--   selectEvidence: `pick` gives its variables at the end, `add` is its function of that name.
-- - Answer/Output: services/answer-service/internal/application/output.go. Whether a rune is in the
--   Unicode category Cf is an argument.
-- - Answer/Service: Answer of services/answer-service/internal/application/service.go behind the
--   validation of the request. What the retriever, the cache, a call in flight, the permits and
--   the generator give is the record World; a Reply lists the calls that change the state of the
--   service.
-- - Answer/Request: NormalizeAndValidate of services/answer-service/internal/domain/model.go.
-- - Answer/Cache: services/answer-service/internal/application/cache.go. Cache/Query and Cache/Tokens
--   match questions, Cache/Fingerprint makes keys, Cache/Store and Cache/Operations keep the entries
--   and Cache/Diagnostics says what is reported.
--   The record Environment has what the file takes from other packages: the classes of runes, the
--   arithmetic of floats, SHA-256 and the verb %q. A `Collision` is two strings with one hash.
-- - Answer/Inflight: the table answerInflight of
--   services/answer-service/internal/application/service.go and the requests that share it. `move` is
--   a step of one request between two locks or waits, `run` any interleaving; it is none when a closed
--   channel is closed. A request leads when its `done` is deferred. The evidence of requests with one
--   key is the same: the key holds its fingerprint (flight_key-evidence of Cache/Owners).
-- - Answer/Throttle: services/answer-service/internal/throttle/limiter.go. `act` is a part of Wait
--   under one lock, with the time that it reads; `run` is a sequence of such parts of any waiters.
-- - Identity/Account: services/identity-service/domain/user.go. The record User has the fields of
--   the struct; `review` is one call of Approve or Reject.
-- - Identity/Login: Login of services/identity-service/usecase/session_service.go. The accounts of an
--   address and the comparison of a password are arguments; a LoginReply counts the comparisons.
--   Login/Sessions is createSession; the record SessionWorld has the random bytes, the identifiers,
--   the clock, the signer of access tokens and the store of sessions.
--
-- An instant is the number of nanoseconds since Go's zero time, so 0 is the zero time; UTC changes
-- no instant. A [32]byte digest is the number that its bytes spell. A counter that the code only
-- increments is unbounded. Loops are recursions on lists, but for the two
-- loops of the chunker: each round drops a token from the buffer, so their fuel is the length of
-- the buffer and one more.
--
-- Not modelled: the decoding of protocol messages, which is third-party code, transport, SQL, object
-- stores, message brokers, configuration, logging and metrics; nor yet the search of the retrieval
-- service, and the use cases of identities but for the login.
pub mod Answer
pub mod Base
pub mod Catalog
pub mod Edge
pub mod Identity
pub mod Ingestion
pub mod Retrieval
