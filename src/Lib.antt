-- ===== src/Lib.antt =====
-- ZizaLend: the logic of the backend that decides what is stored, who may act, which requests run and
-- where deliveries go.
--
-- The parts, and how they meet. The backend keeps short-lived state in a key-value store behind a
-- facade; the limiter, the idempotency middleware, the revocation list and the cached scores stand on
-- it. The session middleware turns a token into a role and scopes. The indexer reads the events of the
-- contracts from the chain, stores each once and changes the credit scores in the same transaction; the
-- events that were stored are delivered to subscribers, through a guard against private addresses, and
-- a table in the database keeps what failed for a retry, and sent to the open event streams. A checker sends the
-- overdue loans to the contract under a lock of the store, and another job compares the stored scores
-- with those of the contract. The frontend shows amounts as exact decimal texts, and the client library
-- repeats a request that failed.
--
--   Common        strings as lists of UTF-16 code units, integers, insertion-ordered maps, and the
--                 functions of the JavaScript library that the sources use.
--   KvStore       backend/src/utils/kvStore.ts, createMemoryKvStore: `get`, `set`, `set_nx` (setNX),
--                 `del`, `keys`, `incr`, `expire`, `ttl`, the timer's `sweep`, `close`;
--                 KvStore/Glob globToRegExp, KvStore/Driver resolveCacheDriver, KvStore/Spec the
--                 contract, KvStore/Refinement and KvStore/Facts the laws.
--   Cache         backend/src/services/cacheService.ts: the same calls with a store that may be down.
--   RateLimit     backend/src/services/rateLimitService.ts: `check_rate_limit` (checkRateLimit),
--                 `reset_rate_limit`, `get_rate_limit_status`.
--   Idempotency   backend/src/middleware/idempotency.ts, idempotencyPolicy.ts and
--                 backend/src/utils/apiPath.ts: `admit` up to the first await, then `step`, in which
--                 each request of a schedule runs one segment between two awaits.
--   Webhook       backend/src/utils/webhookUrlGuard.ts (Address, Guard), and of
--                 backend/src/services/webhookService.ts postWebhook and getRetryDelayMs (Delivery),
--                 prepareWebhookPayload (Payload) and the table of deliveries (Retry): `dispatch`,
--                 `send_to_webhook` (sendToWebhook), `retry_webhook_delivery`. processRetries is left
--                 out, since the database refuses its query.
--   Indexer       backend/src/services/eventIndexer.ts: Types the event types, Values the decoders,
--                 Parse parseEvent, Store storeEvents, Fetch fetchEventsInRange, Poll processChunk, pollOnce and the cursor,
--                 Reindex reindexRange. A `World` is what one poll meets of the RPC server and database.
--   Streams       backend/src/services/eventStreamService.ts and streamEvents of
--                 backend/src/controllers/eventStreamController.ts: `admit_stream` up to the wait for
--                 the replay, `open_stream` after it, `broadcast`, `beat` (the heartbeat), `unsubscribe`.
--   Amount        frontend/src/app/utils/amount.ts: `stroops_to_decimal_string`, `to_stroops`,
--                 `normalize_decimal_input`, `sum_amounts`, `compare_amounts`.
--   Auth          backend/src/auth/rbac.ts (Roles), backend/src/services/authService.ts (Revocation) and
--                 backend/src/middleware/jwtAuth.ts (Session, Guards, Scopes).
--   Scores        backend/src/services/scoresService.ts and scoreDecayService.ts.
--   Pagination    backend/src/utils/pagination.ts.
--   Remittance    backend/src/services/remittanceRules.ts.
--   Gamification  frontend/src/app/stores/useGamificationStore.ts: `perform` is one action of the store.
--   DefaultChecker backend/src/services/defaultChecker.ts: Lock the lock of a run with any number of
--                 runs and processes (`acquire_lock`, releaseLock in its two awaits `release_read` and
--                 `release_del`), Overdue the queries of fetchOverdueLoanIds and fetchOverdueStats,
--                 Batches chunk and submitCheckDefaults, Workers mapConcurrent as steps of its workers,
--                 Run checkOverdueLoans.
--   ScoreReconciliation  backend/src/services/scoreReconciliationService.ts: `active_borrowers`
--                 (fetchActiveBorrowerScores), `compare_scores` and `reconcile`
--                 (reconcileActiveBorrowerScores), which writes through Scores.
--   Client        packages/sdk/src/client.ts: parseRetryAfterMs, withHeader and the headers of
--                 executeFetch; Client/Request the loop of `request`; Client/Pages iteratePages and
--                 collectPages of packages/sdk/src/pagination.ts.
--   Tests         runs at concrete inputs.
--
-- Clocks are milliseconds and grow; numbers are unbounded, and the ones of JavaScript are exact in the
-- ranges that occur (below 2^53). State is passed: an operation takes the entries and returns the new
-- ones. A store that does not answer is a Boolean or an outage argument, and an error that is thrown is
-- a constructor. The transaction of the indexer may run again after
-- transient errors, which are part of its `Fate`. All recursion is structural; the decimal printer has the fuel n + 1, which is enough
-- since each round divides by ten, and the redirect loop counts down from the five redirects allowed.
-- The loop over the pages of the RPC server has fuel, since the server decides when it ends: as much
-- fuel as there are pages is enough. The loop of reindexRange has fuel as well; the number of ledgers of
-- the range is enough, and a batch size of 0 would never end. The attempts of a request have the fuel
-- maxRetries + 1, the pages of an iteration maxPages and the rounds of `chunk` the length of the list:
-- the bounds of the loops themselves.
--
-- Parameters: the RPC server, the values of the Soroban SDK, SHA-256, JSON at the cached types, the
-- runtime's URL, date and number parsers, name resolution, the network, floating point numbers,
-- signatures, the UUID of each claim, the random part of a wait, and the order of texts in the database.
-- Not modelled: the timers of the indexer and of the two jobs, the services that are mostly queries of
-- one table or calls of an SDK (remittances, loans, loan access, Soroban, audit log, notifications),
-- logging, other metrics, HTTP headers that carry no decision, the Redis driver, SQL beyond the effect of
-- a statement on its table, the Stellar SDK, the rest of the frontend and the contracts.
pub mod Common
pub mod KvStore
pub mod Cache
pub mod Client
pub mod DefaultChecker
pub mod ScoreReconciliation
pub mod RateLimit
pub mod Idempotency
pub mod Webhook
pub mod Gamification
pub mod Remittance
pub mod Indexer
pub mod Amount
pub mod Streams
mod Tests
pub mod Auth
pub mod Scores
pub mod Pagination
