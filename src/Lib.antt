-- ===== src/Lib.antt =====
-- The money-moving core of Tapioca: the sentinel that watches vaults and orders emergency exits, the
-- decision to rebalance a user's position, and the locks, limits and idempotency keys that guard both.
--
-- The parts, and the files that model them:
-- - Base: shared types and lemmas. Dict is a JavaScript `Map`, Text its strings, Lists its arrays, and
--   Double the operations on `number`; all that computes with fractions is stated for any such
--   operations, with the laws of IEEE 754 named where a theorem needs them.
-- - Redis: lib/redis. Action is an asynchronous function that may throw; Cache is `CacheInterface`
--   and Memory its in-memory fallback (client.ts); Limiter and Budget are rate-limiter.ts, Lock is
--   distributed-lock.ts, Idempotency is idempotency.ts. All of them work over any cache.
-- - Sentinel: sentinel. Types, Config and History are types.ts and config.ts; Confirm and Rules are
--   rules-engine.ts, with the buffer and the windows as explicit state; Exit is
--   exit-orchestrator.ts, which takes its locks from Redis and its actions from Rules; Worker is the
--   poll cycle of worker.ts, which feeds Rules and opens the incidents that silence them.
-- - Agent: lib/agent/decision-engine.ts, in Decision, and the pause service of lib/shared with the
--   checkers of lib/yo and lib/morpho, in Pause, whose states the decision reads; Rebalance is
--   rebalance-executor.ts, its calls first and its Execution in a child; VaultOperation is
--   vault-operation-service.ts with vault-executor.ts and the executors of both protocols, Resolve
--   resolve-agent-address.ts and position-check.ts, Risk lib/morpho/risk-scoring.ts; Session is
--   agent-session.ts, Registration resolve-registration.ts and Oracle lib/oracles/chainlink.ts.
--   Cron is cron-orchestration-service.ts, the run that asks Oracle, takes the locks and budgets of
--   Redis, lets Decision decide for each user and opens their authorization with Security.
-- - Security: lib/security. Encryption is the format of encryption.ts, Authorization
--   session-encryption.ts, Revocation session-revocation.ts; Access is lib/auth/middleware.ts, Recipient
--   lib/zerodev/transfer-recipient-validator.ts and Origin middleware.ts, the guards on requests.
--
-- How code is modelled. A function that may throw returns a result and the state; what it wrote
-- before it threw stays written. The clock, random ids, the database, the chain, the wallet
-- executors, the cipher, which may refuse a key, and the Lua scripts of Redis are arguments. Times,
-- counts and token amounts are whole native numbers; the clock is past every window, so that no
-- subtraction of times stops at 0. Addresses and symbols are ASCII. The promises of one batch of
-- exits, and those of the pause checkers, of the fetches and of a chunk of the cron run, go in the
-- order of their list; all actions of a poll have one reading of the clock. The limiter's check and
-- record, and the fallback's read and delete of a lock, go without another call between them; only
-- whole calls of the lock are modelled under interleaving, as a step relation. In the in-memory
-- store the sorted sets are apart from the texts: a plain key that begins with "zset:" could meet a
-- sorted set in the program, and is outside the model. The loop over the batches runs on fuel: as
-- many rounds as there are positions are enough, since each round takes at least one. The sort of
-- the exits uses a comparison that is not consistent on equal shares, so that the sort is an
-- argument there.
--
-- Not modelled: the user interface, the HTTP clients and generated types, the wallet library's calls,
-- the mail and indexer of the sentinel; not yet: the gathering of signals, the
-- list methods of the decision engine and the API routes. A batch size or concurrency of 0, for which
-- the loop of the cron run does not end, is outside the model: the slices run on fuel, of which the
-- number of users is enough for a positive size.
pub mod Agent
pub mod Base
pub mod Redis
pub mod Sentinel
pub mod Security
