-- ===== src/Lib.antt =====
-- MYNE's worker policies: the decisions of the scripts that run the rounds, and what the site
-- computes from the results.
--
-- MYNE is a game of rounds on Solana. Worker scripts under Protocol/scripts open and settle the
-- rounds, index the program's events into a database, archive settled rounds and repair what the
-- index got wrong. Each decision stands in a policy module without I/O; the keepers and the indexer
-- call the policies and send the transactions. The files model the policies:
--   Schedule: round-schedule-policy.mjs (firstSafeResumeRoundId, roundIdsToPrepare,
--     requireExactSettlementWindow).
--   LifecycleQueue: lifecycle-queue-policy.mjs (mergeLifecycleRoundQueues,
--     selectLifecycleRoundBatch, processLifecycleRoundQueue, nextHistoricalLifecycleCursor).
--   Reconcile: round-reconciliation-policy.mjs. Reconcile/Digest is
--     archivedSnapshotProjectionDigest, Reconcile/Snapshot archivedSnapshotRoundProjection,
--     Reconcile/Chain the comparison with a Round account and roundNeedsCanonicalReplay,
--     Reconcile/Refund refundedRoundProjectionMatchesChain, Reconcile/Stale
--     staleReceiptSettlementRows, Reconcile/Gaps the batches of old rounds.
--   Archive: round-archive-policy.mjs (requireRoundFeeAudit, canonicalRandomnessValue and, in
--     Archive/Proof, requireRoundRandomnessProof), which Reconcile/Snapshot calls as the source does.
--   Incidents: round-deadline-incident-latch.mjs, a state machine: the document, the revisions, the
--     queue of writes and the file, with the events of a write as steps.
--   Host: production-worker-host.mjs. Host/Deadlines is canonicalRoundDeadlines, Host/Rounds
--     assessRoundScheduleHealth, Host/Workers the status that the host keeps of a worker process
--     (recordWorkerHeartbeat of event-driven-loop.mjs and the handlers of startWorker), Host/Health
--     publicHealth, which reads the other three and the incidents.
--   Loop: createWakeSignal of event-driven-loop.mjs, with calls, signals and timers as events.
--   Recovery: receipt-recovery-policy.mjs; Recovery/Scan is exactReceiptRecoveryScanOptions.
--   Entropy: decodeServerEntropySlot and serverEntropyAvailable of server-randomness-policy.mjs.
--   Evidence: round-settlement-evidence.mjs, which asks Schedule whether a settlement was in time,
--     with the names of events and fields of anchor-event-data.mjs.
--   AutoPlan, Buyback, Referral: auto-plan-policy.mjs, buyback-policy.mjs,
--     referral-index-policy.mjs.
--   Frontend: of Frontend/src/chain, the reward windows of staking-apy.js (Staking), the shares of a
--     pool in round-rewards.js and mining-shares.js (Rewards), miner-aggregation.js (Miners) and the
--     plan arithmetic of autocommit.js (Autocommit).
-- Js holds the JavaScript values that the policies read and the conversions that they call, Base the
-- shared names, Examples the theorems at concrete inputs and tests.
--
-- An error is a value known by its class; messages are not modelled. A missing field is undefined.
-- A Number is exact when it is an integer below 10^21 in size; timestamps are safe integers by the
-- source's own assertions, and their sums are taken exactly. Parameters stand for what is not in
-- the repository: SHA-256 (hash_hex), the shortest text of a double (double_text), the address
-- parser of the Solana library (canonical) and its default address, the attempts of an RPC read
-- (tries), the reads of the chain and the decoders of its accounts and logs (read_page,
-- read_transaction, parse_logs, decode, derive), how a date prints (iso) and the order of
-- localeCompare (is_after).
-- The loop of selectLifecycleRoundBatch runs on one unit of fuel more than there are rows, since
-- each pass reads a row or ends the loop; base-58 digits come on two units of fuel for each byte;
-- numbers print in at most as many digits as they count.
--
-- Not modelled: the scripts that send transactions and talk to the database, the processes and the
-- HTTP server of the host, the frontend's pages and its rates in floating point, the on-chain
-- program (Rust), the Supabase functions and the archive document's JSON.
pub mod Base
pub mod Js
pub mod Schedule
pub mod LifecycleQueue
pub mod Archive
pub mod Reconcile
pub mod AutoPlan
pub mod Buyback
pub mod Referral
pub mod Incidents
pub mod Host
pub mod Loop
pub mod Recovery
pub mod Entropy
pub mod Evidence
pub mod Frontend
pub mod Examples
