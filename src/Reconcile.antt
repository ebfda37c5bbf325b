-- ===== src/Reconcile.antt =====
-- Protocol/scripts/round-reconciliation-policy.mjs: when the database's view of a round agrees with
-- the chain or with an archived snapshot, and what is repaired when it does not.
pub mod Rows
pub mod Digest
pub mod Chain
pub mod Gaps
pub mod Stale
pub mod Refund
pub mod Snapshot
