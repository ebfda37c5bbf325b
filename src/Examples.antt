-- ===== src/Examples.antt =====
-- The theorems at concrete inputs, and tests of the definitions.
mod Ledger
mod Rounds
mod Money
mod Latch
mod Chain
mod Snapshot
mod Refund
mod Host
mod Workers
mod Wakes
mod Site
mod Scans
