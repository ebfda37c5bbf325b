-- ===== src/Host.antt =====
-- Protocol/scripts/production-worker-host.mjs: what the host of the worker processes calls healthy.
pub mod Deadlines
pub mod Rounds
pub mod Workers
pub mod Health
