-- ===== src/Frontend.antt =====
-- Frontend/src/chain: what the site computes from chain accounts and index rows.
pub mod Staking
pub mod Rewards
pub mod Miners
pub mod Autocommit
