-- ===== src/Tests.antt =====
-- Concrete runs: rows, an environment and a provider, on which the theorems are applied.
pub mod Opened
pub mod Fixtures
pub mod Ledgers
pub mod Funding
pub mod Releases
pub mod Refunds
pub mod Retries
pub mod Withdrawals
pub mod Steps
pub mod Agreements
pub mod Reconciliation
pub mod Disputes
pub mod Histories
pub mod Proposals
pub mod Destinations
