-- ===== src/Database/Rows.antt =====
-- The rows of the tables, by the package that declares them.
pub mod Texts
pub mod Ledger
pub mod Contract
pub mod Dispute
pub mod Proposal
pub mod Payout
pub mod Payment
pub mod Event
