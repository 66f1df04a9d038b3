-- ===== src/Payments.antt =====
-- app/payments: funding, capture, release, refund and reconciliation of milestone escrow.
pub mod Effects
pub mod Queries
pub mod Idempotency
pub mod Fund
pub mod Capture
pub mod Webhook
pub mod Release
pub mod Settle
pub mod Refund
pub mod Reconcile
pub mod Framing
pub mod Requests
pub mod Books
pub mod Atomic
pub mod Quiet
