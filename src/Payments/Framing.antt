-- ===== src/Payments/Framing.antt =====
-- Framed properties under the payment service: what writes outside the journals, `post_journal` and
-- `commit` keep, every operation keeps.
pub mod Shared
pub mod Parts
pub mod Movements
pub mod Refunds
