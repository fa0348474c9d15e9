-- ===== src/Payments.antt =====
-- lib/payments: refunds, charges and what Stripe reports.
pub mod Initiation
pub mod Reversal
pub mod Timing
pub mod Charges
pub mod Refunds
pub mod GuestStatus
