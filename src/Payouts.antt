-- ===== src/Payouts.antt =====
-- lib/payouts: what hosts are owed and how it is transferred.
pub mod Transfers
