-- ===== src/Partners.antt =====
-- src/routes/partner-store.ts: the partners' prepaid balances, their coupons, and the repair of what
-- a crash leaves behind.
pub mod Reconcile
pub mod Types
pub mod Ledger
pub mod Issue
pub mod Request
pub mod Void
pub mod Run
pub mod Cut
