-- ===== src/Tests.antt =====
-- Concrete runs of the modelled code.
mod Ledger
mod Refunds
mod Channels
mod Stores
mod Deposits
mod Amounts
mod Partners
mod Coupons
