-- ===== src/Playground.antt =====
-- src/playground: the demo surface's money arithmetic and its ledger Durable Object.
pub mod Amount
pub mod Deposit
pub mod Usd
pub mod Ledger
