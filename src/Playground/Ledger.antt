-- ===== src/Playground/Ledger.antt =====
-- src/playground/ledger-do.ts: the `PlaygroundLedger` Durable Object.
pub mod Types
pub mod Clock
pub mod Intents
pub mod Deposits
pub mod Calls
pub mod Reaper
pub mod Invariant
pub mod Totals
pub mod Requests
