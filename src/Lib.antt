-- ===== src/Lib.antt =====
-- The money-handling core of MPP Router, a payment router on Cloudflare Workers: what its Durable
-- Objects store, the transforms that change it, and the theorems that make it correct under any
-- interleaving of requests.
--
-- Parts and files (paths of the repository):
-- Base: lists, Boolean tests, integers, storage keys and the key-value map that storage is.
-- Playground.Amount, Playground.Usd: the readers and the printers of src/playground/amount.ts.
-- Idempotency: the keys of src/mpp/idempotency.ts.
-- Partners: src/routes/partner-store.ts. Types is its records, Ledger is applyLedger, Issue the top-up
--   and the steps of an issue, Reconcile its repair, Void the void of a coupon and its credit, and
--   Request the whole of issuePartnerCoupon and reconcilePending: its ten attempts are the first ten
--   of a list of draws, and an attempt has one instant. Partners.Run lets workers interleave at the
--   steps of an issue and of a void: a call of applyLedger and each other helper runs whole there,
--   and a worker may stop between them; identifiers drawn at random are new. Partners.Cut cuts
--   applyLedger itself at its five compare-and-set updates, which any workers interleave and behind
--   any of which one may stop, Partners.Ledger.Retry one such call and its retry.
-- Playground.Deposit: verifyDeposit of src/playground/deposit.ts on Horizon's replies.
-- Playground.Ledger: the object PlaygroundLedger of src/playground/ledger-do.ts. Types is its
--   storage, one field for each key prefix, and the shape of a handler: a function from the storage
--   to a reply and the storage. Intents is createIntent and getIntent, Deposits is open, Calls is
--   account, reserve, markDispatched and settle, Reaper is alarm, Totals is totals, Requests is the
--   switch of fetch and runs of requests. A storage transaction undoes its writes on an exception
--   and keeps them on an error reply, as the object's does.
-- AtomicStore: the object of src/mpp/atomic-store-do.ts, values with versions. AtomicStore.Client:
--   the compare-and-set loops of src/mpp/kv-atomic-store.ts and src/routes/stripe-atomic.ts. What
--   other clients do between a read and a commit is a list of requests for each attempt.
-- Refund: the transforms of src/refund/refund.ts on a refund job, which run inside that loop.
--   Refund.Machine is the state machine of any sequence of calls on one job.
-- Channel: the transforms of src/playground/channel-voucher-store.ts and the delivery lock and
--   rollback of src/mpp/stellar-channel-dispatch.ts; Channel.Settle is settleOneChannel of
--   src/playground/channel-settle.ts, with the chain, other callers and the calls to the store that
--   throw from the closed marker on as arguments; before it, such a call ends the run with nothing
--   submitted, and is left out.
-- Coupon: the transforms of src/routes/coupon.ts on a coupon's record; Coupon.Redemptions lets
--   redemptions, operators and a partner's void interleave on one coupon, Coupon.Reserve is the
--   reservation of the payer's funds.
-- RateLimit: src/mpp/rate-limit-do.ts over the same store.
-- Gate: src/routes/create-invoice-gate.ts over the same store, which may fail to answer.
-- SettlingOrder: trackSettlingOrder of src/routes/settling-order.ts.
-- Tests: runs on concrete data.
--
-- Conventions: an amount is the integer that its stored decimal string denotes, an instant the
-- natural number of its milliseconds, and a record its parsed JSON. JSON of counters, hashes,
-- signatures and replies of chains are parameters. The loops of compare-and-set run on the number of
-- attempts that the source gives them, 5 for update and 25 for the rate limits, and end without a
-- result after the last one, as the source throws. All other loops recur on the listed rows.
--
-- Not modelled: HTTP, logging and alerts, KV caches, the payment SDKs, and the large routes that
-- call these parts.
pub mod Base
pub mod Partners
pub mod Playground
pub mod AtomicStore
pub mod Channel
pub mod RateLimit
pub mod Coupon
pub mod Gate
pub mod Idempotency
pub mod SettlingOrder
pub mod Refund
pub mod Tests
