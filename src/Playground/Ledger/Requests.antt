-- ===== src/Playground/Ledger/Requests.antt =====
-- The switch of `fetch` in src/playground/ledger-do.ts, and runs of requests and alarms.
use rozo_mpprouter.Base.{ℕ, String, ◌≡◌, ◌≢◌, refl, Option, none, some, List, [], ◌∷◌}
use rozo_mpprouter.Base.Keys.{string_eq}
use rozo_mpprouter.Base.Dict.{lookup}
use rozo_mpprouter.Playground.Ledger.Types.{
  Ledger, StoredIntent, consumed, empty, or_fail, intent_not_found,
}
use rozo_mpprouter.Playground.Ledger.Intents.{CreateBody, create_intent, get_intent}
use rozo_mpprouter.Playground.Ledger.Intents.Solvency.{create_intent-IsSolvent}
use rozo_mpprouter.Playground.Ledger.Deposits.{OpenBody, open_deposit}
use rozo_mpprouter.Playground.Ledger.Deposits.Solvency.{open_deposit-IsSolvent}
use rozo_mpprouter.Playground.Ledger.Reaper.{alarm}
use rozo_mpprouter.Playground.Ledger.Calls.{
  ReserveBody, SettleAction, account_view, reserve, mark_dispatched, settle,
}
use rozo_mpprouter.Playground.Ledger.Calls.Handlers.{
  reserve-IsSolvent, mark_dispatched-IsSolvent, settle-IsSolvent,
}
use rozo_mpprouter.Playground.Ledger.Reaper.Solvency.{alarm-IsSolvent, alarm-SameDeposits}
use rozo_mpprouter.Playground.Ledger.Calls.Frame.{
  SameDeposits, reserve-SameDeposits, mark_dispatched-SameDeposits, settle-SameDeposits,
}
use rozo_mpprouter.Playground.Ledger.Intents.Frame.{create_intent-IsBound}
use rozo_mpprouter.Playground.Ledger.Deposits.Binding.{IsBound, open_deposit-IsBound, payment_once}
use rozo_mpprouter.Playground.Ledger.Invariant.{IsSolvent, empty-IsSolvent}

pub data Request : Type 0 where
  create : CreateBody → Request
  get_by_id : String → Request
  open_by : OpenBody → Request
  view_account : String → ℕ → Request
  reserve_call : ReserveBody → Request
  dispatch : String → Request
  settle_call : String → SettleAction → Request
  read_totals : Request
  fire_alarm : ℕ → Request

-- The storage after a request; `totals` reads only.
unfoldable pub handle : Request → Ledger → Ledger
handle (create b) s = (create_intent b s).1
handle (get_by_id id) s = (get_intent id s).1
handle (open_by b) s = (open_deposit b s).1
handle (view_account a limit) s = (account_view a limit s).1
handle (reserve_call b) s = (reserve b s).1
handle (dispatch id) s = (mark_dispatched id s).1
handle (settle_call id action) s = (settle id action s).1
handle read_totals s = s
handle (fire_alarm now) s = alarm now s

-- The Durable Object takes one request at a time.
unfoldable pub run : List Request → Ledger → Ledger
run [] s = s
run (r ∷ rs) s = run rs (handle r s)

or_fail-pure : {A : Type 0} (o : Option A) (s : Ledger) → (or_fail o intent_not_found s).1 ≡ s
or_fail-pure none s = refl
or_fail-pure (some a) s = refl

handle-IsSolvent : (r : Request) (s : Ledger) → IsSolvent s → IsSolvent (handle r s)
unfolding handle get_intent account_view
handle-IsSolvent (create b) s v = create_intent-IsSolvent b s v
handle-IsSolvent (get_by_id id) s v = rw (or_fail-pure (lookup id s.intents) s) v
handle-IsSolvent (open_by b) s v = open_deposit-IsSolvent b s v
handle-IsSolvent (view_account a limit) s v = v
handle-IsSolvent (reserve_call b) s v = reserve-IsSolvent b s v
handle-IsSolvent (dispatch id) s v = mark_dispatched-IsSolvent id s v
handle-IsSolvent (settle_call id action) s v = settle-IsSolvent id action s v
handle-IsSolvent read_totals s v = v
handle-IsSolvent (fire_alarm now) s v = alarm-IsSolvent now s v

pub run-IsSolvent : (rs : List Request) (s : Ledger) → IsSolvent s → IsSolvent (run rs s)
unfolding run
run-IsSolvent [] s v = v
run-IsSolvent (r ∷ rs) s v = run-IsSolvent rs (handle r s) (handle-IsSolvent r s v)

-- From an empty storage, after any requests and alarms in any order: the outstanding pool is the sum
-- of the balances and of the holds, the lifetime deposits are the pool and the committed charges, and
-- no balance, hold or intent amount is negative.
pub run-empty-IsSolvent : (rs : List Request) → IsSolvent (run rs empty)
run-empty-IsSolvent rs = run-IsSolvent rs empty empty-IsSolvent

SameDeposits-IsBound : (s t : Ledger) → SameDeposits s t → IsBound s → IsBound t
SameDeposits-IsBound s t same all = rw (same.intents, same.consumed_by) all

handle-IsBound : (r : Request) (s : Ledger) → IsBound s → IsBound (handle r s)
unfolding handle get_intent account_view
handle-IsBound (create b) s all = create_intent-IsBound b s all
handle-IsBound (get_by_id id) s all = rw (or_fail-pure (lookup id s.intents) s) all
handle-IsBound (open_by b) s all = open_deposit-IsBound b s all
handle-IsBound (view_account a limit) s all = all
handle-IsBound (reserve_call b) s all =
    SameDeposits-IsBound s (reserve b s).1 (reserve-SameDeposits b s) all
handle-IsBound (dispatch id) s all =
    SameDeposits-IsBound s (mark_dispatched id s).1 (mark_dispatched-SameDeposits id s) all
handle-IsBound (settle_call id action) s all =
    SameDeposits-IsBound s (settle id action s).1 (settle-SameDeposits id action s) all
handle-IsBound read_totals s all = all
handle-IsBound (fire_alarm now) s all =
    SameDeposits-IsBound s (alarm now s) (alarm-SameDeposits now s) all

run-IsBound : (rs : List Request) (s : Ledger) → IsBound s → IsBound (run rs s)
unfolding run
run-IsBound [] s all = all
run-IsBound (r ∷ rs) s all = run-IsBound rs (handle r s) (handle-IsBound r s all)

-- A deposit buys credit once: after any requests from an empty storage, two consumed intents with
-- non-empty ids that name the same payment, by transaction and operation, are the same intent.
pub run_payment_once :
    (rs : List Request) (id j : String) {i k : StoredIntent} {tx : String} {op : ℕ}
    → id ≢ ""
    → j ≢ ""
    → lookup id (run rs empty).intents ≡ some i
    → lookup j (run rs empty).intents ≡ some k
    → i.status ≡ consumed
    → k.status ≡ consumed
    → i.tx_hash ≡ some tx
    → k.tx_hash ≡ some tx
    → i.op_index ≡ some op
    → k.op_index ≡ some op
    → id ≡ j
unfolding empty lookup
run_payment_once rs id j = payment_once (run rs empty) id j (run-IsBound rs empty (λ k i h. cc))
