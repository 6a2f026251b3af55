-- ===== src/Playground/Ledger/Calls.antt =====
-- `account`, `reserve`, `markDispatched` and `settle` of
-- src/playground/ledger-do.ts.
pub mod Solvency
pub mod Handlers
pub mod Idempotence
pub mod Charges
pub mod Frame
use rozo_mpprouter.Base.{
  ℕ, suc, ◌+◌, String, Bool, true, false, not, ◌&&◌, Option, none, some, List, [], ◌∷◌, map, ltb,
  or_else, take, is_some, if◌then◌else◌,
}
use rozo_mpprouter.Base.Int.{ℤ, pos, ◌+ℤ◌, ◌-ℤ◌, ltb_ℤ}
use rozo_mpprouter.Base.Keys.{string_eq}
use rozo_mpprouter.Base.Dict.{Dict, lookup, insert, sum_by}
use rozo_mpprouter.Playground.Amount.{Text}
use rozo_mpprouter.Playground.Ledger.Types.{
  StoredIntent, CallStatus, reserved, committed, released, StoredCall, invalid_amount,
  call_not_found, Ledger, balance_of, reserved_lease_ms, reaper_interval_ms, Reply, ok, err, throws,
  Action, pure, fail, ◌>>=◌, ◌>>◌, fail_if, or_fail, gets, modify, parse, transaction,
}

abbrev pub is_reserved : CallStatus → Bool
is_reserved reserved = true
is_reserved committed = false
is_reserved released = false

abbrev pub is_released : CallStatus → Bool
is_released reserved = false
is_released committed = false
is_released released = true

-- The calls of the listed ids that are still stored.
unfoldable pub found_calls : List String → Ledger → List StoredCall
found_calls [] s = []
found_calls (id ∷ ids) s =
    let rest = found_calls ids s in
    elim (lookup id s.calls) [ none ↦ rest | some call ↦ call ∷ rest ]

abbrev pub history_of : String → Ledger → List String
history_of account s = or_else (lookup account s.history) []

unfoldable pub account_view : String → ℕ → Action (ℤ × List StoredCall)
account_view account limit = do
  balance ← gets (balance_of account)
  calls ← gets (λ s. found_calls (take limit (history_of account s)) s)
  pure (balance, calls)

pub record ReserveBody : Type 0 where
  pub call_id : String
  pub account : String
  pub chip : String
  pub model : Option String
  pub max_price : Text
  pub now : ℕ
  pub history_limit : ℕ

-- `insufficient_balance` is the one refusal, and has no call.
pub record ReserveOutcome : Type 0 where
  pub ok_flag : Bool
  pub call : Option StoredCall
  pub balance : ℤ
  pub duplicate : Bool

abbrev pub new_call : ReserveBody → ℤ → StoredCall
new_call b max_price = record {
  call_id = b.call_id;
  account = b.account;
  chip = b.chip;
  model = b.model;
  status = reserved;
  max_price = max_price;
  charged = pos 0;
  at = b.now;
  dispatched = false;
  release_reason = none;
  reaped = false;
  reaped_release_possible_paid = false;
}

-- The hold leaves the balance, and the call is stored and listed first in the history.
unfoldable pub hold : ReserveBody → ℤ → Ledger → Ledger
hold b max_price s = record s {
  balances = insert b.account (balance_of b.account s -ℤ max_price) s.balances;
  calls = insert b.call_id (new_call b max_price) s.calls;
  history = insert b.account (take b.history_limit (b.call_id ∷ history_of b.account s)) s.history;
}

unfoldable pub reserve_fresh : ReserveBody → ℤ → Action ReserveOutcome
reserve_fresh b max_price = do
  balance ← gets (balance_of b.account)
  if ltb_ℤ balance max_price
      then pure (record { ok_flag = false; call = none; balance = balance; duplicate = false })
      else (do
        modify (hold b max_price)
        pure (record {
          ok_flag = true;
          call = some (new_call b max_price);
          balance = balance -ℤ max_price;
          duplicate = false;
        }))

abbrev pub reserve_in_txn : ReserveBody → ℤ → Action ReserveOutcome
reserve_in_txn b max_price s = elim (lookup b.call_id s.calls) [
  | some call ↦ (
    ok (record {
      ok_flag = true;
      call = some call;
      balance = balance_of call.account s;
      duplicate = true;
    }),
    s,
  )
  | none ↦ reserve_fresh b max_price s
]

-- An alarm that is already set is kept.
abbrev pub arm_reaper : ℕ → Ledger → Ledger
arm_reaper now s = elim s.alarm_at [
  | none ↦ record s { alarm_at = some (now + reaper_interval_ms) }
  | some t ↦ s
]

-- After the transaction: a new hold arms the reaper.
abbrev pub arm_if_held : ℕ → Reply ReserveOutcome × Ledger → Reply ReserveOutcome × Ledger
arm_if_held now (ok r, s) = (ok r, if r.ok_flag && not r.duplicate then arm_reaper now s else s)
arm_if_held now (err c, s) = (err c, s)
arm_if_held now (throws, s) = (throws, s)

unfoldable pub reserve : ReserveBody → Action ReserveOutcome
unfolding reserve_fresh hold
reserve b = do
  max_price ← parse b.max_price
  fail_if (ltb_ℤ max_price (pos 0)) invalid_amount
  λ s. arm_if_held b.now (transaction (reserve_in_txn b max_price) s)

unfoldable pub mark_dispatched : String → Action Bool
mark_dispatched id = transaction (do
  found ← gets (λ s. lookup id s.calls)
  call ← or_fail found call_not_found
  if is_reserved call.status && not call.dispatched
      then (do
        modify (λ s. record s { calls = insert id (record call { dispatched = true }) s.calls })
        pure true)
      else pure false)

pub data SettleAction : Type 0 where
  commit : Option Text → SettleAction
  release : Option String → SettleAction

pub record Settlement : Type 0 where
  pub call : StoredCall
  pub balance : ℤ
  pub already_settled : Bool

-- `charged` clamped to between zero and the hold.
abbrev pub clamp_charge : ℤ → ℤ → ℤ
clamp_charge held charged =
    let c = if ltb_ℤ charged (pos 0) then pos 0 else charged in if ltb_ℤ held c then held else c

abbrev pub released_call : StoredCall → Option String → StoredCall
released_call call reason = record call {
  status = released;
  charged = pos 0;
  release_reason = reason;
}

abbrev pub committed_call : StoredCall → ℤ → StoredCall
committed_call call charged = record call { status = committed; charged = charged }

-- The call's row and its account's balance are written together.
unfoldable pub put_call : String → StoredCall → ℤ → Ledger → Ledger
put_call id call balance s = record s {
  calls = insert id call s.calls;
  balances = insert call.account balance s.balances;
}

-- Spent credit leaves the outstanding pool.
unfoldable pub commit_call : String → StoredCall → ℤ → Ledger → Ledger
unfolding put_call
commit_call id call charged s =
    record (put_call id (committed_call call charged)
      (balance_of call.account s +ℤ (call.max_price -ℤ charged)) s) {
        committed_total = s.committed_total +ℤ charged;
        outstanding = s.outstanding -ℤ charged;
      }

unfoldable pub settle_reserved : String → StoredCall → SettleAction → Action Settlement
unfolding put_call commit_call
settle_reserved id call (release reason) = do
  balance ← gets (balance_of call.account)
  modify (put_call id (released_call call reason) (balance +ℤ call.max_price))
  pure (record {
    call = released_call call reason;
    balance = balance +ℤ call.max_price;
    already_settled = false;
  })
settle_reserved id call (commit charged_text) = do
  balance ← gets (balance_of call.account)
  wanted ← parse (or_else charged_text (b'0' ∷ []))
  let charged = clamp_charge call.max_price wanted
  modify (commit_call id call charged)
  pure (record {
    call = committed_call call charged;
    balance = balance +ℤ (call.max_price -ℤ charged);
    already_settled = false;
  })

unfoldable pub settle : String → SettleAction → Action Settlement
settle id action = transaction (do
  found ← gets (λ s. lookup id s.calls)
  call ← or_fail found call_not_found
  if is_reserved call.status then settle_reserved id call action else (do
    balance ← gets (balance_of call.account)
    pure (record { call = call; balance = balance; already_settled = true })))
