-- ===== src/Playground/Ledger/Reaper.antt =====
-- `alarm` of src/playground/ledger-do.ts, the reaper of stranded calls.
pub mod Solvency
pub mod Effects
use rozo_mpprouter.Base.{
  ℕ, suc, ◌+◌, String, Bool, true, false, not, ◌&&◌, Option, none, some, List, [], ◌∷◌, map, ltb,
  or_else, take, is_some, if◌then◌else◌,
}
use rozo_mpprouter.Base.Int.{ℤ, pos, ◌+ℤ◌, ◌-ℤ◌, ltb_ℤ}
use rozo_mpprouter.Base.Keys.{string_eq}
use rozo_mpprouter.Base.Dict.{Dict, lookup, insert, sum_by}
use rozo_mpprouter.Playground.Amount.{Text}
use rozo_mpprouter.Playground.Ledger.Types.{
  StoredIntent, CallStatus, reserved, committed, released, StoredCall, invalid_amount,
  call_not_found, Ledger, balance_of, reserved_lease_ms, reaper_interval_ms, Reply, ok, err, throws,
  Action, pure, fail, ◌>>=◌, ◌>>◌, fail_if, or_fail, gets, modify, parse, transaction,
}
use rozo_mpprouter.Playground.Ledger.Calls.{is_reserved, put_call}

-- The reaper's row for a call stranded in `reserved`.
abbrev pub reaped_call : StoredCall → StoredCall
reaped_call call = record call {
  status = released;
  charged = pos 0;
  release_reason =
      some (if call.dispatched then "reaped_dispatched" else "reaped_never_dispatched");
  reaped = true;
  reaped_release_possible_paid =
      if call.dispatched then true else call.reaped_release_possible_paid;
}

abbrev pub is_stale : ℕ → StoredCall → Bool
is_stale now call = not (ltb now (call.at + reserved_lease_ms))

unfoldable pub reap : String → StoredCall → Ledger → Ledger
unfolding put_call
reap id call s = put_call id (reaped_call call) (balance_of call.account s +ℤ call.max_price) s

-- The loop of `alarm` over the rows listed at its start; the number counts the calls left alone
-- because their lease has not run out.
unfoldable pub reap_all : ℕ → Dict String StoredCall → ℕ → Ledger → ℕ × Ledger
reap_all now [] remaining s = (remaining, s)
reap_all now ((id, call) ∷ rest) remaining s =
    let stale = is_reserved call.status && is_stale now call in
    let waits = is_reserved call.status && not (is_stale now call) in
    reap_all now rest (if waits then suc remaining else remaining)
      (if stale then reap id call s else s)

-- The platform clears the alarm when it calls the handler.
unfoldable pub alarm : ℕ → Ledger → Ledger
unfolding reap_all
alarm now s =
    let (remaining, t) = reap_all now s.calls 0 (record s { alarm_at = none }) in
    record t { alarm_at = if ltb 0 remaining then some (now + reaper_interval_ms) else none }
