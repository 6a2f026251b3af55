-- ===== src/Playground/Ledger/Intents.antt =====
-- `createIntent` and `getIntent` of src/playground/ledger-do.ts.
pub mod Solvency
pub mod Frame
use text.Mathlib.Text.{◌==◌ as str_eq}
use rozo_mpprouter.Base.{
  ℕ, ◌*◌, String, Bool, true, false, not, ◌&&◌, ◌||◌, Option, none, some, leb, ltb, or_else, ◌==◌,
  is_some, if◌then◌else◌,
}
use rozo_mpprouter.Base.Int.{ℤ, pos, ◌+ℤ◌, ◌-ℤ◌, leb_ℤ, ltb_ℤ}
use rozo_mpprouter.Base.Keys.{string_eq, pair_eq, nat_eq}
use rozo_mpprouter.Base.Dict.{lookup, insert}
use rozo_mpprouter.Playground.Amount.{Text}
use rozo_mpprouter.Playground.Ledger.Types.{
  IntentStatus, opened, consumed, expired, over_cap, StoredIntent, OverCap, CapReason, over_day,
  over_global, Code, invalid_amount, intent_not_found, intent_already_used, payment_already_claimed,
  intent_expired, memo_collision, rate_limited, deposit_cap_exceeded, global_cap_exceeded,
  too_many_open_intents, deposit_exceeds_cap, Ledger, balance_of, deposited_on, rate_in, slots_of,
  utc_day_key, utc_hour_key, seconds_until_next_hour, Action, pure, fail, ◌>>=◌, ◌>>◌, fail_if,
  or_fail, gets, modify, parse, transaction,
}

pub record CreateBody : Type 0 where
  pub intent_id : String
  pub account : String
  pub amount : Text
  pub memo : String
  pub destination : String
  pub now : ℕ
  pub expires_at : ℕ
  pub per_account_day_cap : Text
  pub global_cap : Text
  pub intents_per_hour : ℕ
  pub max_open_intents : ℕ

-- A string in a condition: an absent or an empty one is false.
abbrev pub truthy : Option String → Bool
truthy none = false
truthy (some t) = not (str_eq t "")

abbrev pub new_intent : CreateBody → ℤ → StoredIntent
new_intent b amount = record {
  intent_id = b.intent_id;
  account = b.account;
  amount = amount;
  memo = b.memo;
  destination = b.destination;
  created_at = b.now;
  expires_at = b.expires_at;
  status = opened;
  tx_hash = none;
  op_index = none;
  session_jti = none;
  session_exp = none;
}

-- The checks, in order: hourly rate, the account's day cap, the global cap, the open intents.
abbrev pub check_headroom : CreateBody → ℤ → Action (Unit {0})
check_headroom b amount = do
  used ← gets (rate_in b.account (utc_hour_key b.now))
  fail_if (leb_ℤ (pos b.intents_per_hour) used) (rate_limited (seconds_until_next_hour b.now))
  deposited_today ← gets (deposited_on b.account (utc_day_key b.now))
  day_cap ← parse b.per_account_day_cap
  fail_if (ltb_ℤ day_cap (deposited_today +ℤ amount)) (deposit_cap_exceeded deposited_today day_cap)
  outstanding ← gets (λ s. s.outstanding)
  global_cap ← parse b.global_cap
  fail_if (ltb_ℤ global_cap (outstanding +ℤ amount)) (global_cap_exceeded outstanding global_cap)
  open_count ← gets (slots_of b.account)
  fail_if (leb_ℤ (pos b.max_open_intents) open_count)
      (too_many_open_intents open_count b.max_open_intents)

abbrev pub store_intent : CreateBody → ℤ → Ledger → Ledger
store_intent b amount s =
    let hour = utc_hour_key b.now in
    record s {
      intents = insert b.intent_id (new_intent b amount) s.intents;
      memos = insert b.memo b.intent_id s.memos;
      rates = insert (b.account, hour) (rate_in b.account hour s +ℤ pos 1) s.rates;
      open_slots = insert b.account (slots_of b.account s +ℤ pos 1) s.open_slots;
    }

abbrev pub store_if_free : CreateBody → ℤ → Action StoredIntent
store_if_free b amount = do
  taken ← gets (λ s. lookup b.memo s.memos)
  fail_if (truthy taken) memo_collision
  modify (store_intent b amount)
  pure (new_intent b amount)

abbrev pub create_in_txn : CreateBody → ℤ → Action StoredIntent
create_in_txn b amount = do check_headroom b amount; store_if_free b amount

unfoldable pub create_intent : CreateBody → Action StoredIntent
create_intent b = do
  amount ← parse b.amount
  fail_if (leb_ℤ amount (pos 0)) invalid_amount
  transaction (create_in_txn b amount)

unfoldable pub get_intent : String → Action StoredIntent
get_intent id = do found ← gets (λ s. lookup id s.intents); or_fail found intent_not_found
