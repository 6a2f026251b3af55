-- ===== src/Playground/Ledger/Deposits.antt =====
-- `open` and `releaseOpenSlot` of src/playground/ledger-do.ts.
pub mod Solvency
pub mod Credits
pub mod Binding
use text.Mathlib.Text.{◌==◌ as str_eq}
use rozo_mpprouter.Base.{
  ℕ, ◌*◌, String, Bool, true, false, not, ◌&&◌, ◌||◌, Option, none, some, leb, ltb, or_else, ◌==◌,
  is_some, if◌then◌else◌,
}
use rozo_mpprouter.Base.Int.{ℤ, pos, ◌+ℤ◌, ◌-ℤ◌, leb_ℤ, ltb_ℤ}
use rozo_mpprouter.Base.Keys.{string_eq, pair_eq, nat_eq}
use rozo_mpprouter.Base.Dict.{lookup, insert}
use rozo_mpprouter.Playground.Amount.{Text}
use rozo_mpprouter.Playground.Ledger.Types.{
  IntentStatus, opened, consumed, expired, over_cap, StoredIntent, OverCap, CapReason, over_day,
  over_global, Code, invalid_amount, intent_not_found, intent_already_used, payment_already_claimed,
  intent_expired, memo_collision, rate_limited, deposit_cap_exceeded, global_cap_exceeded,
  too_many_open_intents, deposit_exceeds_cap, Ledger, balance_of, deposited_on, rate_in, slots_of,
  utc_day_key, utc_hour_key, seconds_until_next_hour, Action, pure, fail, ◌>>=◌, ◌>>◌, fail_if,
  or_fail, gets, modify, parse, transaction,
}
use rozo_mpprouter.Playground.Ledger.Intents.{truthy}

pub record OpenBody : Type 0 where
  pub intent_id : String
  pub tx_hash : String
  pub op_index : ℕ
  pub now : ℕ
  pub confirmed_at : ℕ
  pub session_jti : String
  pub session_exp : ℕ
  pub per_account_day_cap : Text
  pub global_cap : Text

pub record Opening : Type 0 where
  pub intent : StoredIntent
  pub balance : ℤ
  pub replayed : Bool

-- Gives back one slot, and stops at zero.
unfoldable pub release_open_slot : String → Ledger → Ledger
release_open_slot account s =
    let current = slots_of account s in
    record s {
      open_slots =
          insert account (if ltb_ℤ (pos 0) current then current -ℤ pos 1 else pos 0) s.open_slots;
    }

abbrev pub same_text : Option String → String → Bool
same_text none t = false
same_text (some u) t = str_eq u t

abbrev pub same_number : Option ℕ → ℕ → Bool
same_number none n = false
same_number (some m) n = m == n

-- The session is renewed where none is recorded, or where it has ended; `session_exp` is in
-- seconds, and `now` in milliseconds.
abbrev pub must_renew : Option ℕ → ℕ → Bool
must_renew none now = true
must_renew (some exp) now = leb (exp * 1000) now

-- A second claim of a consumed intent: only by the same payment, and then without a credit.
unfoldable pub reopen : StoredIntent → OpenBody → Action Opening
reopen intent b =
    if same_text intent.tx_hash b.tx_hash && same_number intent.op_index b.op_index
    then (do
      balance ← gets (balance_of intent.account)
      let renew = must_renew intent.session_exp b.now
      let returned =
          (if renew
            then record intent {
              session_jti = some b.session_jti;
              session_exp = some b.session_exp;
            }
            else intent)
      modify
          (λ s. if renew then record s { intents = insert b.intent_id returned s.intents } else s)
      pure (record { intent = returned; balance = balance; replayed = true }))
    else fail intent_already_used

-- The deposit is on chain and breaches a ceiling: the intent ends as `over_cap`, with a row for
-- support, and the payment stays unconsumed.
abbrev pub refuse_over_cap : StoredIntent → OpenBody → CapReason → Ledger → Ledger
refuse_over_cap intent b reason s = record (release_open_slot intent.account s) {
  intents =
      insert b.intent_id
        (record intent { status = over_cap; tx_hash = some b.tx_hash; op_index = some b.op_index })
        s.intents;
  over_caps =
      insert b.intent_id
        (record {
          intent_id = b.intent_id;
          account = intent.account;
          amount = intent.amount;
          tx_hash = b.tx_hash;
          op_index = b.op_index;
          reason = reason;
          at = b.now;
        })
        s.over_caps;
}

abbrev pub claimed : StoredIntent → OpenBody → StoredIntent
claimed intent b = record intent {
  status = consumed;
  tx_hash = some b.tx_hash;
  op_index = some b.op_index;
  session_jti = some b.session_jti;
  session_exp = some b.session_exp;
}

-- The credit: the payment is consumed, and the balance, the day's tally and the totals move.
unfoldable pub credit : StoredIntent → OpenBody → Ledger → Ledger
credit intent b s =
    let day = utc_day_key b.confirmed_at in
    record (release_open_slot intent.account s) {
      consumed_by = insert (b.tx_hash, b.op_index) b.intent_id s.consumed_by;
      intents = insert b.intent_id (claimed intent b) s.intents;
      balances = insert intent.account (balance_of intent.account s +ℤ intent.amount) s.balances;
      deposits =
          insert (intent.account, day) (deposited_on intent.account day s +ℤ intent.amount)
            s.deposits;
      credited = s.credited +ℤ intent.amount;
      outstanding = s.outstanding +ℤ intent.amount;
    }

abbrev pub above : ℤ → ℤ → ℤ → Bool
above cap tally amount = ltb_ℤ cap (tally +ℤ amount)

unfoldable pub credit_or_refuse : StoredIntent → OpenBody → ℤ → ℤ → ℤ → ℤ → Action Opening
unfolding credit release_open_slot
credit_or_refuse intent b deposited_today day_cap outstanding global_cap =
    let above_day = above day_cap deposited_today intent.amount in
    let above_global = above global_cap outstanding intent.amount in
    let reason = (if above_day then over_day else over_global) in
    if above_day || above_global
    then (do
      modify (refuse_over_cap intent b reason)
      fail (deposit_exceeds_cap (some (reason, deposited_today, day_cap, outstanding, global_cap))))
    else (do
      balance ← gets (balance_of intent.account)
      modify (credit intent b)
      pure (record {
        intent = claimed intent b;
        balance = balance +ℤ intent.amount;
        replayed = false;
      }))

-- The ceilings are enforced here, where the credit is made, by the day of the confirmation.
unfoldable pub credit_within_caps : StoredIntent → OpenBody → Action Opening
unfolding credit_or_refuse
credit_within_caps intent b = do
  deposited_today ← gets (deposited_on intent.account (utc_day_key b.confirmed_at))
  day_cap ← parse b.per_account_day_cap
  outstanding ← gets (λ s. s.outstanding)
  global_cap ← parse b.global_cap
  credit_or_refuse intent b deposited_today day_cap outstanding global_cap

abbrev pub expire : StoredIntent → OpenBody → Ledger → Ledger
expire intent b s = record (release_open_slot intent.account s) {
  intents = insert b.intent_id (record intent { status = expired }) s.intents;
}

-- The claim of an intent that is not consumed yet.
unfoldable pub claim : StoredIntent → OpenBody → Action Opening
unfolding credit_within_caps
claim intent b = do
  owner ← gets (λ s. lookup (b.tx_hash, b.op_index) s.consumed_by)
  fail_if (truthy owner) payment_already_claimed
  if ltb intent.expires_at b.confirmed_at
      then (do modify (expire intent b); fail intent_expired)
      else credit_within_caps intent b

abbrev pub open_by_status : IntentStatus → StoredIntent → OpenBody → Action Opening
open_by_status over_cap intent b = fail (deposit_exceeds_cap none)
open_by_status consumed intent b = reopen intent b
open_by_status opened intent b = claim intent b
open_by_status expired intent b = claim intent b

unfoldable pub open_deposit : OpenBody → Action Opening
open_deposit b = transaction (do
  found ← gets (λ s. lookup b.intent_id s.intents)
  intent ← or_fail found intent_not_found
  open_by_status intent.status intent b)
