-- ===== src/Tests/Ledger.antt =====
-- Runs of the playground's ledger (src/playground/ledger-do.ts).
use rozo_mpprouter.Base.{ℕ, String, ◌≡◌, ◌≢◌, refl, true, false, none, some, List, [], ◌∷◌, subst}
use rozo_mpprouter.Base.Keys.{string_eq, pair_eq, nat_eq}
use rozo_mpprouter.Base.Int.{pos, ◌+ℤ◌, ◌-ℤ◌}
use rozo_mpprouter.Base.Dict.{lookup, insert}
use rozo_mpprouter.Playground.Amount.{Text, parse_atomic, read_number, read_digits}
use rozo_mpprouter.Playground.Ledger.Types.{
  Ledger, StoredIntent, StoredCall, consumed, reserved, committed, empty, ok, balance_of,
}
use rozo_mpprouter.Playground.Ledger.Intents.{CreateBody, create_intent}
use rozo_mpprouter.Playground.Ledger.Deposits.{
  OpenBody, open_deposit, claim, credit_within_caps, credit_or_refuse, credit, release_open_slot,
}
use rozo_mpprouter.Playground.Ledger.Deposits.Credits.{Opens, open_deposit-Opens}
use rozo_mpprouter.Playground.Ledger.Calls.{
  ReserveBody, ReserveOutcome, reserve, reserve_fresh, hold, settle, settle_reserved, commit,
  release, put_call, commit_call,
}
use rozo_mpprouter.Playground.Ledger.Calls.Charges.{SettlesOk, settle-SettlesOk}
use rozo_mpprouter.Playground.Ledger.Calls.Idempotence.{settle_again, reserve_again}
use rozo_mpprouter.Playground.Ledger.Reaper.{alarm}
use rozo_mpprouter.Playground.Ledger.Reaper.Effects.{Reaped, alarm-lookup}
use rozo_mpprouter.Playground.Ledger.Totals.{totals, totals_reconcile}
use rozo_mpprouter.Playground.Ledger.Invariant.{IsSolvent}
use rozo_mpprouter.Playground.Ledger.Requests.{
  Request, create, open_by, reserve_call, handle, run, run-empty-IsSolvent, run_payment_once,
}

abbrev five : Text
five = b'5' ∷ []

abbrev ninety : Text
ninety = b'9' ∷ b'0' ∷ []

abbrev intent_body : CreateBody
intent_body = record {
  intent_id = "i";
  account = "GA";
  amount = five;
  memo = "m";
  destination = "GR";
  now = 1000;
  expires_at = 2000;
  per_account_day_cap = ninety;
  global_cap = ninety;
  intents_per_hour = 10;
  max_open_intents = 3;
}

abbrev payment : ℕ → OpenBody
payment confirmed_at = record {
  intent_id = "i";
  tx_hash = "tx";
  op_index = 0;
  now = 3000;
  confirmed_at = confirmed_at;
  session_jti = "jti";
  session_exp = 9;
  per_account_day_cap = ninety;
  global_cap = ninety;
}

abbrev call_body : ReserveBody
call_body = record {
  call_id = "c";
  account = "GA";
  chip = "chip";
  model = none;
  max_price = b'3' ∷ [];
  now = 4000;
  history_limit = 20;
}

abbrev requests : List Request
requests = create intent_body ∷ open_by (payment 1500) ∷ reserve_call call_body ∷ []

abbrev intent : StoredIntent
intent = record {
  intent_id = "i";
  account = "GA";
  amount = pos 5;
  memo = "m";
  destination = "GR";
  created_at = 1000;
  expires_at = 2000;
  status = consumed;
  tx_hash = some "tx";
  op_index = some 0;
  session_jti = some "jti";
  session_exp = some 9;
}

abbrev call : StoredCall
call = record {
  call_id = "c";
  account = "GA";
  chip = "chip";
  model = none;
  status = reserved;
  max_price = pos 3;
  charged = pos 0;
  at = 4000;
  dispatched = false;
  release_reason = none;
  reaped = false;
  reaped_release_possible_paid = false;
}

-- What the requests leave.
abbrev books : Ledger
books = record {
  intents = ("i", intent) ∷ [];
  memos = ("m", "i") ∷ [];
  consumed_by = (("tx", 0), "i") ∷ [];
  balances = ("GA", pos 2) ∷ [];
  deposits = (("GA", 0), pos 5) ∷ [];
  rates = (("GA", 0), pos 1) ∷ [];
  open_slots = ("GA", pos 0) ∷ [];
  calls = ("c", call) ∷ [];
  history = ("GA", "c" ∷ []) ∷ [];
  over_caps = [];
  credited = pos 5;
  committed_total = pos 0;
  outstanding = pos 5;
  alarm_at = some 64000;
}

run-requests : run requests empty ≡ books
unfolding run handle create_intent open_deposit claim credit_within_caps credit_or_refuse credit
    release_open_slot reserve reserve_fresh hold parse_atomic read_number read_digits empty lookup
    insert ◌+ℤ◌ ◌-ℤ◌
run-requests = refl

run-empty-IsSolvent_example : IsSolvent (run requests empty)
run-empty-IsSolvent_example = run-empty-IsSolvent requests

books-IsSolvent : IsSolvent books
books-IsSolvent = subst IsSolvent run-requests (run-empty-IsSolvent requests)

found : lookup "i" (run requests empty).intents ≡ some intent
unfolding lookup
found = rw run-requests refl

abbrev the_id : String
the_id = "i"

the_id_not_empty : the_id ≢ ""
the_id_not_empty e = cc

run_payment_once_example : the_id ≡ the_id
run_payment_once_example =
    run_payment_once requests the_id the_id the_id_not_empty the_id_not_empty found found refl refl
      refl refl refl refl

open_deposit-Opens_example : Opens (payment 1500) books (open_deposit (payment 1500) books)
open_deposit-Opens_example = open_deposit-Opens (payment 1500) books

settle-SettlesOk_example : SettlesOk call books (settle "c" (commit (some five)) books)
unfolding lookup
settle-SettlesOk_example = settle-SettlesOk "c" (commit (some five)) books books-IsSolvent refl refl

-- The charge of 5 is cut to the hold of 3.
abbrev spent_call : StoredCall
spent_call = record call { status = committed; charged = pos 3 }

abbrev spent : Ledger
spent = record books {
  calls = ("c", spent_call) ∷ [];
  committed_total = pos 3;
  outstanding = pos 2;
}

run_settle :
    settle "c" (commit (some five)) books
    ≡ (ok (record { call = spent_call; balance = pos 2; already_settled = false }), spent)
unfolding settle settle_reserved commit_call put_call parse_atomic read_number read_digits lookup
    insert ◌+ℤ◌ ◌-ℤ◌
run_settle = refl

settle_again_example : settle "c" (release none) spent ≡ (
  ok (record { call = spent_call; balance = balance_of "GA" spent; already_settled = true }),
  spent,
)
settle_again_example = settle_again "c" (commit (some five)) (release none) books run_settle

abbrev second_body : ReserveBody
second_body = record call_body { call_id = "d"; max_price = b'1' ∷ [] }

abbrev second_call : StoredCall
second_call = record call { call_id = "d"; max_price = pos 1 }

abbrev second_outcome : ReserveOutcome
second_outcome = record {
  ok_flag = true;
  call = some second_call;
  balance = pos 1;
  duplicate = false;
}

abbrev second_books : Ledger
second_books = record books {
  balances = ("GA", pos 1) ∷ [];
  calls = ("c", call) ∷ ("d", second_call) ∷ [];
  history = ("GA", "d" ∷ "c" ∷ []) ∷ [];
}

run_reserve : reserve second_body books ≡ (ok second_outcome, second_books)
unfolding reserve reserve_fresh hold parse_atomic read_number read_digits lookup insert ◌+ℤ◌ ◌-ℤ◌
run_reserve = refl

reserve_again_example :
    (c : StoredCall) × (some second_call ≡ some c)
    × (reserve second_body second_books ≡ (
      ok (record {
        ok_flag = true;
        call = some c;
        balance = balance_of c.account second_books;
        duplicate = true;
      }),
      second_books,
    ))
reserve_again_example = reserve_again second_body books run_reserve refl

alarm-lookup_example :
    (after : StoredCall) × (lookup "c" (alarm 400000 books).calls ≡ some after)
    × Reaped 400000 call after
unfolding lookup
alarm-lookup_example = alarm-lookup 400000 books "c" books-IsSolvent refl

totals_reconcile_example :
    let t = totals books in
    (t.outstanding ≡ t.balances_sum +ℤ t.holds_sum)
    × (t.credited ≡ t.balances_sum +ℤ t.holds_sum +ℤ t.committed)
totals_reconcile_example = totals_reconcile books books-IsSolvent
