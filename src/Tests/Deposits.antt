-- ===== src/Tests/Deposits.antt =====
-- Runs of the deposit check (src/playground/deposit.ts) and of the gate
-- (src/routes/create-invoice-gate.ts).
use text.Mathlib.Text.{◌==◌ as str_eq}
use text.Mathlib.TextEquality.{eq_iff}
use rozo_mpprouter.Base.{
  ℕ, ◌+◌, ◌-◌, ◌≤◌, String, ◌≡◌, ◌≢◌, refl, true, none, some, List, [], ◌∷◌, arith, replicate,
}
use rozo_mpprouter.Base.Dict.{lookup, insert}
use rozo_mpprouter.AtomicStore.{Store, CounterCodec, bump, gate, write}
use rozo_mpprouter.Gate.{GateLimits, Delivery, answered, unanswered, gate_decision, check_gate}
use rozo_mpprouter.Gate.Admits.{counted, admitted, failures, admitted_bounded}
use rozo_mpprouter.Playground.Amount.{Text, read_number, read_digits}
use rozo_mpprouter.Playground.Deposit.{
  Transaction, Operation, body, DepositArgs, verified, usdc_issuer, verify_deposit, first_match,
  matches, horizon_amount, split_point, all_hex,
}
use rozo_mpprouter.Playground.Deposit.Sound.{Verifies, verify_deposit-Verifies}

abbrev untrimmed : Text → Text
untrimmed s = s

abbrev args : DepositArgs
args = record {
  tx_hash = replicate 64 b'a';
  memo = "m";
  destination = "GR";
  account = "GA";
  amount = 12500000;
}

abbrev transaction : Transaction
transaction = record {
  successful = true;
  memo_type = some "text";
  memo = some "m";
  closed_at = some 1500;
}

-- A payment of 1.25 of the code USDC by an issuer.
abbrev payment : String → Operation
payment issuer = record {
  kind = some "payment";
  asset_code = some "USDC";
  asset_issuer = some issuer;
  sender = some "GA";
  to = some "GR";
  amount = some (b'1' ∷ b'.' ∷ b'2' ∷ b'5' ∷ []);
  source_account = none;
}

abbrev operations : List Operation
operations = payment "GFAKE" ∷ payment usdc_issuer ∷ payment usdc_issuer ∷ []

-- The payment of the other issuer is passed over.
verify_second :
    verify_deposit untrimmed args 9 (body transaction) (body operations) ≡ verified 1 1500
unfolding verify_deposit first_match matches horizon_amount split_point all_hex read_number
    read_digits
verify_second = refl

verify_deposit-Verifies_example :
    Verifies untrimmed args 9
      (body transaction)
      (body operations)
      (verify_deposit untrimmed args 9 (body transaction) (body operations))
verify_deposit-Verifies_example =
    verify_deposit-Verifies untrimmed args 9 (body transaction) (body operations)

-- Counters stored as they are.
abbrev plain : CounterCodec (ℕ × String)
plain = record { encode = λ n b. (n, b); decode = λ v. some v }

abbrev counters : Store (ℕ × String)
counters = record {
  values = ("g", (2, "hour")) ∷ ("a", (1, "hour")) ∷ [];
  versions = ("g", 2) ∷ ("a", 1) ∷ [];
}

abbrev global_key : String
global_key = "g"

abbrev ip_key : String
ip_key = "a"

ip_key_ne : ip_key ≢ global_key
ip_key_ne e =
    let equal : str_eq ip_key global_key ≡ true = (eq_iff ip_key global_key).1 e in
    ground (arith, equal)

abbrev limits : GateLimits
limits = record { ip_per_hour = 2; global_per_hour = 4 }

abbrev calm : String × Delivery
calm = (ip_key, answered)

abbrev cut_off : String × Delivery
cut_off = (ip_key, unanswered)

-- The second request of the address is over its own limit.
admit_one :
    admitted plain "hour" (λ n. refl) global_key limits 0 (calm ∷ calm ∷ calm ∷ []) counters ≡ 1
unfolding admitted check_gate gate_decision gate bump write lookup insert
admit_one = refl

admitted_bounded_example :
    admitted plain "hour" (λ n. refl) global_key limits 0 (calm ∷ cut_off ∷ []) counters
    ≤ (4 - counted plain "hour" (λ n. refl) global_key counters)
      + failures plain "hour" (λ n. refl) global_key limits 0 (calm ∷ cut_off ∷ [])
admitted_bounded_example =
    admitted_bounded plain "hour" (λ n. refl) global_key limits 0 (calm ∷ cut_off ∷ []) counters
      (ip_key_ne, (ip_key_ne, tt))
