-- ===== src/Playground/Ledger/Deposits/Credits.antt =====
-- What `open` of src/playground/ledger-do.ts credits, on every branch.
use rozo_mpprouter.Base.{
  ◌≡◌, refl, inl, inr, some, true, false, Option-cases, Bool-cases, arith, ltb, ◌≤◌, ◌||◌, ◌&&◌,
}
use rozo_mpprouter.Base.Int.{ℤ, ◌+ℤ◌, ◌≤ℤ◌}
use rozo_mpprouter.Base.Keys.{string_eq, pair_eq, nat_eq}
use rozo_mpprouter.Base.Dict.{lookup, lookup-insert_self}
use rozo_mpprouter.Playground.Amount.{parse_atomic}
use rozo_mpprouter.Playground.Ledger.Types.{
  StoredIntent, IntentStatus, opened, consumed, expired, over_cap, Ledger, balance_of, deposited_on,
  utc_day_key, Reply, ok, err, throws, parse, fail_if, roll_back,
}
use rozo_mpprouter.Playground.Ledger.Intents.{truthy}
use rozo_mpprouter.Playground.Ledger.Deposits.{
  OpenBody, Opening, open_deposit, open_by_status, claim, credit_within_caps, credit_or_refuse,
  above, credit, claimed, reopen, release_open_slot, must_renew, same_text, same_number,
}
use rozo_mpprouter.Playground.Ledger.Invariant.{SameMoney}

-- A credit of the intent's amount by the request: the payment was free and is now the intent's, it
-- was confirmed in time, and both ceilings hold after it.
pub record Credited (b : OpenBody) (intent : StoredIntent) (s t : Ledger) : Type 0 where
  pub day_cap : ℤ
  pub global_cap : ℤ
  pub day_read : parse_atomic b.per_account_day_cap ≡ some day_cap
  pub global_read : parse_atomic b.global_cap ≡ some global_cap
  pub was_free : truthy (lookup (b.tx_hash, b.op_index) s.consumed_by) ≡ false
  pub owner : lookup (b.tx_hash, b.op_index) t.consumed_by ≡ some b.intent_id
  pub timely : b.confirmed_at ≤ intent.expires_at
  pub within_day : deposited_on intent.account (utc_day_key b.confirmed_at) t ≤ℤ day_cap
  pub within_global : t.outstanding ≤ℤ global_cap
  pub added : balance_of intent.account t ≡ balance_of intent.account s +ℤ intent.amount
  pub pool : t.outstanding ≡ s.outstanding +ℤ intent.amount
  pub lifetime : t.credited ≡ s.credited +ℤ intent.amount

abbrev pub Opens : OpenBody → Ledger → Reply Opening × Ledger → Type 0
Opens b s (ok r, t) = elim r.replayed [ true ↦ SameMoney s t | false ↦ Credited b r.intent s t ]
Opens b s (err c, t) = SameMoney s t
Opens b s (throws, t) = SameMoney s t

SameMoney-refl : (s : Ledger) → SameMoney s s
SameMoney-refl s = record {
  balances = refl;
  calls = refl;
  credited = refl;
  committed_total = refl;
  outstanding = refl;
}

module _ (intent : StoredIntent) (b : OpenBody) (s : Ledger) where
  reopen-Opens : Opens b s (reopen intent b s)
  unfolding reopen
  reopen-Opens =
      elim (Bool-cases
        (same_text intent.tx_hash b.tx_hash && same_number intent.op_index b.op_index)) [
          | inl same ↦ rw same (elim (Bool-cases (must_renew intent.session_exp b.now)) [
            | inl renew ↦ rw renew (ground arith)
            | inr keep ↦ rw keep (SameMoney-refl s)
          ])
          | inr other ↦ rw other (SameMoney-refl s)
        ]

  credit-Credited :
      (day_cap global_cap : ℤ)
      → parse_atomic b.per_account_day_cap ≡ some day_cap
      → parse_atomic b.global_cap ≡ some global_cap
      → truthy (lookup (b.tx_hash, b.op_index) s.consumed_by) ≡ false
      → b.confirmed_at ≤ intent.expires_at
      → (above day_cap (deposited_on intent.account (utc_day_key b.confirmed_at) s) intent.amount
          || above global_cap s.outstanding intent.amount)
        ≡ false
      → Credited b (claimed intent b) s (credit intent b s)
  unfolding credit release_open_slot
  credit-Credited day_cap global_cap dr gr free timely fits = record {
    day_cap = day_cap;
    global_cap = global_cap;
    day_read = dr;
    global_read = gr;
    was_free = free;
    owner = lookup-insert_self (b.tx_hash, b.op_index) b.intent_id s.consumed_by;
    timely = timely;
    within_day = rw lookup-insert_self (ground arith);
    within_global = ground arith;
    added = rw lookup-insert_self refl;
    pool = refl;
    lifetime = refl;
  }

  module _ (free : truthy (lookup (b.tx_hash, b.op_index) s.consumed_by) ≡ false)
      (timely : b.confirmed_at ≤ intent.expires_at) where
    credit_or_refuse-Opens :
        (day_cap global_cap : ℤ)
        → parse_atomic b.per_account_day_cap ≡ some day_cap
        → parse_atomic b.global_cap ≡ some global_cap
        → Opens b s (
            credit_or_refuse intent b
              (deposited_on intent.account (utc_day_key b.confirmed_at) s)
              day_cap
              s.outstanding
              global_cap
              s)
    unfolding credit_or_refuse release_open_slot
    credit_or_refuse-Opens dc gc dr gr =
        elim (Bool-cases (
          above dc (deposited_on intent.account (utc_day_key b.confirmed_at) s) intent.amount
          || above gc s.outstanding intent.amount)) [
            | inl over ↦ rw over (ground arith)
            | inr fits ↦ rw fits (credit-Credited dc gc dr gr free timely fits)
          ]

    credit_within_caps-Opens : Opens b s (credit_within_caps intent b s)
    unfolding credit_within_caps
    credit_within_caps-Opens = elim (Option-cases (parse_atomic b.per_account_day_cap)) [
      | inl bad ↦ rw (bad, parse) (SameMoney-refl s)
      | inr (dc, dr) ↦
          rw (dr, parse)
            (elim (Option-cases (parse_atomic b.global_cap)) [
              | inl bad ↦ rw (bad, parse) (SameMoney-refl s)
              | inr (gc, gr) ↦ rw (gr, parse) (credit_or_refuse-Opens dc gc dr gr)
            ])
    ]

  claim-Opens : Opens b s (claim intent b s)
  unfolding claim release_open_slot
  claim-Opens = elim (Bool-cases (truthy (lookup (b.tx_hash, b.op_index) s.consumed_by))) [
    | inl taken ↦ rw (taken, fail_if) (SameMoney-refl s)
    | inr free ↦
        rw (free, fail_if)
          (elim (Bool-cases (ltb intent.expires_at b.confirmed_at)) [
            | inl late ↦ rw late (ground arith)
            | inr timely ↦ rw timely (credit_within_caps-Opens free (ground arith))
          ])
  ]

  open_by_status-Opens : (status : IntentStatus) → Opens b s (open_by_status status intent b s)
  open_by_status-Opens opened = claim-Opens
  open_by_status-Opens expired = claim-Opens
  open_by_status-Opens consumed = reopen-Opens
  open_by_status-Opens over_cap = SameMoney-refl s

roll_back-Opens :
    (b : OpenBody) (s : Ledger) (p : Reply Opening × Ledger)
    → Opens b s p
    → Opens b s (roll_back s p)
roll_back-Opens b s (ok r, t) h = h
roll_back-Opens b s (err c, t) h = h
roll_back-Opens b s (throws, t) h = SameMoney-refl s

-- An `open` that succeeds without a replay has credited exactly the intent's amount: the payment was
-- not consumed before and is now bound to this intent, it was confirmed before the intent expired,
-- and the day's deposits and the outstanding pool are within the ceilings of the request. A replay,
-- an error and an exception leave balances, calls and totals as they were.
pub open_deposit-Opens : (b : OpenBody) (s : Ledger) → Opens b s (open_deposit b s)
unfolding open_deposit
open_deposit-Opens b s = elim (Option-cases (lookup b.intent_id s.intents)) [
  | inl missing ↦ rw missing (SameMoney-refl s)
  | inr (intent, e) ↦ rw e (
      roll_back-Opens b s (open_by_status intent.status intent b s)
        (open_by_status-Opens intent b s intent.status))
]
