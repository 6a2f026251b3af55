-- ===== src/Playground/Ledger/Deposits/Solvency.antt =====
-- `open` keeps the ledger solvent: a credit moves the balance, the lifetime deposits and the
-- outstanding pool together, and every other branch moves no money.
use rozo_mpprouter.Base.{inl, inr, some, arith, Option-cases, Bool-cases, ltb, ◌||◌, ◌&&◌}
use rozo_mpprouter.Base.Int.{ℤ, pos, ◌+ℤ◌, ◌≤ℤ◌, int_laws, parts}
use rozo_mpprouter.Base.Keys.{string_eq, pair_eq, nat_eq}
use rozo_mpprouter.Base.Dict.{lookup, Forall-insert}
use rozo_mpprouter.Playground.Amount.{parse_atomic}
use rozo_mpprouter.Playground.Ledger.Types.{
  StoredIntent, IntentStatus, opened, consumed, expired, over_cap, Ledger, balance_of, parse,
  fail_if, CapReason,
}
use rozo_mpprouter.Playground.Ledger.Intents.{truthy}
use rozo_mpprouter.Playground.Ledger.Deposits.{
  OpenBody, open_deposit, open_by_status, claim, credit_within_caps, credit_or_refuse, above,
  credit, claimed, expire, refuse_over_cap, reopen, release_open_slot, must_renew, same_text,
  same_number,
}
use rozo_mpprouter.Playground.Ledger.Invariant.{
  IsSolvent, balance_nonneg, sum-balances, SameMoney-IsSolvent,
}
use rozo_mpprouter.Playground.Ledger.Calls.Handlers.{Keeps, roll_back-IsSolvent}

pub credit-IsSolvent :
    (intent : StoredIntent) (b : OpenBody) (s : Ledger)
    → IsSolvent s
    → pos 1 ≤ℤ intent.amount
    → IsSolvent (credit intent b s)
unfolding credit release_open_slot
credit-IsSolvent intent b s v positive = record {
  conserved = omega (
    int_laws,
    parts v.conserved,
    parts (sum-balances intent.account (balance_of intent.account s +ℤ intent.amount) s),
  );
  accounted = omega (int_laws, parts v.accounted);
  calls_distinct = v.calls_distinct;
  balances_nonneg =
      Forall-insert _ intent.account _ s.balances v.balances_nonneg
        (omega (int_laws, balance_nonneg intent.account s v));
  holds_nonneg = v.holds_nonneg;
  amounts_positive =
      Forall-insert _ b.intent_id (claimed intent b) s.intents v.amounts_positive positive;
}

-- A write of an intent's row, and of rows that hold no money.
module _ (intent : StoredIntent) (b : OpenBody) (s : Ledger) (v : IsSolvent s)
    (positive : pos 1 ≤ℤ intent.amount) where
  expire-IsSolvent : IsSolvent (expire intent b s)
  unfolding release_open_slot
  expire-IsSolvent =
      SameMoney-IsSolvent {s = s} (ground arith)
        (Forall-insert _ b.intent_id (record intent { status = expired }) s.intents
          v.amounts_positive positive)
        v

  refuse_over_cap-IsSolvent : (over : CapReason) → IsSolvent (refuse_over_cap intent b over s)
  unfolding release_open_slot
  refuse_over_cap-IsSolvent over =
      SameMoney-IsSolvent {s = s} (ground arith)
        (Forall-insert _ b.intent_id
          (record intent {
            status = over_cap;
            tx_hash = some b.tx_hash;
            op_index = some b.op_index;
          })
          s.intents v.amounts_positive positive)
        v

  credit_or_refuse-IsSolvent : (d dc o gc : ℤ) → IsSolvent (credit_or_refuse intent b d dc o gc s).1
  unfolding credit_or_refuse
  credit_or_refuse-IsSolvent d dc o gc =
      elim (Bool-cases (above dc d intent.amount || above gc o intent.amount)) [
        | inl over ↦ rw over (refuse_over_cap-IsSolvent _)
        | inr fits ↦ rw fits (credit-IsSolvent intent b s v positive)
      ]

  credit_within_caps-IsSolvent : IsSolvent (credit_within_caps intent b s).1
  unfolding credit_within_caps
  credit_within_caps-IsSolvent = elim (Option-cases (parse_atomic b.per_account_day_cap)) [
    | inl bad ↦ rw (bad, parse) v
    | inr (day_cap, e) ↦
        rw (e, parse)
          (elim (Option-cases (parse_atomic b.global_cap)) [
            | inl bad ↦ rw (bad, parse) v
            | inr (global_cap, g) ↦
                rw (g, parse) (credit_or_refuse-IsSolvent _ day_cap _ global_cap)
          ])
  ]

  claim-IsSolvent : IsSolvent (claim intent b s).1
  unfolding claim
  claim-IsSolvent = elim (Bool-cases (truthy (lookup (b.tx_hash, b.op_index) s.consumed_by))) [
    | inl taken ↦ rw (taken, fail_if) v
    | inr free ↦
        rw (free, fail_if)
          (elim (Bool-cases (ltb intent.expires_at b.confirmed_at)) [
            | inl late ↦ rw late expire-IsSolvent
            | inr timely ↦ rw timely credit_within_caps-IsSolvent
          ])
  ]

  reopen-IsSolvent : IsSolvent (reopen intent b s).1
  unfolding reopen
  reopen-IsSolvent =
      elim (Bool-cases
        (same_text intent.tx_hash b.tx_hash && same_number intent.op_index b.op_index)) [
          | inl same ↦ rw same (elim (Bool-cases (must_renew intent.session_exp b.now)) [
            | inl renew ↦ rw renew (
                SameMoney-IsSolvent {s = s} (ground arith)
                  (Forall-insert _ b.intent_id
                    (record intent {
                      session_jti = some b.session_jti;
                      session_exp = some b.session_exp;
                    })
                    s.intents v.amounts_positive positive)
                  v)
            | inr keep ↦ rw keep v
          ])
          | inr other ↦ rw other v
        ]

  open_by_status-IsSolvent :
      (status : IntentStatus) → IsSolvent (open_by_status status intent b s).1
  open_by_status-IsSolvent opened = claim-IsSolvent
  open_by_status-IsSolvent expired = claim-IsSolvent
  open_by_status-IsSolvent consumed = reopen-IsSolvent
  open_by_status-IsSolvent over_cap = v

pub open_deposit-IsSolvent : (b : OpenBody) → Keeps (open_deposit b)
unfolding open_deposit
open_deposit-IsSolvent b s v = elim (Option-cases (lookup b.intent_id s.intents)) [
  | inl missing ↦ rw missing v
  | inr (intent, e) ↦ rw e (
      roll_back-IsSolvent s (open_by_status intent.status intent b s) v (
        open_by_status-IsSolvent intent b s v (v.amounts_positive b.intent_id intent e)
          intent.status))
]
