-- ===== src/Playground/Ledger/Calls/Handlers.antt =====
-- The whole handlers `reserve`, `markDispatched` and `settle` keep the ledger solvent.
use rozo_mpprouter.Base.{
  ℕ, String, ◌≡◌, inl, inr, none, some, true, arith, Option-cases, Bool-cases, not, ◌&&◌, or_else,
  [], ◌∷◌,
}
use rozo_mpprouter.Base.Int.{ℤ, pos, ◌≤ℤ◌, ltb_ℤ, int_laws, parts}
use rozo_mpprouter.Base.Keys.{string_eq}
use rozo_mpprouter.Base.Dict.{lookup, insert-IsMap, Forall-insert}
use rozo_mpprouter.Playground.Amount.{parse_atomic}
use rozo_mpprouter.Playground.Ledger.Types.{
  StoredCall, reserved, Ledger, balance_of, Reply, ok, err, throws, transaction, roll_back, Action,
  parse,
}
use rozo_mpprouter.Playground.Ledger.Calls.{
  ReserveBody, ReserveOutcome, released_call, is_reserved, reserve, reserve_fresh, arm_reaper,
  arm_if_held, reserve_in_txn, mark_dispatched, settle, settle_reserved, SettleAction, commit,
  release, clamp_charge,
}
use rozo_mpprouter.Playground.Ledger.Invariant.{IsSolvent, SameMoney-IsSolvent}
use rozo_mpprouter.Playground.Ledger.Calls.Solvency.{
  put_call-IsSolvent, commit_call-IsSolvent, hold-IsSolvent, sum-calls_found, held_reserved,
  zero_held,
}

abbrev pub Keeps : {A : Type 0} → Action A → Type 0
Keeps m = (s : Ledger) → IsSolvent s → IsSolvent (m s).1

pub roll_back-IsSolvent :
    {A : Type 0} (s : Ledger) (p : Reply A × Ledger)
    → IsSolvent s
    → IsSolvent p.1
    → IsSolvent (roll_back s p).1
roll_back-IsSolvent s (ok a, t) v w = w
roll_back-IsSolvent s (err c, t) v w = w
roll_back-IsSolvent s (throws, t) v w = v

pub transaction-Keeps : {A : Type 0} (m : Action A) → Keeps m → Keeps (transaction m)
transaction-Keeps m k s v = roll_back-IsSolvent s (m s) v (k s v)

-- An alarm is no part of the money.
arm_reaper-IsSolvent : (now : ℕ) (s : Ledger) → IsSolvent s → IsSolvent (arm_reaper now s)
arm_reaper-IsSolvent now s v = SameMoney-IsSolvent (ground arith) (ground arith) v

reserve_fresh-IsSolvent :
    (b : ReserveBody) (n : ℤ) (s : Ledger)
    → IsSolvent s
    → lookup b.call_id s.calls ≡ none
    → pos 0 ≤ℤ n
    → IsSolvent (reserve_fresh b n s).1
unfolding reserve_fresh
reserve_fresh-IsSolvent b n s v fresh nonneg =
    elim (Bool-cases (ltb_ℤ (balance_of b.account s) n)) [
      | inl short ↦ rw short v
      | inr enough ↦ rw enough (hold-IsSolvent b n s v fresh nonneg (ground arith))
    ]

reserve_in_txn-IsSolvent :
    (b : ReserveBody) (n : ℤ) (s : Ledger)
    → pos 0 ≤ℤ n
    → IsSolvent s
    → IsSolvent (reserve_in_txn b n s).1
reserve_in_txn-IsSolvent b n s nonneg v = elim (Option-cases (lookup b.call_id s.calls)) [
  | inl fresh ↦ rw (fresh, reserve_in_txn) (reserve_fresh-IsSolvent b n s v fresh nonneg)
  | inr (call, e) ↦ rw (e, reserve_in_txn) v
]

-- Once the price is read: the sign test, the transaction and the alarm.
reserve_rest-IsSolvent :
    (b : ReserveBody) (p : Reply ReserveOutcome × Ledger)
    → IsSolvent p.1
    → IsSolvent (arm_if_held b.now p).1
reserve_rest-IsSolvent b (ok r, t) v = elim (Bool-cases (r.ok_flag && not r.duplicate)) [
  | inl held_now ↦ rw held_now (arm_reaper-IsSolvent b.now t v)
  | inr other ↦ rw other v
]
reserve_rest-IsSolvent b (err c, t) v = v
reserve_rest-IsSolvent b (throws, t) v = v

pub reserve-IsSolvent : (b : ReserveBody) → Keeps (reserve b)
unfolding reserve
reserve-IsSolvent b s v = elim (Option-cases (parse_atomic b.max_price)) [
  | inl bad ↦ rw (bad, parse) v
  | inr (n, e) ↦
      rw (e, parse)
        (elim (Bool-cases (ltb_ℤ n (pos 0))) [
          | inl negative ↦ rw negative v
          | inr fine ↦ rw fine (
              reserve_rest-IsSolvent b _ (
                transaction-Keeps (reserve_in_txn b n)
                  (λ t w. reserve_in_txn-IsSolvent b n t (ground arith) w) s v))
        ])
]

pub mark_dispatched-IsSolvent : (id : String) → Keeps (mark_dispatched id)
unfolding mark_dispatched
mark_dispatched-IsSolvent id s v = elim (Option-cases (lookup id s.calls)) [
  | inl missing ↦ rw missing v
  | inr (call, e) ↦ rw e (elim (Bool-cases (is_reserved call.status && not call.dispatched)) [
    | inl live ↦ rw live (record {
      conserved = omega (
        int_laws,
        parts v.conserved,
        parts (sum-calls_found id call (record call { dispatched = true }) s e),
      );
      accounted = v.accounted;
      calls_distinct = insert-IsMap id (record call { dispatched = true }) s.calls v.calls_distinct;
      balances_nonneg = v.balances_nonneg;
      holds_nonneg =
          Forall-insert _ id (record call { dispatched = true }) s.calls v.holds_nonneg
            (v.holds_nonneg id call e);
      amounts_positive = v.amounts_positive;
    })
    | inr other ↦ rw other v
  ])
]

pub live_reserved : (c : StoredCall) → is_reserved c.status ≡ true → c.status ≡ reserved
live_reserved c live = ground arith

pub clamp_charge_le :
    (held_now charged : ℤ) → pos 0 ≤ℤ held_now → clamp_charge held_now charged ≤ℤ held_now
clamp_charge_le held_now charged nonneg = ground arith

pub clamp_charge_nonneg :
    (held_now charged : ℤ) → pos 0 ≤ℤ held_now → pos 0 ≤ℤ clamp_charge held_now charged
clamp_charge_nonneg held_now charged nonneg = ground arith

settle_reserved-IsSolvent :
    (id : String) (call : StoredCall) (action : SettleAction) (s : Ledger)
    → IsSolvent s
    → lookup id s.calls ≡ some call
    → call.status ≡ reserved
    → IsSolvent (settle_reserved id call action s).1
unfolding settle_reserved
settle_reserved-IsSolvent id call (release reason) s v found live =
    put_call-IsSolvent id call (released_call call reason) s v found
      (zero_held call (held_reserved call live)) (v.holds_nonneg id call found)
settle_reserved-IsSolvent id call (commit text) s v found live =
    elim (Option-cases (parse_atomic (or_else text (b'0' ∷ [])))) [
      | inl bad ↦ rw (bad, parse) v
      | inr (n, e) ↦
          rw (e, parse)
            (commit_call-IsSolvent id call (clamp_charge call.max_price n) s v found live
              (clamp_charge_le call.max_price n (v.holds_nonneg id call found)))
    ]

pub settle-IsSolvent : (id : String) (action : SettleAction) → Keeps (settle id action)
unfolding settle
settle-IsSolvent id action s v = elim (Option-cases (lookup id s.calls)) [
  | inl missing ↦ rw missing v
  | inr (call, e) ↦ rw e (elim (Bool-cases (is_reserved call.status)) [
    | inl live ↦ rw live (
        roll_back-IsSolvent s (settle_reserved id call action s) v
          (settle_reserved-IsSolvent id call action s v e (live_reserved call live)))
    | inr other ↦ rw other v
  ])
]
