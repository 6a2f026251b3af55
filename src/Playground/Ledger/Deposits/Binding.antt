-- ===== src/Playground/Ledger/Deposits/Binding.antt =====
-- The replay guard of src/playground/ledger-do.ts: a consumed intent is bound to its payment.
use text.Mathlib.TextEquality.{eq_iff}
use rozo_mpprouter.Base.{
  ℕ, String, ◌≡◌, ◌≢◌, refl, inl, inr, some, false, Option-cases, Bool-cases, arith, ltb, ◌||◌,
  ◌&&◌, subst, sym, if◌then◌else◌,
}
use rozo_mpprouter.Base.Int.{ℤ}
use rozo_mpprouter.Base.Keys.{string_eq, pair_eq, nat_eq, ◌=?◌}
use rozo_mpprouter.Base.Dict.{
  Dict, lookup, insert, Forall, Forall-insert, lookup-insert, lookup-insert_self,
}
use rozo_mpprouter.Playground.Amount.{parse_atomic}
use rozo_mpprouter.Playground.Ledger.Types.{
  StoredIntent, IntentStatus, opened, consumed, expired, over_cap, Ledger, Reply, ok, err, throws,
  parse, fail_if, roll_back, CapReason, over_day, over_global,
}
use rozo_mpprouter.Playground.Ledger.Intents.{truthy}
use rozo_mpprouter.Playground.Ledger.Deposits.{
  OpenBody, open_deposit, open_by_status, claim, credit_within_caps, credit_or_refuse, above,
  credit, claimed, reopen, release_open_slot, must_renew, same_text, same_number, expire,
  refuse_over_cap,
}

-- A row that is consumed names the payment that the guard holds for it. An empty id is no key here,
-- since the guard takes it for an absent one.
abbrev pub Bound : Dict (String × ℕ) String → String → StoredIntent → Type 0
Bound guard id i =
    id ≢ ""
    → i.status ≡ consumed
    → (tx : String) × (op : ℕ) × (i.tx_hash ≡ some tx)
      × (i.op_index ≡ some op)
      × (lookup (tx, op) guard ≡ some id)

abbrev pub IsBound : Ledger → Type 0
IsBound s = Forall (Bound s.consumed_by) s.intents

falsy_empty : (id : String) → truthy (some id) ≡ false → id ≡ ""
falsy_empty id h = (eq_iff id "").0 (ground arith)

-- Consuming a free payment leaves the other bindings in place.
Bound-insert :
    (guard : Dict (String × ℕ) String) (p : String × ℕ) (id j : String) (i : StoredIntent)
    → truthy (lookup p guard) ≡ false
    → Bound guard j i
    → Bound (insert p id guard) j i
Bound-insert guard p id j i free b named done =
    let (tx, op, ht, ho, held) = b named done in
    elim (Bool-cases (p =? (tx, op))) [
      | inl same ↦
          let e : p ≡ (tx, op) = (pair_eq.beq_iff p (tx, op)).0 same in
          let empty : j ≡ "" = falsy_empty j (
            subst (λ o. truthy o ≡ false) (subst (λ q. lookup q guard ≡ some j) (sym e) held)
              free) in
          absurd (named empty)
      | inr other ↦ (tx, op, ht, ho, rw (lookup-insert p (tx, op) id guard, other) held)
    ]

module _ (intent : StoredIntent) (b : OpenBody) (s : Ledger) (all : IsBound s) where
  credit-IsBound :
      truthy (lookup (b.tx_hash, b.op_index) s.consumed_by) ≡ false → IsBound (credit intent b s)
  unfolding credit release_open_slot
  credit-IsBound free =
      Forall-insert (Bound (insert (b.tx_hash, b.op_index) b.intent_id s.consumed_by)) b.intent_id
        (claimed intent b) s.intents
        (λ j i found.
          Bound-insert s.consumed_by (b.tx_hash, b.op_index) b.intent_id j i free (all j i found))
        (λ named done. (
          b.tx_hash,
          b.op_index,
          refl,
          refl,
          lookup-insert_self (b.tx_hash, b.op_index) b.intent_id s.consumed_by,
        ))

  -- A row that is written as not consumed.
  expire-IsBound : IsBound (expire intent b s)
  unfolding release_open_slot
  expire-IsBound =
      Forall-insert (Bound s.consumed_by) b.intent_id (record intent { status = expired }) s.intents
        all (λ named done. cc)

  refuse_over_cap-IsBound : (reason : CapReason) → IsBound (refuse_over_cap intent b reason s)
  unfolding release_open_slot
  refuse_over_cap-IsBound reason =
      Forall-insert (Bound s.consumed_by) b.intent_id
        (record intent { status = over_cap; tx_hash = some b.tx_hash; op_index = some b.op_index })
        s.intents all (λ named done. cc)

  reopen-IsBound : lookup b.intent_id s.intents ≡ some intent → IsBound (reopen intent b s).1
  unfolding reopen
  reopen-IsBound found =
      elim (Bool-cases
        (same_text intent.tx_hash b.tx_hash && same_number intent.op_index b.op_index)) [
          | inl same ↦ rw same (elim (Bool-cases (must_renew intent.session_exp b.now)) [
            | inl renew ↦ rw renew (
                Forall-insert (Bound s.consumed_by) b.intent_id
                  (record intent {
                    session_jti = some b.session_jti;
                    session_exp = some b.session_exp;
                  })
                  s.intents all (all b.intent_id intent found))
            | inr keep ↦ rw keep all
          ])
          | inr other ↦ rw other all
        ]

  module _ (free : truthy (lookup (b.tx_hash, b.op_index) s.consumed_by) ≡ false) where
    credit_or_refuse-IsBound : (d dc o gc : ℤ) → IsBound (credit_or_refuse intent b d dc o gc s).1
    unfolding credit_or_refuse
    credit_or_refuse-IsBound d dc o gc =
        elim (Bool-cases (above dc d intent.amount || above gc o intent.amount)) [
          | inl over ↦
              rw over (
                refuse_over_cap-IsBound
                  (if above dc d intent.amount then over_day else over_global))
          | inr fits ↦ rw fits (credit-IsBound free)
        ]

    credit_within_caps-IsBound : IsBound (credit_within_caps intent b s).1
    unfolding credit_within_caps
    credit_within_caps-IsBound = elim (Option-cases (parse_atomic b.per_account_day_cap)) [
      | inl bad ↦ rw (bad, parse) all
      | inr (dc, dr) ↦
          rw (dr, parse)
            (elim (Option-cases (parse_atomic b.global_cap)) [
              | inl bad ↦ rw (bad, parse) all
              | inr (gc, gr) ↦ rw (gr, parse) (credit_or_refuse-IsBound _ dc _ gc)
            ])
    ]

  claim-IsBound : IsBound (claim intent b s).1
  unfolding claim
  claim-IsBound = elim (Bool-cases (truthy (lookup (b.tx_hash, b.op_index) s.consumed_by))) [
    | inl taken ↦ rw (taken, fail_if) all
    | inr free ↦
        rw (free, fail_if)
          (elim (Bool-cases (ltb intent.expires_at b.confirmed_at)) [
            | inl late ↦ rw late expire-IsBound
            | inr timely ↦ rw timely (credit_within_caps-IsBound free)
          ])
  ]

  open_by_status-IsBound :
      lookup b.intent_id s.intents ≡ some intent
      → (status : IntentStatus) → IsBound (open_by_status status intent b s).1
  open_by_status-IsBound found opened = claim-IsBound
  open_by_status-IsBound found expired = claim-IsBound
  open_by_status-IsBound found consumed = reopen-IsBound found
  open_by_status-IsBound found over_cap = all

pub roll_back-IsBound :
    {A : Type 0} (s : Ledger) (p : Reply A × Ledger)
    → IsBound s
    → IsBound p.1
    → IsBound (roll_back s p).1
roll_back-IsBound s (ok r, t) v h = h
roll_back-IsBound s (err c, t) v h = h
roll_back-IsBound s (throws, t) v h = v

pub open_deposit-IsBound : (b : OpenBody) (s : Ledger) → IsBound s → IsBound (open_deposit b s).1
unfolding open_deposit
open_deposit-IsBound b s all = elim (Option-cases (lookup b.intent_id s.intents)) [
  | inl missing ↦ rw missing all
  | inr (intent, e) ↦ rw e (
      roll_back-IsBound s (open_by_status intent.status intent b s) all
        (open_by_status-IsBound intent b s all e intent.status))
]

-- Two consumed rows that name one payment are one row.
pub payment_once :
    (s : Ledger) (id j : String) {i k : StoredIntent} {tx : String} {op : ℕ}
    → IsBound s
    → id ≢ ""
    → j ≢ ""
    → lookup id s.intents ≡ some i
    → lookup j s.intents ≡ some k
    → i.status ≡ consumed
    → k.status ≡ consumed
    → i.tx_hash ≡ some tx
    → k.tx_hash ≡ some tx
    → i.op_index ≡ some op
    → k.op_index ≡ some op
    → id ≡ j
payment_once s id j {i} {k} all ni nj fi fk ci ck ti tk oi ok_ =
    let (tx1, op1, a1, b1, h1) = all id i fi ni ci in
    let (tx2, op2, a2, b2, h2) = all j k fk nj ck in
    let et : tx1 ≡ tx2 = cc in let eo : op1 ≡ op2 = cc in cc
