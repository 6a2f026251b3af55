-- ===== src/Playground/Ledger/Intents/Solvency.antt =====
-- `createIntent` keeps the ledger solvent: it moves no money.
use rozo_mpprouter.Base.{◌≡◌, inl, inr, arith, Option-cases, Bool-cases}
use rozo_mpprouter.Base.Int.{ℤ, pos, ◌≤ℤ◌, leb_ℤ}
use rozo_mpprouter.Base.Keys.{string_eq, pair_eq, nat_eq}
use rozo_mpprouter.Base.Dict.{lookup, Forall-insert}
use rozo_mpprouter.Playground.Amount.{parse_atomic}
use rozo_mpprouter.Playground.Ledger.Types.{
  Ledger, parse, fail_if, bind_reply, Reply, ok, err, throws,
}
use rozo_mpprouter.Playground.Ledger.Intents.{
  CreateBody, create_intent, check_headroom, new_intent, store_intent, store_if_free, create_in_txn,
  truthy,
}
use rozo_mpprouter.Playground.Ledger.Invariant.{IsSolvent, SameMoney-IsSolvent}
use rozo_mpprouter.Playground.Ledger.Calls.Handlers.{Keeps, roll_back-IsSolvent}

-- The headroom checks write nothing.
pub check_headroom-pure : (b : CreateBody) (n : ℤ) (s : Ledger) → (check_headroom b n s).1 ≡ s
check_headroom-pure b n s = ground arith

store_intent-IsSolvent :
    (b : CreateBody) (n : ℤ) (s : Ledger)
    → pos 1 ≤ℤ n
    → IsSolvent s
    → IsSolvent (store_intent b n s)
store_intent-IsSolvent b n s positive v =
    SameMoney-IsSolvent {s = s} (ground arith)
      (Forall-insert _ b.intent_id (new_intent b n) s.intents v.amounts_positive positive) v

create_rest-IsSolvent :
    (b : CreateBody) (n : ℤ) (s : Ledger)
    → pos 1 ≤ℤ n
    → IsSolvent s
    → IsSolvent (store_if_free b n s).1
create_rest-IsSolvent b n s positive v = elim (Bool-cases (truthy (lookup b.memo s.memos))) [
  | inl taken ↦ rw (taken, fail_if) v
  | inr free ↦ rw (free, fail_if) (store_intent-IsSolvent b n s positive v)
]

create_in_txn-IsSolvent :
    (b : CreateBody) (n : ℤ) (s : Ledger)
    → pos 1 ≤ℤ n
    → IsSolvent s
    → IsSolvent (create_in_txn b n s).1
create_in_txn-IsSolvent b n s positive v = after (check_headroom b n s) (check_headroom-pure b n s)
  where
    after :
        (p : Reply (Unit {0}) × Ledger)
        → p.1 ≡ s
        → IsSolvent (bind_reply p (λ _. store_if_free b n)).1
    after (ok u, t) same = rw same (create_rest-IsSolvent b n s positive v)
    after (err c, t) same = rw same v
    after (throws, t) same = rw same v

pub create_intent-IsSolvent : (b : CreateBody) → Keeps (create_intent b)
unfolding create_intent
create_intent-IsSolvent b s v = elim (Option-cases (parse_atomic b.amount)) [
  | inl bad ↦ rw (bad, parse) v
  | inr (n, e) ↦
      rw (e, parse)
        (elim (Bool-cases (leb_ℤ n (pos 0))) [
          | inl small ↦ rw (small, fail_if) v
          | inr fine ↦
              rw (fine, fail_if)
                (roll_back-IsSolvent s (create_in_txn b n s) v
                  (create_in_txn-IsSolvent b n s (ground arith) v))
        ])
]
