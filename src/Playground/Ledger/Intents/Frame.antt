-- ===== src/Playground/Ledger/Intents/Frame.antt =====
-- `createIntent` leaves the replay guard alone, and writes only an intent that is not consumed.
use rozo_mpprouter.Base.{◌≡◌, inl, inr, Option-cases, Bool-cases}
use rozo_mpprouter.Base.Int.{ℤ, pos, leb_ℤ}
use rozo_mpprouter.Base.Keys.{string_eq}
use rozo_mpprouter.Base.Dict.{lookup, Forall-insert}
use rozo_mpprouter.Playground.Amount.{parse_atomic}
use rozo_mpprouter.Playground.Ledger.Types.{
  Ledger, Reply, ok, err, throws, parse, fail_if, bind_reply,
}
use rozo_mpprouter.Playground.Ledger.Intents.{
  CreateBody, create_intent, create_in_txn, store_if_free, new_intent, truthy, check_headroom,
}
use rozo_mpprouter.Playground.Ledger.Intents.Solvency.{check_headroom-pure}
use rozo_mpprouter.Playground.Ledger.Deposits.Binding.{IsBound, Bound, roll_back-IsBound}

store_if_free-IsBound :
    (b : CreateBody) (n : ℤ) (s : Ledger) → IsBound s → IsBound (store_if_free b n s).1
store_if_free-IsBound b n s all = elim (Bool-cases (truthy (lookup b.memo s.memos))) [
  | inl taken ↦ rw (taken, fail_if) all
  | inr free ↦
      rw (free, fail_if)
        (Forall-insert (Bound s.consumed_by) b.intent_id (new_intent b n) s.intents all
          (λ named done. cc))
]

create_in_txn-IsBound :
    (b : CreateBody) (n : ℤ) (s : Ledger) → IsBound s → IsBound (create_in_txn b n s).1
create_in_txn-IsBound b n s all = after (check_headroom b n s) (check_headroom-pure b n s)
  where
    after :
        (p : Reply (Unit {0}) × Ledger)
        → p.1 ≡ s
        → IsBound (bind_reply p (λ _. store_if_free b n)).1
    after (ok u, t) same = rw same (store_if_free-IsBound b n s all)
    after (err c, t) same = rw same all
    after (throws, t) same = rw same all

pub create_intent-IsBound :
    (b : CreateBody) (s : Ledger) → IsBound s → IsBound (create_intent b s).1
unfolding create_intent
create_intent-IsBound b s all = elim (Option-cases (parse_atomic b.amount)) [
  | inl bad ↦ rw (bad, parse) all
  | inr (n, e) ↦
      rw (e, parse)
        (elim (Bool-cases (leb_ℤ n (pos 0))) [
          | inl small ↦ rw (small, fail_if) all
          | inr fine ↦
              rw (fine, fail_if)
                (roll_back-IsBound s (create_in_txn b n s) all (create_in_txn-IsBound b n s all))
        ])
]
