-- ===== src/Playground/Ledger/Calls/Solvency.antt =====
-- Every call of the money path keeps the ledger solvent.
use rozo_mpprouter.Base.{String, ◌≡◌, subst, none, some, arith}
use rozo_mpprouter.Base.Int.{ℤ, pos, ◌+ℤ◌, ◌-ℤ◌, ◌≤ℤ◌, int_laws, parts}
use rozo_mpprouter.Base.Keys.{string_eq}
use rozo_mpprouter.Base.Dict.{lookup, insert, insert-IsMap, Forall-insert, measure, sum_by}
use rozo_mpprouter.Playground.Ledger.Types.{StoredCall, reserved, Ledger, balance_of}
use rozo_mpprouter.Playground.Ledger.Calls.{
  ReserveBody, new_call, hold, put_call, commit_call, committed_call,
}
use rozo_mpprouter.Playground.Ledger.Invariant.{
  IsSolvent, held, balance_nonneg, sum-balances, sum-calls,
}

-- The write of a call's row, its old row named.
pub sum-calls_found :
    (id : String) (old call : StoredCall) (s : Ledger)
    → lookup id s.calls ≡ some old
    → sum_by held (insert id call s.calls) +ℤ held old ≡ sum_by held s.calls +ℤ held call
sum-calls_found id old call s found =
    subst
      (λ o.
        sum_by held (insert id call s.calls) +ℤ measure held o ≡ sum_by held s.calls +ℤ held call)
      found (sum-calls id call s)

sum-calls_fresh :
    (id : String) (call : StoredCall) (s : Ledger)
    → lookup id s.calls ≡ none
    → sum_by held (insert id call s.calls) ≡ sum_by held s.calls +ℤ held call
sum-calls_fresh id call s fresh =
    let e =
      subst
        (λ o.
          sum_by held (insert id call s.calls) +ℤ measure held o ≡ sum_by held s.calls +ℤ held call)
        fresh (sum-calls id call s) in
    omega (int_laws, parts e)

pub zero_held : (c : StoredCall) → held c ≡ c.max_price → pos 0 +ℤ c.max_price ≡ held c
zero_held c e = omega (int_laws, parts e)

pub held_reserved : (c : StoredCall) → c.status ≡ reserved → held c ≡ c.max_price
held_reserved c live = ground arith

-- A call that is settled without a charge gives its hold back to its account.
pub put_call-IsSolvent :
    (id : String) (old call : StoredCall) (s : Ledger)
    → IsSolvent s
    → lookup id s.calls ≡ some old
    → held call +ℤ old.max_price ≡ held old
    → pos 0 ≤ℤ call.max_price
    → IsSolvent (put_call id call (balance_of call.account s +ℤ old.max_price) s)
unfolding put_call
put_call-IsSolvent id old call s v found freed nonneg = record {
  conserved = omega (
    int_laws,
    parts v.conserved,
    parts (sum-balances call.account (balance_of call.account s +ℤ old.max_price) s),
    parts (sum-calls_found id old call s found),
    parts freed,
  );
  accounted = v.accounted;
  calls_distinct = insert-IsMap id call s.calls v.calls_distinct;
  balances_nonneg =
      Forall-insert _ call.account _ s.balances v.balances_nonneg
        (omega (int_laws, balance_nonneg call.account s v, v.holds_nonneg id old found));
  holds_nonneg = Forall-insert _ id call s.calls v.holds_nonneg nonneg;
  amounts_positive = v.amounts_positive;
}

-- A commit takes the charge out of the outstanding pool and gives back the rest of the hold.
pub commit_call-IsSolvent :
    (id : String) (call : StoredCall) (charged : ℤ) (s : Ledger)
    → IsSolvent s
    → lookup id s.calls ≡ some call
    → call.status ≡ reserved
    → charged ≤ℤ call.max_price
    → IsSolvent (commit_call id call charged s)
unfolding commit_call
commit_call-IsSolvent id call charged s v found live within = record {
  conserved = omega (
    int_laws,
    parts v.conserved,
    parts (sum-balances call.account (balance_of call.account s +ℤ (call.max_price -ℤ charged)) s),
    parts (sum-calls_found id call (committed_call call charged) s found),
    parts (held_reserved call live),
  );
  accounted = omega (int_laws, parts v.accounted);
  calls_distinct = insert-IsMap id (committed_call call charged) s.calls v.calls_distinct;
  balances_nonneg =
      Forall-insert _ call.account _ s.balances v.balances_nonneg
        (omega (int_laws, balance_nonneg call.account s v, v.holds_nonneg id call found));
  holds_nonneg =
      Forall-insert _ id (committed_call call charged) s.calls v.holds_nonneg
        (v.holds_nonneg id call found);
  amounts_positive = v.amounts_positive;
}

-- A reservation moves the hold from the balance to the new call.
pub hold-IsSolvent :
    (b : ReserveBody) (max_price : ℤ) (s : Ledger)
    → IsSolvent s
    → lookup b.call_id s.calls ≡ none
    → pos 0 ≤ℤ max_price
    → max_price ≤ℤ balance_of b.account s
    → IsSolvent (hold b max_price s)
unfolding hold
hold-IsSolvent b max_price s v fresh nonneg covered = record {
  conserved = omega (
    int_laws,
    parts v.conserved,
    parts (sum-balances b.account (balance_of b.account s -ℤ max_price) s),
    parts (sum-calls_fresh b.call_id (new_call b max_price) s fresh),
  );
  accounted = v.accounted;
  calls_distinct = insert-IsMap b.call_id (new_call b max_price) s.calls v.calls_distinct;
  balances_nonneg = Forall-insert _ b.account _ s.balances v.balances_nonneg (omega int_laws);
  holds_nonneg = Forall-insert _ b.call_id (new_call b max_price) s.calls v.holds_nonneg nonneg;
  amounts_positive = v.amounts_positive;
}
