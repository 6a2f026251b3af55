-- ===== src/Playground/Ledger/Totals.antt =====
-- `totals` of src/playground/ledger-do.ts: the figures of the reconciliation script, computed again
-- from the rows.
use rozo_mpprouter.Base.{
  ℕ, suc, String, ◌≡◌, ◌&&◌, Option, none, some, List, [], ◌∷◌, if◌then◌else◌,
}
use rozo_mpprouter.Base.Int.{ℤ, pos, ◌+ℤ◌, int_laws, parts}
use rozo_mpprouter.Base.Keys.{string_eq}
use rozo_mpprouter.Base.Dict.{Dict, lookup, sum_by}
use rozo_mpprouter.Playground.Ledger.Types.{StoredIntent, StoredCall, Ledger}
use rozo_mpprouter.Playground.Ledger.Calls.{is_reserved, is_released}
use rozo_mpprouter.Playground.Ledger.Invariant.{IsSolvent, held, share}

pub record ConsumedDeposit : Type 0 where
  pub tx_hash : String
  pub op_index : ℕ
  pub intent_id : String
  pub account : Option String
  pub amount : Option ℤ
  pub memo : Option String

pub record Totals : Type 0 where
  pub credited : ℤ
  pub committed : ℤ
  pub outstanding : ℤ
  pub balances_sum : ℤ
  pub holds_sum : ℤ
  pub reaped_released_count : ℕ
  pub reaped_release_possible_paid_count : ℕ
  pub consumed_deposits : List ConsumedDeposit

-- `for (const v of balances.values()) balancesSum += parseAtomic(v)`
unfoldable pub add_balances : ℤ → Dict String ℤ → ℤ
add_balances acc [] = acc
add_balances acc ((a, n) ∷ rows) = add_balances (acc +ℤ n) rows

pub record CallTally : Type 0 where
  pub holds : ℤ
  pub reaped_count : ℕ
  pub possible_paid : ℕ

-- One round of the loop over the calls.
abbrev pub tally_call : CallTally → StoredCall → CallTally
tally_call t c =
    let was_reaped = c.reaped && is_released c.status in
    record {
      holds = if is_reserved c.status then t.holds +ℤ c.max_price else t.holds;
      reaped_count = if was_reaped then suc t.reaped_count else t.reaped_count;
      possible_paid =
          if was_reaped && c.reaped_release_possible_paid
          then suc t.possible_paid
          else t.possible_paid;
    }

unfoldable pub tally_calls : CallTally → Dict String StoredCall → CallTally
tally_calls t [] = t
tally_calls t ((id, c) ∷ rows) = tally_calls (tally_call t c) rows

abbrev pub of_intent {ℓ} : {A : Type ℓ} → (StoredIntent → A) → Option StoredIntent → Option A
of_intent f none = none
of_intent f (some i) = some (f i)

unfoldable pub consumed_rows : Dict (String × ℕ) String → Ledger → List ConsumedDeposit
consumed_rows [] s = []
consumed_rows (((tx, op), id) ∷ rows) s =
    let intent = lookup id s.intents in
    record {
      tx_hash = tx;
      op_index = op;
      intent_id = id;
      account = of_intent (λ i. i.account) intent;
      amount = of_intent (λ i. i.amount) intent;
      memo = of_intent (λ i. i.memo) intent;
    }
    ∷ consumed_rows rows s

unfoldable pub totals : Ledger → Totals
unfolding add_balances tally_calls consumed_rows
totals s =
    let t = tally_calls (record { holds = pos 0; reaped_count = 0; possible_paid = 0 }) s.calls in
    record {
      credited = s.credited;
      committed = s.committed_total;
      outstanding = s.outstanding;
      balances_sum = add_balances (pos 0) s.balances;
      holds_sum = t.holds;
      reaped_released_count = t.reaped_count;
      reaped_release_possible_paid_count = t.possible_paid;
      consumed_deposits = consumed_rows s.consumed_by s;
    }

add_balances-sum :
    (acc : ℤ) (rows : Dict String ℤ) → add_balances acc rows ≡ acc +ℤ sum_by share rows
unfolding add_balances
add_balances-sum acc [] = omega int_laws
add_balances-sum acc ((a, n) ∷ rows) = omega (int_laws, parts (add_balances-sum (acc +ℤ n) rows))

tally_call-holds : (t : CallTally) (c : StoredCall) → (tally_call t c).holds ≡ t.holds +ℤ held c
tally_call-holds t c = grind int_laws

tally_calls-sum :
    (t : CallTally) (rows : Dict String StoredCall)
    → (tally_calls t rows).holds ≡ t.holds +ℤ sum_by held rows
unfolding tally_calls
tally_calls-sum t [] = omega int_laws
tally_calls-sum t ((id, c) ∷ rows) =
    omega (int_laws, parts (tally_calls-sum (tally_call t c) rows), parts (tally_call-holds t c))

-- On a solvent ledger the recomputed sums meet the running counters: what was credited is what
-- stands in balances, in holds and in committed charges.
pub totals_reconcile :
    (s : Ledger)
    → IsSolvent s
    → let t = totals s in
      (t.outstanding ≡ t.balances_sum +ℤ t.holds_sum)
      × (t.credited ≡ t.balances_sum +ℤ t.holds_sum +ℤ t.committed)
unfolding totals
totals_reconcile s v =
    let b = add_balances-sum (pos 0) s.balances in
    let h =
      tally_calls-sum (record { holds = pos 0; reaped_count = 0; possible_paid = 0 }) s.calls in
    (
      omega (int_laws, parts v.conserved, parts b, parts h),
      omega (int_laws, parts v.conserved, parts v.accounted, parts b, parts h),
    )
