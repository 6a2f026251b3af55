-- ===== src/Playground/Ledger/Reaper/Solvency.antt =====
-- `alarm` of src/playground/ledger-do.ts: the reaper keeps the ledger solvent, releases what is
-- stale, and charges nobody.
use rozo_mpprouter.Base.{
  ℕ, suc, not, String, ◌≡◌, refl, none, some, true, false, ◌&&◌, arith, Bool, [], ◌∷◌,
  if◌then◌else◌, All,
}
use rozo_mpprouter.Base.Keys.{string_eq, beq_refl}
use rozo_mpprouter.Playground.Ledger.Calls.Frame.{SameDeposits}
use rozo_mpprouter.Base.Dict.{Dict, lookup, insert, IsMap, lookup-insert}
use text.Mathlib.TextEquality.{eq_iff}
use rozo_mpprouter.Playground.Ledger.Types.{StoredCall, reserved, Ledger}
use rozo_mpprouter.Playground.Ledger.Calls.{is_reserved, put_call}
use rozo_mpprouter.Playground.Ledger.Reaper.{reap, reap_all, reaped_call, is_stale, alarm}
use rozo_mpprouter.Playground.Ledger.Invariant.{IsSolvent}
use rozo_mpprouter.Playground.Ledger.Calls.Solvency.{put_call-IsSolvent, held_reserved, zero_held}

pub reap-IsSolvent :
    (id : String) (call : StoredCall) (s : Ledger)
    → IsSolvent s
    → lookup id s.calls ≡ some call
    → call.status ≡ reserved
    → IsSolvent (reap id call s)
unfolding reap
reap-IsSolvent id call s v found live =
    put_call-IsSolvent id call (reaped_call call) s v found
      (zero_held call (held_reserved call live)) (v.holds_nonneg id call found)

-- The rows of the listing that are still to come stand in the storage as they were listed.
abbrev pub Listed : Dict String StoredCall → Dict String StoredCall → Type 0
Listed rows calls = All (λ (row : String × StoredCall). lookup row.0 calls ≡ some row.1) rows

Listed-insert :
    (id : String) (call : StoredCall) (rows calls : Dict String StoredCall)
    → lookup id rows ≡ none
    → Listed rows calls
    → Listed rows (insert id call calls)
unfolding lookup
Listed-insert id call [] calls fresh h = tt
Listed-insert id call ((j, w) ∷ rows) calls fresh h = (
  ground (arith, lookup-insert id j call calls, eq_iff id j, eq_iff j id, h.0),
  Listed-insert id call rows calls (ground (arith, eq_iff j id)) h.1,
)

Listed-weaken :
    (j : String) (w : StoredCall) (rows calls : Dict String StoredCall)
    → lookup j rows ≡ none
    → Listed rows calls
    → Listed rows ((j, w) ∷ calls)
unfolding lookup
Listed-weaken j w [] calls fresh h = tt
Listed-weaken j w ((i, u) ∷ rows) calls fresh h = (
  ground (arith, eq_iff i j, eq_iff j i, h.0),
  Listed-weaken j w rows calls (ground (arith, eq_iff i j)) h.1,
)

pub Listed-self : (calls : Dict String StoredCall) → IsMap calls → Listed calls calls
unfolding lookup
Listed-self [] m = tt
Listed-self ((j, w) ∷ calls) m =
    (rw (beq_refl j) refl, Listed-weaken j w calls calls m.0 (Listed-self calls m.1))

-- One round of the loop.
abbrev pub reap_if : Bool → String → StoredCall → Ledger → Ledger
reap_if stale id call s = if stale then reap id call s else s

reap_if-IsSolvent :
    (stale : Bool) (id : String) (call : StoredCall) (s : Ledger)
    → (stale ≡ true → call.status ≡ reserved)
    → lookup id s.calls ≡ some call
    → IsSolvent s
    → IsSolvent (reap_if stale id call s)
reap_if-IsSolvent true id call s live found v = reap-IsSolvent id call s v found (live refl)
reap_if-IsSolvent false id call s live found v = v

pub reap_if-Listed :
    (stale : Bool) (id : String) (call : StoredCall) (rows : Dict String StoredCall) (s : Ledger)
    → lookup id rows ≡ none
    → Listed rows s.calls
    → Listed rows (reap_if stale id call s).calls
unfolding reap put_call
reap_if-Listed true id call rows s fresh h =
    Listed-insert id (reaped_call call) rows s.calls fresh h
reap_if-Listed false id call rows s fresh h = h

stale_reserved :
    (now : ℕ) (call : StoredCall)
    → (is_reserved call.status && is_stale now call) ≡ true
    → call.status ≡ reserved
stale_reserved now call h = ground arith

reap_all-IsSolvent :
    (now : ℕ) (rows : Dict String StoredCall) (n : ℕ) (s : Ledger)
    → IsMap rows
    → Listed rows s.calls
    → IsSolvent s
    → IsSolvent (reap_all now rows n s).1
unfolding reap_all
reap_all-IsSolvent now [] n s m h v = v
reap_all-IsSolvent now ((id, call) ∷ rows) n s m h v =
    let stale = is_reserved call.status && is_stale now call in
    reap_all-IsSolvent now rows _ (reap_if stale id call s) m.1
      (reap_if-Listed stale id call rows s m.0 h.1)
      (reap_if-IsSolvent stale id call s (stale_reserved now call) h.0 v)

pub alarm-IsSolvent : (now : ℕ) (s : Ledger) → IsSolvent s → IsSolvent (alarm now s)
unfolding alarm
alarm-IsSolvent now s v =
    let unset = record s { alarm_at = none } in
    let v' : IsSolvent unset = record {
      conserved = v.conserved;
      accounted = v.accounted;
      calls_distinct = v.calls_distinct;
      balances_nonneg = v.balances_nonneg;
      holds_nonneg = v.holds_nonneg;
      amounts_positive = v.amounts_positive;
    } in
    let w =
      reap_all-IsSolvent now s.calls 0 unset v.calls_distinct (Listed-self s.calls v.calls_distinct)
        v' in
    record {
      conserved = w.conserved;
      accounted = w.accounted;
      calls_distinct = w.calls_distinct;
      balances_nonneg = w.balances_nonneg;
      holds_nonneg = w.holds_nonneg;
      amounts_positive = w.amounts_positive;
    }

-- The reaper leaves the rows of the deposits alone.
reap_all-SameDeposits :
    (now : ℕ) (rows : Dict String StoredCall) (n : ℕ) (s : Ledger)
    → ((reap_all now rows n s).1.intents ≡ s.intents)
      × ((reap_all now rows n s).1.consumed_by ≡ s.consumed_by)
unfolding reap_all reap put_call
reap_all-SameDeposits now [] n s = (refl, refl)
reap_all-SameDeposits now ((id, call) ∷ rows) n s =
    let stale = is_reserved call.status && is_stale now call in
    let waits = is_reserved call.status && not (is_stale now call) in
    let (a, c) =
      reap_all-SameDeposits now rows (if waits then suc n else n) (reap_if stale id call s) in
    (ground (arith, a), ground (arith, c))

pub alarm-SameDeposits : (now : ℕ) (s : Ledger) → SameDeposits s (alarm now s)
unfolding alarm
alarm-SameDeposits now s =
    let same = reap_all-SameDeposits now s.calls 0 (record s { alarm_at = none }) in
    record { intents = same.0; consumed_by = same.1 }
