-- ===== src/Playground/Ledger/Reaper/Effects.antt =====
-- What `alarm` of src/playground/ledger-do.ts does to each call, and when it wakes again.
use text.Mathlib.TextEquality.{eq_iff}
use rozo_mpprouter.Base.{
  ℕ, not, String, ◌≡◌, refl, inl, inr, none, true, false, ◌&&◌, arith, Bool, [], ◌∷◌, if◌then◌else◌,
  Bool-cases, subst, ◌∙◌, some, leb, ◌+◌, ◌||◌,
}
use rozo_mpprouter.Base.Keys.{string_eq, ◌=?◌}
use rozo_mpprouter.Base.Dict.{Dict, lookup, IsMap, lookup-insert, lookup-insert_self}
use rozo_mpprouter.Playground.Ledger.Types.{StoredCall, Ledger, released, reserved_lease_ms}
use rozo_mpprouter.Base.Int.{pos}
use rozo_mpprouter.Playground.Ledger.Calls.{is_reserved, put_call}
use rozo_mpprouter.Playground.Ledger.Reaper.{reap, reap_all, reaped_call, is_stale, alarm}
use rozo_mpprouter.Playground.Ledger.Reaper.Solvency.{Listed, Listed-self, reap_if, reap_if-Listed}
use rozo_mpprouter.Playground.Ledger.Invariant.{IsSolvent}

abbrev stranded : ℕ → StoredCall → Bool
stranded now call = is_reserved call.status && is_stale now call

abbrev waiting : ℕ → StoredCall → Bool
waiting now call = is_reserved call.status && not (is_stale now call)

-- What one run makes of a call's row: stranded calls are released, the others stay.
abbrev pub after_reap : ℕ → StoredCall → StoredCall
after_reap now call =
    if is_reserved call.status && is_stale now call then reaped_call call else call

reap_if-other :
    (stale : Bool) (id j : String) (call : StoredCall) (s : Ledger)
    → (id =? j) ≡ false
    → lookup j (reap_if stale id call s).calls ≡ lookup j s.calls
unfolding reap put_call
reap_if-other true id j call s other = rw (lookup-insert, other) refl
reap_if-other false id j call s other = refl

reap_if_self :
    (now : ℕ) (id : String) (call : StoredCall) (s : Ledger)
    → lookup id s.calls ≡ some call
    → lookup id (reap_if (is_reserved call.status && is_stale now call) id call s).calls
      ≡ some (after_reap now call)
unfolding reap put_call
reap_if_self now id call s found =
    elim (Bool-cases (is_reserved call.status && is_stale now call)) [
      | inl stale ↦ rw stale (lookup-insert_self id (reaped_call call) s.calls)
      | inr fresh ↦ rw fresh found
    ]

reap_all-missing :
    (now : ℕ) (id : String) (rows : Dict String StoredCall) (n : ℕ) (s : Ledger)
    → lookup id rows ≡ none
    → lookup id (reap_all now rows n s).1.calls ≡ lookup id s.calls
unfolding reap_all lookup
reap_all-missing now id [] n s h = refl
reap_all-missing now id ((j, w) ∷ rows) n s h = elim (Bool-cases (j =? id)) [
  | inl same ↦ absurd (found_in_head same h)
  | inr other ↦
      reap_all-missing now id rows _ _ (rw other at h)
      ∙ reap_if-other (is_reserved w.status && is_stale now w) j id w s other
]
  where
    found_in_head : (j =? id) ≡ true → lookup id ((j, w) ∷ rows) ≡ none → ⊥
    found_in_head same e = ground arith

reap_all-lookup :
    (now : ℕ) (id : String) (rows : Dict String StoredCall) (n : ℕ) (s : Ledger) (call : StoredCall)
    → IsMap rows
    → Listed rows s.calls
    → lookup id rows ≡ some call
    → lookup id (reap_all now rows n s).1.calls ≡ some (after_reap now call)
unfolding reap_all lookup
reap_all-lookup now id [] n s call m l h = cc
reap_all-lookup now id ((j, w) ∷ rows) n s call m l h = elim (Bool-cases (j =? id)) [
  | inl same ↦
      let e : j ≡ id = (eq_iff j id).0 same in
      let is_w : w ≡ call = cc (rw same at h) in
      subst (λ c. lookup id (reap_all now ((j, w) ∷ rows) n s).1.calls ≡ some (after_reap now c))
        is_w
        (subst (λ k. lookup k (reap_all now ((j, w) ∷ rows) n s).1.calls ≡ some (after_reap now w))
          e (reap_all-missing now j rows _ _ m.0 ∙ reap_if_self now j w s l.0))
  | inr other ↦
      let stale = is_reserved w.status && is_stale now w in
      reap_all-lookup now id rows _ (reap_if stale j w s) call m.1
        (reap_if-Listed stale j w rows s m.0 l.1) (rw other at h)
]

-- A row behind the run, told field by field: a call that was reserved past its lease is released,
-- its hold is not charged, and it is marked with what its dispatch makes of it; nothing else of it
-- changes, and any other row is unchanged.
abbrev pub Reaped : ℕ → StoredCall → StoredCall → Type 0
Reaped now before after =
    if is_reserved before.status && leb (before.at + reserved_lease_ms) now
    then (after.status ≡ released)
      × (after.charged ≡ pos 0)
      × (after.reaped ≡ true)
      × (after.release_reason
          ≡ some (if before.dispatched then "reaped_dispatched" else "reaped_never_dispatched"))
      × (after.reaped_release_possible_paid
          ≡ (before.dispatched || before.reaped_release_possible_paid))
      × (after.account ≡ before.account)
      × (after.max_price ≡ before.max_price)
      × (after.dispatched ≡ before.dispatched)
      × (after.at ≡ before.at)
    else after ≡ before

after_reap-Reaped : (now : ℕ) (call : StoredCall) → Reaped now call (after_reap now call)
after_reap-Reaped now call =
    elim (Bool-cases (is_reserved call.status && leb (call.at + reserved_lease_ms) now)) [
      | inl stranded_now ↦
          let stale : (is_reserved call.status && is_stale now call) ≡ true =
            ground (arith, stranded_now) in
          rw (stranded_now, stale) (refl, refl, refl, refl, paid call, refl, refl, refl, refl)
      | inr other ↦
          let kept : (is_reserved call.status && is_stale now call) ≡ false =
            ground (arith, other) in
          rw (other, kept) refl
    ]
  where
    paid :
        (c : StoredCall)
        → (if c.dispatched then true else c.reaped_release_possible_paid)
          ≡ (c.dispatched || c.reaped_release_possible_paid)
    paid c = ground arith

-- On a solvent ledger the reaper turns the row of every stored call into this: a call that is
-- reserved and whose lease has run out is released, charged nothing, keeps its account, its hold and
-- its instant, and is marked as reaped, with whether it may have been paid; any other row is
-- unchanged.
pub alarm-lookup :
    (now : ℕ) (s : Ledger) (id : String) {call : StoredCall}
    → IsSolvent s
    → lookup id s.calls ≡ some call
    → (after : StoredCall) × (lookup id (alarm now s).calls ≡ some after) × Reaped now call after
unfolding alarm
alarm-lookup now s id {call} v found = (
  after_reap now call,
  reap_all-lookup now id s.calls 0 (record s { alarm_at = none }) call v.calls_distinct
      (Listed-self s.calls v.calls_distinct) found,
  after_reap-Reaped now call,
)
