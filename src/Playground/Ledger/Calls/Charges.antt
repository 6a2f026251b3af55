-- ===== src/Playground/Ledger/Calls/Charges.antt =====
-- What `settle` of src/playground/ledger-do.ts charges.
use rozo_mpprouter.Base.{
  or_else, [], ◌∷◌, String, ◌≡◌, refl, inl, inr, some, true, false, Option-cases, arith,
}
use rozo_mpprouter.Base.Int.{ℤ, pos, ◌+ℤ◌, ◌-ℤ◌, ◌≤ℤ◌, int_laws, parts}
use rozo_mpprouter.Base.Keys.{string_eq, ◌=?◌}
use rozo_mpprouter.Base.Dict.{lookup, lookup-insert_self, lookup-insert}
use rozo_mpprouter.Playground.Amount.{parse_atomic}
use rozo_mpprouter.Playground.Ledger.Types.{
  StoredCall, Ledger, balance_of, Reply, ok, err, throws, parse, roll_back,
}
use rozo_mpprouter.Playground.Ledger.Calls.{
  put_call, commit_call, is_reserved, released_call, committed_call, clamp_charge, settle,
  settle_reserved, SettleAction, commit, release, Settlement,
}
use rozo_mpprouter.Playground.Ledger.Invariant.{IsSolvent}
use rozo_mpprouter.Playground.Ledger.Calls.Handlers.{clamp_charge_le, clamp_charge_nonneg}

-- The accounts of one settlement: the charge lies between zero and the hold, the rest of the hold
-- is back on the balance, the pool loses the charge, and no other account moves.
pub record Settles (call : StoredCall) (s t : Ledger) (charged : ℤ) : Type 0 where
  pub nonneg : pos 0 ≤ℤ charged
  pub within_hold : charged ≤ℤ call.max_price
  pub refunded : balance_of call.account t +ℤ charged ≡ balance_of call.account s +ℤ call.max_price
  pub pool : t.outstanding +ℤ charged ≡ s.outstanding
  pub total : t.committed_total ≡ s.committed_total +ℤ charged
  pub others : (a : String) → (call.account =? a) ≡ false → balance_of a t ≡ balance_of a s

abbrev pub SettlesOk : StoredCall → Ledger → Reply Settlement × Ledger → Type 0
SettlesOk call s (ok r, t) = Settles call s t r.call.charged
SettlesOk call s (err c, t) = ⊥
SettlesOk call s (throws, t) = t ≡ s

put_call-balance :
    (id : String) (call : StoredCall) (n : ℤ) (s : Ledger)
    → balance_of call.account (put_call id call n s) ≡ n
unfolding put_call
put_call-balance id call n s = rw lookup-insert_self refl

put_call-others :
    (id : String) (call : StoredCall) (n : ℤ) (s : Ledger) (a : String)
    → (call.account =? a) ≡ false
    → balance_of a (put_call id call n s) ≡ balance_of a s
unfolding put_call
put_call-others id call n s a other = rw (lookup-insert call.account a n s.balances, other) refl

commit_call-Settles :
    (id : String) (call : StoredCall) (charged : ℤ) (s : Ledger)
    → pos 0 ≤ℤ charged
    → charged ≤ℤ call.max_price
    → Settles call s (commit_call id call charged s) charged
unfolding commit_call
commit_call-Settles id call charged s low high =
    let done = committed_call call charged in
    let rest = balance_of call.account s +ℤ (call.max_price -ℤ charged) in
    record {
      nonneg = low;
      within_hold = high;
      refunded = omega (int_laws, parts (put_call-balance id done rest s));
      pool = omega int_laws;
      total = refl;
      others = put_call-others id done rest s;
    }

settle_reserved-Settles :
    (id : String) (call : StoredCall) (action : SettleAction) (s : Ledger)
    → pos 0 ≤ℤ call.max_price
    → SettlesOk call s (roll_back s (settle_reserved id call action s))
unfolding settle_reserved
settle_reserved-Settles id call (release reason) s nonneg = record {
  nonneg = omega arith;
  within_hold = omega arith;
  refunded = rw (put_call-balance id (released_call call reason)) (omega int_laws);
  pool = omega int_laws;
  total = omega int_laws;
  others = put_call-others id (released_call call reason) _ s;
}
settle_reserved-Settles id call (commit text) s nonneg =
    elim (Option-cases (parse_atomic (or_else text (b'0' ∷ [])))) [
      | inl bad ↦ rw (bad, parse) refl
      | inr (n, e) ↦
          rw (e, parse)
            (commit_call-Settles id call (clamp_charge call.max_price n) s
              (clamp_charge_nonneg call.max_price n nonneg)
              (clamp_charge_le call.max_price n nonneg))
    ]

-- On a solvent ledger, a settlement of a reserved call, by either action and whatever charge the
-- caller names, charges between zero and the hold; the charge and the new balance make up the old
-- balance and the hold, the outstanding pool falls by the charge and the committed total rises by
-- it, and no other account's balance changes. No error is returned, and an exception leaves the
-- storage as it was.
pub settle-SettlesOk :
    (id : String) (action : SettleAction) (s : Ledger) {call : StoredCall}
    → IsSolvent s
    → lookup id s.calls ≡ some call
    → is_reserved call.status ≡ true
    → SettlesOk call s (settle id action s)
unfolding settle
settle-SettlesOk id action s {call} v found live =
    rw found (rw live (settle_reserved-Settles id call action s (v.holds_nonneg id call found)))
