-- ===== src/Playground/Ledger/Calls/Idempotence.antt =====
-- `settle` and `reserve` of src/playground/ledger-do.ts under retry.
use rozo_mpprouter.Base.{
  ℕ, or_else, [], ◌∷◌, String, ◌≡◌, refl, subst, inl, inr, some, true, false, arith, Option-cases,
  Bool-cases,
}
use rozo_mpprouter.Base.Int.{ℤ, pos, ltb_ℤ}
use rozo_mpprouter.Base.Keys.{string_eq}
use rozo_mpprouter.Base.Dict.{lookup, lookup-insert_self}
use rozo_mpprouter.Playground.Amount.{parse_atomic}
use rozo_mpprouter.Playground.Ledger.Types.{
  StoredCall, Ledger, balance_of, Reply, ok, err, throws, parse, roll_back, fail_if,
}
use rozo_mpprouter.Playground.Ledger.Calls.{
  ReserveBody, ReserveOutcome, hold, is_reserved, released_call, committed_call, clamp_charge,
  reserve, reserve_fresh, new_call, reserve_in_txn, arm_if_held, settle, settle_reserved,
  SettleAction, commit, release, Settlement,
}

-- What a settled call leaves behind: its row, no longer reserved.
abbrev Recorded : String → Reply Settlement × Ledger → Type 0
Recorded id (ok r, t) = (lookup id t.calls ≡ some r.call) × (is_reserved r.call.status ≡ false)
Recorded id (err c, t) = Unit
Recorded id (throws, t) = Unit

Recorded-roll_back :
    (id : String) (s : Ledger) (p : Reply Settlement × Ledger)
    → Recorded id p
    → Recorded id (roll_back s p)
Recorded-roll_back id s (ok r, t) h = h
Recorded-roll_back id s (err c, t) h = h
Recorded-roll_back id s (throws, t) h = h

settle_reserved-Recorded :
    (id : String) (call : StoredCall) (action : SettleAction) (s : Ledger)
    → Recorded id (settle_reserved id call action s)
unfolding settle_reserved
settle_reserved-Recorded id call (release reason) s =
    (lookup-insert_self id (released_call call reason) s.calls, refl)
settle_reserved-Recorded id call (commit text) s =
    elim (Option-cases (parse_atomic (or_else text (b'0' ∷ [])))) [
      | inl bad ↦ rw (bad, parse) tt
      | inr (n, e) ↦
          rw (e, parse)
            (
              lookup-insert_self id (committed_call call (clamp_charge call.max_price n)) s.calls,
              refl,
            )
    ]

settle-Recorded :
    (id : String) (action : SettleAction) (s : Ledger) → Recorded id (settle id action s)
unfolding settle
settle-Recorded id action s = elim (Option-cases (lookup id s.calls)) [
  | inl missing ↦ rw missing tt
  | inr (call, e) ↦ rw e (elim (Bool-cases (is_reserved call.status)) [
    | inl live ↦ rw live (
        Recorded-roll_back id s (settle_reserved id call action s)
          (settle_reserved-Recorded id call action s))
    | inr other ↦ rw other (e, other)
  ])
]

-- A second settlement of a call, by either action, reports the recorded outcome and writes nothing.
pub settle_again :
    (id : String) (first second : SettleAction) (s : Ledger) {r : Settlement} {t : Ledger}
    → settle id first s ≡ (ok r, t)
    → settle id second t ≡ (
      ok (record { call = r.call; balance = balance_of r.call.account t; already_settled = true }),
      t,
    )
unfolding settle
settle_again id first second s {r} {t} h =
    let (row, done) = subst (Recorded id) h (settle-Recorded id first s) in rw (row, done) refl

-- What a granted reservation leaves behind: the row of its call.
abbrev Granted : String → Reply ReserveOutcome × Ledger → Type 0
Granted id (ok r, t) =
    r.ok_flag ≡ true → (c : StoredCall) × (r.call ≡ some c) × (lookup id t.calls ≡ some c)
Granted id (err c, t) = Unit
Granted id (throws, t) = Unit

reserve_fresh-Granted :
    (b : ReserveBody) (n : ℤ) (s : Ledger) → Granted b.call_id (reserve_fresh b n s)
unfolding reserve_fresh hold
reserve_fresh-Granted b n s = elim (Bool-cases (ltb_ℤ (balance_of b.account s) n)) [
  | inl short ↦ rw short (λ h. cc)
  | inr enough ↦
      rw enough (λ h. (new_call b n, refl, lookup-insert_self b.call_id (new_call b n) s.calls))
]

reserve_in_txn-Granted :
    (b : ReserveBody) (n : ℤ) (s : Ledger) → Granted b.call_id (reserve_in_txn b n s)
reserve_in_txn-Granted b n s = elim (Option-cases (lookup b.call_id s.calls)) [
  | inl fresh ↦ rw (fresh, reserve_in_txn) (reserve_fresh-Granted b n s)
  | inr (call, e) ↦ rw (e, reserve_in_txn) (λ h. (call, refl, e))
]

arm_if_held-Granted :
    (id : String) (now : ℕ) (s : Ledger) (p : Reply ReserveOutcome × Ledger)
    → Granted id p
    → Granted id (arm_if_held now (roll_back s p))
arm_if_held-Granted id now s (ok r, t) g =
    λ fine. let (c, recorded, row) = g fine in (c, recorded, ground arith)
arm_if_held-Granted id now s (err c, t) g = tt
arm_if_held-Granted id now s (throws, t) g = tt

-- A readable price that is not negative.
record PriceOk (b : ReserveBody) : Type 0 where
  price : ℤ
  is_read : parse_atomic b.max_price ≡ some price
  nonneg : ltb_ℤ price (pos 0) ≡ false

reserve_known :
    (b : ReserveBody) (t : Ledger) (c : StoredCall)
    → PriceOk b
    → lookup b.call_id t.calls ≡ some c
    → reserve b t ≡ (
      ok (record {
        ok_flag = true;
        call = some c;
        balance = balance_of c.account t;
        duplicate = true;
      }),
      t,
    )
unfolding reserve
reserve_known b t c p found =
    rw (p.is_read, parse) (rw (p.nonneg, fail_if) (rw (found, reserve_in_txn) refl))

abbrev IfOk : Reply ReserveOutcome → Type 0 → Type 0
IfOk (ok r) P = P
IfOk (err c) P = Unit
IfOk throws P = Unit

IfOk-intro : {P : Type 0} (r : Reply ReserveOutcome) → P → IfOk r P
IfOk-intro (ok r) h = h
IfOk-intro (err c) h = tt
IfOk-intro throws h = tt

reserve-Granted :
    (b : ReserveBody) (s : Ledger)
    → Granted b.call_id (reserve b s) × IfOk (reserve b s).0 (PriceOk b)
unfolding reserve
reserve-Granted b s = elim (Option-cases (parse_atomic b.max_price)) [
  | inl bad ↦ rw (bad, parse) (tt, tt)
  | inr (n, e) ↦
      rw (e, parse)
        (elim (Bool-cases (ltb_ℤ n (pos 0))) [
          | inl negative ↦ rw (negative, fail_if) (tt, tt)
          | inr fine ↦
              rw (fine, fail_if)
                (
                  arm_if_held-Granted b.call_id b.now s (reserve_in_txn b n s)
                      (reserve_in_txn-Granted b n s),
                  IfOk-intro {P = PriceOk b} _ (record { price = n; is_read = e; nonneg = fine }),
                )
        ])
]

-- A reservation that is repeated reports the recorded call and writes nothing.
pub reserve_again :
    (b : ReserveBody) (s : Ledger) {r : ReserveOutcome} {t : Ledger}
    → reserve b s ≡ (ok r, t)
    → r.ok_flag ≡ true
    → (c : StoredCall) × (r.call ≡ some c)
      × (reserve b t ≡ (
        ok (record {
          ok_flag = true;
          call = some c;
          balance = balance_of c.account t;
          duplicate = true;
        }),
        t,
      ))
reserve_again b s {r} {t} h fine =
    let both = reserve-Granted b s in
    let (c, recorded, row) = subst (Granted b.call_id) h both.0 fine in
    let price = subst (λ p. IfOk p.0 (PriceOk b)) h both.1 in
    (c, recorded, reserve_known b t c price row)
