-- ===== src/Coupon/Reserve.antt =====
-- The reservation of the payer's funds in src/routes/coupon.ts. A reservation is its amount and its
-- instant, under the id of the attempt.
use rozo_mpprouter.Base.{
  ℕ, ◌-◌, String, ◌≡◌, refl, inl, inr, Bool, true, false, Option, some, [], ◌∷◌, arith, Bool-cases,
  is_some, ltb, leb, ap, sym, ◌∙◌, or_else, if◌then◌else◌,
}
use rozo_mpprouter.Base.Int.{ℤ, pos, ◌+ℤ◌, ◌-ℤ◌, ◌≤ℤ◌, ltb_ℤ, int_laws, parts, -ℤ_parts, +ℤ_parts}
use rozo_mpprouter.Base.Keys.{◌=?◌, string_eq}
use rozo_mpprouter.Base.Dict.{
  Dict, lookup, insert, remove, lookup-insert_self, lookup-insert_ne, sum_by, sum_by-insert,
  measure,
}
use rozo_mpprouter.AtomicStore.{set, delete}
use rozo_mpprouter.AtomicStore.Client.{Change, noop, change}

abbrev pub reserve_lease_ms : ℕ
reserve_lease_ms = 600000

pub record Reservation : Type 0 where
  pub amt : ℤ
  pub made_at : ℕ

abbrev pub ReserveState : Type 0
ReserveState = Dict String Reservation

-- `parseReserve`
abbrev pub parse_reserve : Option ReserveState → ReserveState
parse_reserve o = or_else o []

-- The leases that have not run out.
unfoldable pub live_reservations : ℕ → ReserveState → ReserveState
live_reservations now [] = []
live_reservations now ((k, v) ∷ st) =
    let rest = live_reservations now st in
    if ltb reserve_lease_ms (now - v.made_at) then rest else (k, v) ∷ rest

abbrev pub reserved_amount : Reservation → ℤ
reserved_amount v = v.amt

abbrev pub coupon_reserved : ReserveState → ℤ
coupon_reserved st = sum_by reserved_amount st

-- The transform of `tryReserveFunds`.
unfoldable pub try_reserve_funds :
    ℕ → String → ℤ → ℤ → Option ReserveState → Change ReserveState Bool
try_reserve_funds now attempt_id invoice balance raw =
    let live = live_reservations now (parse_reserve raw) in
    if ltb_ℤ (balance -ℤ coupon_reserved live) invoice
    then noop false
    else change (set (insert attempt_id (record { amt = invoice; made_at = now }) live)) true

-- The transform of `releaseFunds`.
unfoldable pub release_funds : String → Option ReserveState → Change ReserveState (Unit {0})
release_funds attempt_id raw =
    if is_some (lookup attempt_id (parse_reserve raw))
    then change (set (remove attempt_id (parse_reserve raw))) tt
    else noop tt

-- No reservation is below zero.
abbrev pub NonNeg : ReserveState → Type 0
NonNeg [] = Unit
NonNeg ((k, v) ∷ st) = (pos 0 ≤ℤ v.amt) × NonNeg st

live_reservations-NonNeg :
    (now : ℕ) (st : ReserveState) → NonNeg st → NonNeg (live_reservations now st)
unfolding live_reservations
live_reservations-NonNeg now [] h = tt
live_reservations-NonNeg now ((k, v) ∷ st) h =
    elim (Bool-cases (ltb reserve_lease_ms (now - v.made_at))) [
      | inl old ↦ rw (old, live_reservations) (live_reservations-NonNeg now st h.1)
      | inr live ↦ rw (live, live_reservations) (h.0, live_reservations-NonNeg now st h.1)
    ]

insert-NonNeg :
    (k : String) (v : Reservation) (st : ReserveState)
    → pos 0 ≤ℤ v.amt
    → NonNeg st
    → NonNeg (insert k v st)
unfolding insert
insert-NonNeg k v [] nonneg h = (nonneg, tt)
insert-NonNeg k v ((j, w) ∷ st) nonneg h = elim (Bool-cases (j =? k)) [
  | inl same ↦ rw same (nonneg, h.1)
  | inr other ↦ rw other (h.0, insert-NonNeg k v st nonneg h.1)
]

measure-NonNeg :
    (k : String) (st : ReserveState) → NonNeg st → pos 0 ≤ℤ measure reserved_amount (lookup k st)
unfolding lookup
measure-NonNeg k [] h = omega arith
measure-NonNeg k ((j, w) ∷ st) h = elim (Bool-cases (j =? k)) [
  | inl same ↦ rw same h.0
  | inr other ↦ rw other (measure-NonNeg k st h.1)
]

exceeds : (b r i : ℤ) → ltb_ℤ (b -ℤ r) i ≡ true → ltb_ℤ b (r +ℤ i) ≡ true
exceeds b r i h = ground (arith, h, -ℤ_parts b r, +ℤ_parts r i)

covers : (a b : ℤ) → ltb_ℤ a b ≡ false → b ≤ℤ a
covers a b h = ground (arith, h)

-- The sum after a write, where the old value was not below zero.
fits : (b r i s o : ℤ) → ltb_ℤ (b -ℤ r) i ≡ false → s +ℤ o ≡ r +ℤ i → pos 0 ≤ℤ o → s ≤ℤ b
fits b r i s o enough total nonneg = omega (int_laws, parts total, covers (b -ℤ r) i enough, nonneg)

-- What a reservation takes of the balance: its amount, unless its lease has run out.
abbrev pub live_amount : ℕ → Reservation → ℤ
live_amount now v = if leb (now - v.made_at) reserve_lease_ms then v.amt else pos 0

zero_left : (a : ℤ) → a ≡ pos 0 +ℤ a
zero_left a = omega int_laws

live_reservations-total :
    (now : ℕ) (st : ReserveState)
    → coupon_reserved (live_reservations now st) ≡ sum_by (live_amount now) st
unfolding live_reservations
live_reservations-total now [] = refl
live_reservations-total now ((k, v) ∷ st) =
    elim (Bool-cases (ltb reserve_lease_ms (now - v.made_at))) [
      | inl old ↦
          let past : leb (now - v.made_at) reserve_lease_ms ≡ false = ground (arith, old) in
          rw (old, past) (live_reservations-total now st ∙ zero_left (sum_by (live_amount now) st))
      | inr live ↦
          let within : leb (now - v.made_at) reserve_lease_ms ≡ true = ground (arith, live) in
          rw (live, within) (ap (λ n. v.amt +ℤ n) (live_reservations-total now st))
    ]

live_reservations-lookup :
    (now : ℕ) (j : String) (v : Reservation) (st : ReserveState)
    → leb (now - v.made_at) reserve_lease_ms ≡ true
    → lookup j st ≡ some v
    → lookup j (live_reservations now st) ≡ some v
unfolding live_reservations lookup
live_reservations-lookup now j v [] within h = h
live_reservations-lookup now j v ((k, u) ∷ st) within h = elim (Bool-cases (k =? j)) [
  | inl same ↦
      let first : u ≡ v = cc (rw same at h) in
      let fresh : leb (now - u.made_at) reserve_lease_ms ≡ true = rw first within in
      let live : ltb reserve_lease_ms (now - u.made_at) ≡ false = ground (arith, fresh) in
      rw (live, same) (ap (λ w. some w) first)
  | inr other ↦
      let rest = live_reservations-lookup now j v st within (rw other at h) in
      elim (Bool-cases (ltb reserve_lease_ms (now - u.made_at))) [
        | inl old ↦ rw old rest
        | inr live ↦ rw (live, other) rest
      ]
]

-- What an answer means: a reservation is made, every other one whose lease has not run out still
-- stands, and all that stand fit the balance together; or this one does not fit beside the live
-- ones, and nothing is written.
abbrev pub Reserves : ℕ → String → ℤ → ℤ → ReserveState → Change ReserveState Bool → Type 0
Reserves now attempt_id invoice balance st (noop granted) =
    (granted ≡ false) × (ltb_ℤ balance (sum_by (live_amount now) st +ℤ invoice) ≡ true)
Reserves now attempt_id invoice balance st (change (set t) granted) =
    (granted ≡ true)
    × (coupon_reserved t ≤ℤ balance)
    × (lookup attempt_id t ≡ some (record { amt = invoice; made_at = now }))
    × ((j : String) (v : Reservation)
        → (attempt_id =? j) ≡ false
        → leb (now - v.made_at) reserve_lease_ms ≡ true
        → lookup j st ≡ some v
        → lookup j t ≡ some v)
    × NonNeg t
Reserves now attempt_id invoice balance st (change delete granted) = ⊥

-- Where no reservation and no invoice is below zero: a granted reservation is recorded, every other
-- one whose lease has not run out is kept, and all that are recorded then are together at most the
-- balance; a refused one would exceed the balance together with those whose lease has not run out,
-- and writes nothing.
pub try_reserve_funds-Reserves :
    (now : ℕ) (attempt_id : String) (invoice balance : ℤ) (raw : Option ReserveState)
    → NonNeg (parse_reserve raw)
    → pos 0 ≤ℤ invoice
    → Reserves now attempt_id invoice balance
        (parse_reserve raw)
        (try_reserve_funds now attempt_id invoice balance raw)
unfolding try_reserve_funds
try_reserve_funds-Reserves now attempt_id invoice balance raw nonneg payable =
    let live = live_reservations now (parse_reserve raw) in
    let kept = live_reservations-NonNeg now (parse_reserve raw) nonneg in
    let entry : Reservation = record { amt = invoice; made_at = now } in
    let old = measure-NonNeg attempt_id live kept in
    let sum = sum_by-insert reserved_amount attempt_id entry live in
    elim (Bool-cases (ltb_ℤ (balance -ℤ coupon_reserved live) invoice)) [
      | inl short ↦ rw short (
        refl,
        rw (sym (live_reservations-total now (parse_reserve raw)))
            (exceeds balance (coupon_reserved live) invoice short),
      )
      | inr enough ↦ rw enough (
        refl,
        fits balance (coupon_reserved live) invoice (coupon_reserved (insert attempt_id entry live))
            (measure reserved_amount (lookup attempt_id live)) enough sum old,
        lookup-insert_self attempt_id entry live,
        λ j v other within at.
            lookup-insert_ne attempt_id j entry live other
            ∙ live_reservations-lookup now j v (parse_reserve raw) within at,
        insert-NonNeg attempt_id entry live payable kept,
      )
    ]
