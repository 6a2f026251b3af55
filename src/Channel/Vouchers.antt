-- ===== src/Channel/Vouchers.antt =====
-- The latest voucher of src/playground/channel-voucher-store.ts under any sequence of calls.
use rozo_mpprouter.Base.{
  ℕ, ◌≤◌, inl, inr, Option, none, some, List, [], ◌∷◌, leb, arith, Bool-cases,
}
use rozo_mpprouter.Channel.{LatestVoucher, Voucher, put_latest_voucher, mark_voucher_settled}
use rozo_mpprouter.Channel.Changes.{stored}

pub data VoucherOp : Type 0 where
  puts : ℕ → Voucher → VoucherOp
  settles : ℕ → ℕ → VoucherOp

unfoldable pub voucher_step : VoucherOp → Option LatestVoucher → Option LatestVoucher
voucher_step (puts now v) o = stored (put_latest_voucher now v o) o
voucher_step (settles now n) o = stored (mark_voucher_settled now n o) o

unfoldable pub voucher_steps : List VoucherOp → Option LatestVoucher → Option LatestVoucher
voucher_steps [] o = o
voucher_steps (op ∷ ops) o = voucher_steps ops (voucher_step op o)

abbrev pub signed_part : LatestVoucher → Voucher
signed_part row = record {
  amount_decimal = row.amount_decimal;
  cumulative = row.cumulative;
  signature = row.signature;
}

-- The stored voucher is at least as high in both amounts, and what it holds of a signed voucher
-- satisfies the predicate.
abbrev pub Grown : (Voucher → Type 0) → ℕ → ℕ → Option LatestVoucher → Type 0
Grown P cumulative settled none = ⊥
Grown P cumulative settled (some row) =
    (cumulative ≤ row.cumulative) × (settled ≤ row.last_settled) × P (signed_part row)

abbrev pub PutsOnly : (Voucher → Type 0) → List VoucherOp → Type 0
PutsOnly P [] = Unit
PutsOnly P (puts now v ∷ ops) = P v × PutsOnly P ops
PutsOnly P (settles now n ∷ ops) = PutsOnly P ops

module _ (P : Voucher → Type 0) (c s : ℕ) where
  put-Grown :
      (now : ℕ) (v : Voucher) (o : Option LatestVoucher)
      → P v
      → Grown P c s o
      → Grown P c s (stored (put_latest_voucher now v o) o)
  unfolding put_latest_voucher
  put-Grown now v none p h = absurd h
  put-Grown now v (some row) p h = elim (Bool-cases (leb v.cumulative row.cumulative)) [
    | inl low ↦ rw (low, put_latest_voucher) h
    | inr high ↦ rw (high, put_latest_voucher) (ground (arith, high, h.0), h.1, p)
  ]

  settle-Grown :
      (now n : ℕ) (o : Option LatestVoucher)
      → Grown P c s o
      → Grown P c s (stored (mark_voucher_settled now n o) o)
  unfolding mark_voucher_settled
  settle-Grown now n none h = absurd h
  settle-Grown now n (some row) h = elim (Bool-cases (leb n row.last_settled)) [
    | inl low ↦ rw (low, mark_voucher_settled) h
    | inr high ↦ rw (high, mark_voucher_settled) (h.0, ground (arith, high, h.1), h.2)
  ]

  -- Under any calls the stored cumulative and the settled watermark never fall, and the stored row
  -- is always a whole voucher that was put: it satisfies whatever all of those satisfy.
  pub voucher_steps-Grown :
      (ops : List VoucherOp) (o : Option LatestVoucher)
      → PutsOnly P ops
      → Grown P c s o
      → Grown P c s (voucher_steps ops o)
  unfolding voucher_steps voucher_step
  voucher_steps-Grown [] o ps h = h
  voucher_steps-Grown (puts now v ∷ ops) o ps h =
      voucher_steps-Grown ops _ ps.1 (put-Grown now v o ps.0 h)
  voucher_steps-Grown (settles now n ∷ ops) o ps h =
      voucher_steps-Grown ops _ ps (settle-Grown now n o h)

abbrev pub FromPut : (Voucher → Type 0) → Option LatestVoucher → Type 0
FromPut P none = Unit
FromPut P (some row) = P (signed_part row)

put_latest_voucher-Grown :
    (P : Voucher → Type 0) (now : ℕ) (v : Voucher) (o : Option LatestVoucher)
    → P v
    → FromPut P o
    → Grown P v.cumulative 0 (stored (put_latest_voucher now v o) o)
unfolding put_latest_voucher
put_latest_voucher-Grown P now v none p h = (omega arith, omega arith, p)
put_latest_voucher-Grown P now v (some row) p h =
    elim (Bool-cases (leb v.cumulative row.cumulative)) [
      | inl low ↦ rw (low, put_latest_voucher) (ground (arith, low), omega arith, h)
      | inr high ↦ rw (high, put_latest_voucher) (omega arith, omega arith, p)
    ]

-- Once a voucher is put, whatever calls follow, the store holds a voucher of at least its amount, and
-- one that satisfies whatever every voucher put, before or after, satisfies.
pub put_kept :
    (P : Voucher → Type 0) (now : ℕ) (v : Voucher) (o : Option LatestVoucher) (ops : List VoucherOp)
    → PutsOnly P (puts now v ∷ ops)
    → FromPut P o
    → Grown P v.cumulative 0 (voucher_steps (puts now v ∷ ops) o)
unfolding voucher_steps voucher_step
put_kept P now v o ops ps h =
    voucher_steps-Grown P v.cumulative 0 ops _ ps.1 (put_latest_voucher-Grown P now v o ps.0 h)
