-- ===== src/Coupon/Redemptions.antt =====
-- Redemptions, operators and partners that interleave on one coupon of src/routes/coupon.ts.
pub mod Statuses
pub mod Payments
use rozo_mpprouter.Base.{
  ℕ, suc, ◌+◌, ◌-◌, ◌≤◌, String, ◌≡◌, refl, ap, Bool, true, false, ◌&&◌, Option, none, some, List,
  [], ◌∷◌, arith, ltb, or_else, if◌then◌else◌,
}
use rozo_mpprouter.Base.Int.{ℤ}
use rozo_mpprouter.Base.Keys.{string_eq}
use rozo_mpprouter.AtomicStore.{set, delete}
use rozo_mpprouter.AtomicStore.Client.{Change, noop, change}
use rozo_mpprouter.Channel.Changes.{result}
use rozo_mpprouter.Partners.Types.{
  CouponRecord, CouponStatus, issued, redeeming, paying, redeemed, manual_review, void, is_text,
}
use rozo_mpprouter.Partners.Void.{is_issued, voided}
use rozo_mpprouter.Coupon.{
  ClaimResult, processing, rejected, already_redeemed, claimed_by, same_link, claim_status,
  claim_coupon, redeeming_stale_ms, is_redeeming, is_paying, rollback_to_issued, enter_paying,
  PayOutcome, succeeded, unclear, concluded, finalize, ResolveAction, void_it, release_it,
  mark_redeemed, in_flight, resolve_coupon,
}

pub data Redeem : Type 0 where
  claims : ℕ → String → Redeem
  rolls_back : String → Redeem
  pays : String → String → ℤ → Redeem
  finishes : ℕ → String → PayOutcome → Redeem
  resolves : ℕ → ResolveAction → Redeem
  partner_voids : String → Redeem

-- The coupon, how often a payment was entered, and how often an operator released a coupon on which
-- one was.
pub record Till : Type 0 where
  pub coupon : CouponRecord
  pub entered : ℕ
  pub reopened : ℕ

abbrev pub kept_or : {R : Type 0} → Change CouponRecord R → CouponRecord → CouponRecord
kept_or (noop r) rec = rec
kept_or (change (set v) r) rec = v
kept_or (change delete r) rec = rec

abbrev pub counted : Bool → ℕ → ℕ
counted true n = suc n
counted false n = n

abbrev pub is_entered : CouponStatus → Bool
is_entered paying = true
is_entered manual_review = true
is_entered other = false

abbrev pub reopens : ResolveAction → CouponStatus → Bool
reopens release_it status = is_entered status
reopens void_it status = false
reopens mark_redeemed status = false

-- `link_of` is the link of the request that drew an attempt's id.
unfoldable pub redeem : (String → String) → Redeem → Till → Till
redeem link_of (claims now attempt_id) t = record t {
  coupon = kept_or (claim_coupon now attempt_id (link_of attempt_id) (some t.coupon)) t.coupon;
}
redeem link_of (rolls_back attempt_id) t = record t {
  coupon = kept_or (rollback_to_issued attempt_id (some t.coupon)) t.coupon;
}
redeem link_of (pays attempt_id invoice_key amount) t =
    let entry = enter_paying attempt_id invoice_key amount (some t.coupon) in
    record t { coupon = kept_or entry t.coupon; entered = counted (result entry) t.entered }
redeem link_of (finishes now attempt_id outcome) t = record t {
  coupon = kept_or (finalize now attempt_id outcome (some t.coupon)) t.coupon;
}
redeem link_of (resolves now action) t = record t {
  coupon = kept_or (resolve_coupon now action (some t.coupon)) t.coupon;
  reopened = counted (reopens action t.coupon.status) t.reopened;
}
redeem link_of (partner_voids refund_op_id) t = record t {
  coupon = if is_issued t.coupon.status then voided refund_op_id t.coupon else t.coupon;
}

unfoldable pub redeem_all : (String → String) → List Redeem → Till → Till
redeem_all link_of [] t = t
redeem_all link_of (e ∷ es) t = redeem_all link_of es (redeem link_of e t)

-- How many payments a status stands for at most.
abbrev pub allowance : CouponStatus → ℕ
allowance issued = 0
allowance redeeming = 0
allowance paying = 1
allowance redeemed = 1
allowance manual_review = 1
allowance void = 1

abbrev pub is_held : CouponStatus → Bool
is_held redeeming = true
is_held paying = true
is_held other = false

-- A held coupon carries the link of the attempt that holds it.
abbrev pub Fenced : (String → String) → CouponRecord → Type 0
Fenced link_of rec =
    is_held rec.status ≡ true
    → (attempt_id : String) → rec.attempt_id ≡ some attempt_id
    → rec.pl_id ≡ some (link_of attempt_id)

abbrev pub Sound : (String → String) → ℕ → ℕ → CouponRecord → Type 0
Sound link_of entered reopened rec =
    (entered ≤ reopened + allowance rec.status) × Fenced link_of rec

abbrev pub opened_till : CouponRecord → Till
opened_till rec = record { coupon = rec; entered = 0; reopened = 0 }
