-- ===== src/Tests/Coupons.antt =====
-- Runs of a coupon's redemption (src/routes/coupon.ts).
use rozo_mpprouter.Base.{◌+◌, ◌≤◌, String, ◌≡◌, refl, false, none, some, List, [], ◌∷◌, arith}
use rozo_mpprouter.Base.Int.{pos}
use rozo_mpprouter.Base.Keys.{string_eq}
use rozo_mpprouter.Partners.Types.{CouponRecord, issued, redeemed}
use rozo_mpprouter.Coupon.{
  release_it, succeeded, unclear, claim_coupon, enter_paying, rollback_to_issued, finalize,
  resolve_coupon,
}
use rozo_mpprouter.Coupon.Redemptions.{
  Redeem, claims, rolls_back, pays, finishes, resolves, redeem, redeem_all, opened_till,
}
use rozo_mpprouter.Coupon.Redemptions.Payments.{Owns, entered_bounded, enter_paying-Owns}
use rozo_mpprouter.Coupon.Reserve.{
  ReserveState, Reserves, try_reserve_funds, try_reserve_funds-Reserves,
}

abbrev coupon : CouponRecord
coupon = record {
  code = "12345678";
  amount = pos 20000000;
  status = issued;
  issued_at = 0;
  expires_at = 100000000;
  payment_proof = none;
  redeeming_at = none;
  attempt_id = none;
  pl_id = none;
  redeemed_at = none;
  failure_reason = none;
  invoice_key = none;
  paid_amount = none;
  partner_id = none;
  issue_ledger_id = none;
  refund_ledger_id = none;
  tombstone = false;
  refund_op_id = none;
  refund_pending = false;
}

abbrev link : String → String
link attempt_id = attempt_id

-- The first attempt is slow, the second takes its claim over, and the first is fenced off.
abbrev takeover : List Redeem
takeover =
    claims 1000 "a"
    ∷ claims 700000 "b"
    ∷ pays "a" "pl_a" (pos 20000000)
    ∷ pays "b" "pl_b" (pos 20000000)
    ∷ rolls_back "b"
    ∷ finishes 700100 "b" succeeded
    ∷ claims 800000 "c"
    ∷ []

takeover_ends :
    let t = redeem_all link takeover (opened_till coupon) in
    (t.entered ≡ 1) × (t.coupon.status ≡ redeemed) × (t.coupon.pl_id ≡ some "b")
unfolding redeem redeem_all claim_coupon enter_paying rollback_to_issued finalize
takeover_ends = (refl, refl, refl)

-- An operator releases a coupon whose payment went unanswered; it is then paid again.
abbrev reopened : List Redeem
reopened =
    claims 1000 "a"
    ∷ pays "a" "pl_a" (pos 20000000)
    ∷ finishes 1100 "a" (unclear "timeout")
    ∷ resolves 2000 release_it
    ∷ claims 3000 "b"
    ∷ pays "b" "pl_b" (pos 20000000)
    ∷ []

reopened_twice :
    let t = redeem_all link reopened (opened_till coupon) in (t.entered ≡ 2) × (t.reopened ≡ 1)
unfolding redeem redeem_all claim_coupon enter_paying finalize resolve_coupon
reopened_twice = (refl, refl)

entered_bounded_example :
    let t = redeem_all link reopened (opened_till coupon) in t.entered ≤ t.reopened + 1
entered_bounded_example = entered_bounded link coupon reopened refl

abbrev first_claim : List Redeem
first_claim = claims 1000 "a" ∷ []

enter_paying-Owns_example : Owns link "a" (redeem_all link first_claim (opened_till coupon)).coupon
unfolding redeem redeem_all claim_coupon enter_paying
enter_paying-Owns_example =
    enter_paying-Owns link coupon first_claim "a" "pl_a" (pos 20000000) refl refl

abbrev reservations : ReserveState
reservations =
    ("a", record { amt = pos 60; made_at = 1000 })
    ∷ ("b", record { amt = pos 30; made_at = 900000 })
    ∷ []

-- The first lease has run out.
try_reserve_funds-Reserves_example :
    Reserves 1000000 "c"
      (pos 50)
      (pos 100)
      reservations
      (try_reserve_funds 1000000 "c" (pos 50) (pos 100) (some reservations))
try_reserve_funds-Reserves_example =
    try_reserve_funds-Reserves 1000000 "c" (pos 50) (pos 100) (some reservations)
      (omega arith, (omega arith, tt)) (omega arith)
