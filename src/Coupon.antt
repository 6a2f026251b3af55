-- ===== src/Coupon.antt =====
-- src/routes/coupon.ts: the transforms of a coupon's record that a redemption and an operator make,
-- and the reservation of the payer's funds. The record is that of Partners.Types.
pub mod Redemptions
pub mod Reserve
use rozo_mpprouter.Base.{
  ℕ, ◌-◌, String, Bool, true, false, not, ◌&&◌, ◌||◌, Option, none, some, ltb, or_else,
  if◌then◌else◌,
}
use rozo_mpprouter.Base.Int.{ℤ}
use rozo_mpprouter.Partners.Types.{
  CouponRecord, CouponStatus, issued, redeeming, paying, redeemed, manual_review, void, is_text,
}
use rozo_mpprouter.AtomicStore.{set}
use rozo_mpprouter.AtomicStore.Client.{Change, noop, change}

abbrev pub redeeming_stale_ms : ℕ
redeeming_stale_ms = 600000

pub data ClaimResult : Type 0 where
  claimed : CouponRecord → ClaimResult
  processing rejected : ClaimResult
  already_redeemed : CouponRecord → ClaimResult

-- The record that a claim makes.
abbrev pub claimed_by : ℕ → String → String → CouponRecord → CouponRecord
claimed_by now attempt_id pl_id rec = record rec {
  status = redeeming;
  redeeming_at = some now;
  attempt_id = some attempt_id;
  pl_id = some pl_id;
}

abbrev pub take_coupon : ℕ → String → String → CouponRecord → Change CouponRecord ClaimResult
take_coupon now attempt_id pl_id rec =
    change (set (claimed_by now attempt_id pl_id rec))
      (claimed (claimed_by now attempt_id pl_id rec))

-- A claim on a coupon that another one holds, or that is paid: only of the same link.
abbrev pub same_link : String → ClaimResult → CouponRecord → Change CouponRecord ClaimResult
same_link pl_id found rec = if is_text rec.pl_id pl_id then noop found else noop rejected

abbrev pub claim_status :
    ℕ → String → String → CouponStatus → CouponRecord → Change CouponRecord ClaimResult
claim_status now attempt_id pl_id issued rec =
    if ltb rec.expires_at now then noop rejected else take_coupon now attempt_id pl_id rec
claim_status now attempt_id pl_id redeeming rec =
    if ltb redeeming_stale_ms (now - or_else rec.redeeming_at 0)
    then take_coupon now attempt_id pl_id rec
    else same_link pl_id processing rec
claim_status now attempt_id pl_id paying rec = same_link pl_id processing rec
claim_status now attempt_id pl_id manual_review rec = same_link pl_id processing rec
claim_status now attempt_id pl_id redeemed rec = same_link pl_id (already_redeemed rec) rec
claim_status now attempt_id pl_id void rec = noop rejected

-- Step 1 of a redemption.
unfoldable pub claim_coupon :
    ℕ → String → String → Option CouponRecord → Change CouponRecord ClaimResult
claim_coupon now attempt_id pl_id none = noop rejected
claim_coupon now attempt_id pl_id (some rec) = claim_status now attempt_id pl_id rec.status rec

abbrev pub is_redeeming : CouponStatus → Bool
is_redeeming redeeming = true
is_redeeming other = false

abbrev pub is_paying : CouponStatus → Bool
is_paying paying = true
is_paying other = false

-- `rollbackToIssued`: of the own claim, before the payment.
unfoldable pub rollback_to_issued : String → Option CouponRecord → Change CouponRecord (Unit {0})
rollback_to_issued attempt_id none = noop tt
rollback_to_issued attempt_id (some rec) =
    if is_redeeming rec.status && is_text rec.attempt_id attempt_id
    then change
        (set (record rec { status = issued; redeeming_at = none; attempt_id = none; pl_id = none }))
        tt
    else noop tt

-- `enteredPaying`: a true answer is followed by the call that pays.
unfoldable pub enter_paying : String → String → ℤ → Option CouponRecord → Change CouponRecord Bool
enter_paying attempt_id invoice_key amount none = noop false
enter_paying attempt_id invoice_key amount (some rec) =
    if is_redeeming rec.status && is_text rec.attempt_id attempt_id
    then change
        (set (record rec {
          status = paying;
          invoice_key = some invoice_key;
          paid_amount = some amount;
        }))
        true
    else noop false

-- How the call ended: paid, or failed for a reason.
pub data PayOutcome : Type 0 where
  succeeded : PayOutcome
  unclear : String → PayOutcome

abbrev pub concluded : ℕ → PayOutcome → CouponRecord → CouponRecord
concluded now succeeded rec = record rec { status = redeemed; redeemed_at = some now }
concluded now (unclear reason) rec = record rec {
  status = manual_review;
  failure_reason = some reason;
}

-- `finalize`, with what its two callers change.
unfoldable pub finalize :
    ℕ → String → PayOutcome → Option CouponRecord → Change CouponRecord (Option CouponRecord)
finalize now attempt_id outcome none = noop none
finalize now attempt_id outcome (some rec) =
    if is_paying rec.status && is_text rec.attempt_id attempt_id
    then change (set (concluded now outcome rec)) (some (concluded now outcome rec))
    else noop none

pub data ResolveAction : Type 0 where
  void_it release_it mark_redeemed : ResolveAction

abbrev pub in_flight : CouponStatus → Bool
in_flight manual_review = true
in_flight redeeming = true
in_flight paying = true
in_flight other = false

-- `handleResolveCoupon`, behind the operator's authorization.
unfoldable pub resolve_coupon : ℕ → ResolveAction → Option CouponRecord → Change CouponRecord Bool
resolve_coupon now action none = noop false
resolve_coupon now void_it (some rec) =
    change (set (record rec { status = void; attempt_id = none })) true
resolve_coupon now release_it (some rec) =
    if in_flight rec.status
    then change
        (set (record rec { status = issued; redeeming_at = none; attempt_id = none; pl_id = none }))
        true
    else noop false
resolve_coupon now mark_redeemed (some rec) =
    if in_flight rec.status
    then change (set (record rec { status = redeemed; redeemed_at = some now; attempt_id = none }))
        true
    else noop false
