-- ===== src/Coupon/Redemptions/Payments.antt =====
-- Which redemptions of a coupon of src/routes/coupon.ts get to its payment.
use rozo_mpprouter.Base.{
  ℕ, ◌+◌, ◌-◌, ◌≤◌, String, ◌≡◌, refl, ap, Bool, true, false, ◌&&◌, some, List, [], ◌∷◌, arith, ltb,
  or_else, if◌then◌else◌,
}
use rozo_mpprouter.Base.Int.{ℤ}
use rozo_mpprouter.Base.Keys.{string_eq}
use rozo_mpprouter.AtomicStore.{set}
use rozo_mpprouter.AtomicStore.Client.{Change, noop, change}
use rozo_mpprouter.Channel.Changes.{result}
use rozo_mpprouter.Partners.Types.{
  CouponRecord, CouponStatus, issued, redeeming, paying, redeemed, manual_review, void, is_text,
}
use rozo_mpprouter.Partners.Void.{is_issued, voided}
use rozo_mpprouter.Coupon.{
  ClaimResult, processing, rejected, already_redeemed, claimed_by, same_link, claim_status,
  claim_coupon, redeeming_stale_ms, is_redeeming, is_paying, rollback_to_issued, enter_paying,
  PayOutcome, succeeded, unclear, concluded, finalize, ResolveAction, void_it, release_it,
  mark_redeemed, in_flight, resolve_coupon,
}
use rozo_mpprouter.Coupon.Redemptions.{
  Redeem, Sound, Till, allowance, claims, counted, finishes, is_entered, is_held, kept_or,
  opened_till, partner_voids, pays, redeem, redeem_all, resolves, rolls_back,
}
use rozo_mpprouter.Coupon.Redemptions.Statuses.{
  allowance_bound, both_tests, counted_grows, is_text_eq, issued_allowance, kept_if,
  paying_allowance, redeeming_eq, release_allowance,
}

module _ (link_of : String → String) where
  claimed_by-Sound :
      (now : ℕ) (attempt_id : String) (entered reopened : ℕ) (rec : CouponRecord)
      → allowance rec.status ≡ 0
      → Sound link_of entered reopened rec
      → Sound link_of entered reopened (claimed_by now attempt_id (link_of attempt_id) rec)
  claimed_by-Sound now attempt_id entered reopened rec free h = (
    omega (arith, free, h.0),
    λ held a e. let same : attempt_id ≡ a = cc e in ap (λ x. some (link_of x)) same,
  )

  same_link-Sound :
      (pl_id : String) (found : ClaimResult) (entered reopened : ℕ) (rec : CouponRecord)
      → Sound link_of entered reopened rec
      → Sound link_of entered reopened (kept_or (same_link pl_id found rec) rec)
  same_link-Sound pl_id found entered reopened rec h =
      kept_if (Sound link_of entered reopened) (is_text rec.pl_id pl_id) (noop found)
        (noop rejected) rec (λ e. h) (λ e. h)

  claim_status-Sound :
      (now : ℕ) (attempt_id : String) (status : CouponStatus) (entered reopened : ℕ)
      (rec : CouponRecord)
      → rec.status ≡ status
      → Sound link_of entered reopened rec
      → Sound link_of entered reopened
          (kept_or (claim_status now attempt_id (link_of attempt_id) status rec) rec)
  claim_status-Sound now attempt_id issued entered reopened rec at h =
      kept_if (Sound link_of entered reopened) (ltb rec.expires_at now) _ _ rec (λ e. h)
        λ e. claimed_by-Sound now attempt_id entered reopened rec (ap allowance at) h
  claim_status-Sound now attempt_id redeeming entered reopened rec at h =
      kept_if (Sound link_of entered reopened)
        (ltb redeeming_stale_ms (now - or_else rec.redeeming_at 0)) _ _ rec
        (λ e. claimed_by-Sound now attempt_id entered reopened rec (ap allowance at) h)
        (λ e. same_link-Sound (link_of attempt_id) processing entered reopened rec h)
  claim_status-Sound now attempt_id paying entered reopened rec at h =
      same_link-Sound (link_of attempt_id) processing entered reopened rec h
  claim_status-Sound now attempt_id manual_review entered reopened rec at h =
      same_link-Sound (link_of attempt_id) processing entered reopened rec h
  claim_status-Sound now attempt_id redeemed entered reopened rec at h =
      same_link-Sound (link_of attempt_id) (already_redeemed rec) entered reopened rec h
  claim_status-Sound now attempt_id void entered reopened rec at h = h

  abbrev IsSound : Till → Type 0
  IsSound t = Sound link_of t.entered t.reopened t.coupon

  rollback-IsSound :
      (attempt_id : String) (t : Till)
      → IsSound t
      → IsSound (redeem link_of (rolls_back attempt_id) t)
  unfolding redeem rollback_to_issued
  rollback-IsSound attempt_id t h =
      kept_if (Sound link_of t.entered t.reopened)
        (is_redeeming t.coupon.status && is_text t.coupon.attempt_id attempt_id) _ _ t.coupon
        (λ e.
          let at = redeeming_eq t.coupon.status (both_tests _ _ e).0 in
          (omega (arith, h.0, ap allowance at), λ held. absurd (cc held)))
        (λ e. h)

  pay-IsSound :
      (attempt_id invoice_key : String) (amount : ℤ) (t : Till)
      → IsSound t
      → IsSound (redeem link_of (pays attempt_id invoice_key amount) t)
  unfolding redeem enter_paying
  pay-IsSound attempt_id invoice_key amount t h =
      entry (is_redeeming t.coupon.status && is_text t.coupon.attempt_id attempt_id) refl
    where
      entry :
          (b : Bool)
          → (is_redeeming t.coupon.status && is_text t.coupon.attempt_id attempt_id) ≡ b
          → let c : Change CouponRecord Bool =
              if b
              then change
                  (set (record t.coupon {
                    status = paying;
                    invoice_key = some invoice_key;
                    paid_amount = some amount;
                  }))
                  true
              else noop false in
            Sound link_of (counted (result c) t.entered) t.reopened (kept_or c t.coupon)
      entry true e =
          let at = redeeming_eq t.coupon.status (both_tests _ _ e).0 in
          (omega (arith, h.0, ap allowance at), λ held. h.1 (ap is_held at))
      entry false e = h

  finish-IsSound :
      (now : ℕ) (attempt_id : String) (outcome : PayOutcome) (t : Till)
      → IsSound t
      → IsSound (redeem link_of (finishes now attempt_id outcome) t)
  unfolding redeem finalize
  finish-IsSound now attempt_id outcome t h =
      kept_if (Sound link_of t.entered t.reopened)
        (is_paying t.coupon.status && is_text t.coupon.attempt_id attempt_id) _ _ t.coupon
        (λ e. concluded_as outcome (paying_allowance t.coupon.status (both_tests _ _ e).0)) (λ e. h)
    where
      concluded_as :
          (o : PayOutcome)
          → allowance t.coupon.status ≡ 1
          → Sound link_of t.entered t.reopened (concluded now o t.coupon)
      concluded_as succeeded one = (omega (arith, h.0, one), λ held. absurd (cc held))
      concluded_as (unclear reason) one = (omega (arith, h.0, one), λ held. absurd (cc held))

  resolve-IsSound :
      (now : ℕ) (action : ResolveAction) (t : Till)
      → IsSound t
      → IsSound (redeem link_of (resolves now action) t)
  unfolding redeem resolve_coupon
  resolve-IsSound now void_it t h =
      (omega (arith, h.0, allowance_bound t.coupon.status), λ held. absurd (cc held))
  resolve-IsSound now release_it t h =
      kept_if (Sound link_of t.entered (counted (is_entered t.coupon.status) t.reopened))
        (in_flight t.coupon.status) _ _ t.coupon
        (λ e. (
          omega (arith, h.0, release_allowance t.coupon.status t.reopened e),
          λ held. absurd (cc held),
        ))
        (λ e. (omega (arith, h.0, counted_grows (is_entered t.coupon.status) t.reopened), h.1))
  resolve-IsSound now mark_redeemed t h =
      kept_if (Sound link_of t.entered t.reopened) (in_flight t.coupon.status) _ _ t.coupon
        (λ e. (omega (arith, h.0, allowance_bound t.coupon.status), λ held. absurd (cc held)))
        (λ e. h)

  void-IsSound :
      (refund_op_id : String) (t : Till)
      → IsSound t
      → IsSound (redeem link_of (partner_voids refund_op_id) t)
  unfolding redeem
  void-IsSound refund_op_id t h = either_record (is_issued t.coupon.status) refl
    where
      either_record :
          (b : Bool)
          → is_issued t.coupon.status ≡ b
          → Sound link_of t.entered t.reopened
              (if b then voided refund_op_id t.coupon else t.coupon)
      either_record true e =
          (omega (arith, h.0, issued_allowance t.coupon.status e), λ held. absurd (cc held))
      either_record false e = h

  redeem-IsSound : (e : Redeem) (t : Till) → IsSound t → IsSound (redeem link_of e t)
  unfolding redeem claim_coupon
  redeem-IsSound (claims now attempt_id) t h =
      claim_status-Sound now attempt_id t.coupon.status t.entered t.reopened t.coupon refl h
  redeem-IsSound (rolls_back attempt_id) t h = rollback-IsSound attempt_id t h
  redeem-IsSound (pays attempt_id invoice_key amount) t h =
      pay-IsSound attempt_id invoice_key amount t h
  redeem-IsSound (finishes now attempt_id outcome) t h = finish-IsSound now attempt_id outcome t h
  redeem-IsSound (resolves now action) t h = resolve-IsSound now action t h
  redeem-IsSound (partner_voids refund_op_id) t h = void-IsSound refund_op_id t h

  redeem_all-IsSound : (es : List Redeem) (t : Till) → IsSound t → IsSound (redeem_all link_of es t)
  unfolding redeem_all
  redeem_all-IsSound [] t h = h
  redeem_all-IsSound (e ∷ es) t h =
      redeem_all-IsSound es (redeem link_of e t) (redeem-IsSound e t h)

  opened-IsSound : (rec : CouponRecord) → rec.status ≡ issued → IsSound (opened_till rec)
  opened-IsSound rec at = (
    omega arith,
    λ held. let never : is_held rec.status ≡ false = ap is_held at in absurd (cc (held, never)),
  )

  -- However redemptions, operators and a partner's void interleave on an issued coupon, its payment
  -- is entered at most once more often than an operator has released it from a payment that was
  -- entered.
  pub entered_bounded :
      (rec : CouponRecord) (es : List Redeem)
      → rec.status ≡ issued
      → let t = redeem_all link_of es (opened_till rec) in t.entered ≤ t.reopened + 1
  entered_bounded rec es at =
      let t = redeem_all link_of es (opened_till rec) in
      let h = redeem_all-IsSound es (opened_till rec) (opened-IsSound rec at) in
      omega (arith, h.0, allowance_bound t.coupon.status)

  abbrev pub Owns : String → CouponRecord → Type 0
  Owns attempt_id c =
      (c.status ≡ redeeming)
      × (c.attempt_id ≡ some attempt_id)
      × (c.pl_id ≡ some (link_of attempt_id))

  -- However they interleave: an attempt that is let into the payment is the one that holds the
  -- coupon, and the coupon carries the link of its request.
  pub enter_paying-Owns :
      (rec : CouponRecord) (es : List Redeem) (attempt_id invoice_key : String) (amount : ℤ)
      → rec.status ≡ issued
      → result (
          enter_paying attempt_id invoice_key amount
            (some (redeem_all link_of es (opened_till rec)).coupon))
        ≡ true
      → Owns attempt_id (redeem_all link_of es (opened_till rec)).coupon
  unfolding enter_paying
  enter_paying-Owns rec es attempt_id invoice_key amount at won =
      let c = (redeem_all link_of es (opened_till rec)).coupon in
      let h = redeem_all-IsSound es (opened_till rec) (opened-IsSound rec at) in
      let both =
        both_tests (is_redeeming c.status) (is_text c.attempt_id attempt_id)
          (ground (arith, won)) in
      let status = redeeming_eq c.status both.0 in
      let mine = is_text_eq c.attempt_id attempt_id both.1 in
      (status, mine, h.1 (ap is_held status) attempt_id mine)
