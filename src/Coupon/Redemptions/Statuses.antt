-- ===== src/Coupon/Redemptions/Statuses.antt =====
-- The tests and the allowances of the statuses of a coupon of src/routes/coupon.ts.
use rozo_mpprouter.Base.{
  ℕ, ◌+◌, ◌≤◌, String, ◌≡◌, refl, ap, Bool, true, false, ◌&&◌, Option, none, some, arith,
  if◌then◌else◌,
}
use rozo_mpprouter.Base.Keys.{string_eq}
use rozo_mpprouter.AtomicStore.Client.{Change}
use rozo_mpprouter.Partners.Types.{
  CouponRecord, CouponStatus, issued, redeeming, paying, redeemed, manual_review, void, is_text,
}
use rozo_mpprouter.Partners.Void.{is_issued}
use rozo_mpprouter.Coupon.{is_redeeming, is_paying, in_flight}
use rozo_mpprouter.Coupon.Redemptions.{allowance, counted, is_entered, kept_or}

-- What holds of what both changes leave holds of what the test's leaves.
pub kept_if :
    {R : Type 0} (P : CouponRecord → Type 0) (b : Bool) (c d : Change CouponRecord R)
    (rec : CouponRecord)
    → (b ≡ true → P (kept_or c rec))
    → (b ≡ false → P (kept_or d rec))
    → P (kept_or (if b then c else d) rec)
kept_if P true c d rec hc hd = hc refl
kept_if P false c d rec hc hd = hd refl

pub both_tests : (a b : Bool) → (a && b) ≡ true → (a ≡ true) × (b ≡ true)
both_tests true b h = (refl, h)
both_tests false b h = absurd (cc h)

pub is_text_eq : (o : Option String) (t : String) → is_text o t ≡ true → o ≡ some t
is_text_eq none t h = absurd (cc h)
is_text_eq (some s) t h = ap some ((string_eq.beq_iff s t).0 h)

pub redeeming_eq : (status : CouponStatus) → is_redeeming status ≡ true → status ≡ redeeming
redeeming_eq redeeming h = refl
redeeming_eq issued h = absurd (cc h)
redeeming_eq paying h = absurd (cc h)
redeeming_eq redeemed h = absurd (cc h)
redeeming_eq manual_review h = absurd (cc h)
redeeming_eq void h = absurd (cc h)

pub issued_allowance : (status : CouponStatus) → is_issued status ≡ true → allowance status ≡ 0
issued_allowance issued h = refl
issued_allowance redeeming h = absurd (cc h)
issued_allowance paying h = absurd (cc h)
issued_allowance redeemed h = absurd (cc h)
issued_allowance manual_review h = absurd (cc h)
issued_allowance void h = absurd (cc h)

pub allowance_bound : (status : CouponStatus) → allowance status ≤ 1
allowance_bound issued = omega arith
allowance_bound redeeming = omega arith
allowance_bound paying = omega arith
allowance_bound redeemed = omega arith
allowance_bound manual_review = omega arith
allowance_bound void = omega arith

pub paying_allowance : (status : CouponStatus) → is_paying status ≡ true → allowance status ≡ 1
paying_allowance paying h = refl
paying_allowance issued h = absurd (cc h)
paying_allowance redeeming h = absurd (cc h)
paying_allowance redeemed h = absurd (cc h)
paying_allowance manual_review h = absurd (cc h)
paying_allowance void h = absurd (cc h)

-- A release gives back the allowance of a status, one that stands for no payment or is counted.
pub release_allowance :
    (status : CouponStatus) (n : ℕ)
    → in_flight status ≡ true
    → counted (is_entered status) n ≡ n + allowance status
release_allowance redeeming n h = omega arith
release_allowance paying n h = omega arith
release_allowance manual_review n h = omega arith
release_allowance issued n h = absurd (cc h)
release_allowance redeemed n h = absurd (cc h)
release_allowance void n h = absurd (cc h)

pub counted_grows : (b : Bool) (n : ℕ) → n ≤ counted b n
counted_grows true n = omega arith
counted_grows false n = omega arith
