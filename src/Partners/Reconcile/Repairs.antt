-- ===== src/Partners/Reconcile/Repairs.antt =====
-- What a round of reconcilePending (src/routes/partner-store.ts) makes of an issue that was left
-- pending.
use rozo_mpprouter.Base.{
  ℕ, ◌-◌, String, ◌≡◌, refl, inl, inr, Bool, true, false, not, ◌&&◌, Option, none, some, arith,
  Bool-cases, ltb, if◌then◌else◌,
}
use rozo_mpprouter.Base.Int.{pos, ◌+ℤ◌, ◌≤ℤ◌, ltb_ℤ, +ℤ_parts}
use rozo_mpprouter.Base.Keys.{string_eq, pair_eq}
use rozo_mpprouter.Base.Dict.{lookup, lookup-insert_self}
use rozo_mpprouter.Partners.Types.{
  PendingIssue, PartnerRecord, CouponRecord, Books, remove_first, find_first, pending_stale_ms,
}
use rozo_mpprouter.Partners.Ledger.{is_applied, charged_partner}
use rozo_mpprouter.Partners.Ledger.Made.{apply_ledger_made}
use rozo_mpprouter.Partners.Ledger.Effect.{ended}
use rozo_mpprouter.Partners.Issue.{
  is_op, confirmed_issue, confirm_pending_issue, drop_issue, issue_refund, issue_refund_key,
  refund_pending_issue, create_coupon,
}
use rozo_mpprouter.Partners.Void.{put_coupon}
use rozo_mpprouter.Partners.Reconcile.{
  is_issue_of, tombstone_of, index_of, confirm_found, reconcile_absent, reconcile_found,
  reconcile_issue,
}

-- The coupon at the issue's code is this issue's own.
abbrev pub is_repaid_by : String → PendingIssue → CouponRecord → Bool
is_repaid_by partner_id o c = not c.tombstone && is_issue_of partner_id o.op_id c

-- Either the coupon is there and the money stays taken, or the code is taken by a tombstone or
-- another's coupon and the money is back; the issue is no longer pending.
pub record Repaired (partner_id : String) (o : PendingIssue) (p : PartnerRecord) (t : Books)
    : Type 0 where
  pub coupon : CouponRecord
  pub after : PartnerRecord
  pub found : lookup o.code t.coupons ≡ some coupon
  pub partner : lookup partner_id t.partners ≡ some after
  pub pending : after.pending_issues ≡ remove_first (is_op o.op_id) p.pending_issues
  pub money :
      after.balance
      ≡ (if is_repaid_by partner_id o coupon then p.balance else p.balance +ℤ o.amount)

module _ (partner_id : String) (o : PendingIssue) (entry_id : String) (now : ℕ) (p : PartnerRecord)
    (listed : find_first (is_op o.op_id) p.pending_issues ≡ some o) (nonneg : pos 0 ≤ℤ o.amount)
    (solvent : pos 0 ≤ℤ p.balance)
    (first : is_applied (issue_refund_key o.op_id) p.applied ≡ false) where
  -- The store holds the partner, and neither the refund nor its entry.
  record Ready (w : Books) : Type 0 where
    partner : lookup partner_id w.partners ≡ some p
    unclaimed : lookup (partner_id, issue_refund_key o.op_id) w.claims ≡ none
    free : lookup (partner_id, entry_id) w.entries ≡ none

  abbrev refunded_partner : PartnerRecord
  refunded_partner =
      let q = charged_partner (issue_refund o.op_id o entry_id) p in
      record q { pending_issues = remove_first (is_op o.op_id) p.pending_issues }

  covered : ltb_ℤ (p.balance +ℤ o.amount) (pos 0) ≡ false
  covered = ground (arith, +ℤ_parts p.balance o.amount, nonneg, solvent)

  refund_pending_issue-ended :
      (w : Books)
      → Ready w
      → (refund_pending_issue partner_id o.op_id entry_id now w).1
        ≡ ended partner_id (issue_refund o.op_id o entry_id) now p refunded_partner w
  unfolding refund_pending_issue
  refund_pending_issue-ended w r =
      let m = issue_refund o.op_id o entry_id in
      rw
        (
          r.partner,
          listed,
          apply_ledger_made partner_id m (drop_issue o.op_id) now p refunded_partner w r.unclaimed
              r.free r.partner first covered refl,
        )
        refl

  refund-Repaired :
      (w : Books) (c : CouponRecord)
      → Ready w
      → lookup o.code w.coupons ≡ some c
      → is_repaid_by partner_id o c ≡ false
      → Repaired partner_id o p (refund_pending_issue partner_id o.op_id entry_id now w).1
  refund-Repaired w c r found other = rw (refund_pending_issue-ended w r) (record {
    coupon = c;
    after = refunded_partner;
    found = found;
    partner = lookup-insert_self partner_id refunded_partner w.partners;
    pending = refl;
    money = rw other refl;
  })

  confirm-Repaired :
      (w : Books) (c : CouponRecord)
      → Ready w
      → lookup o.code w.coupons ≡ some c
      → is_repaid_by partner_id o c ≡ true
      → Repaired partner_id o p (confirm_found partner_id o.op_id c w).1
  unfolding confirm_pending_issue
  confirm-Repaired w c r found own =
      rw (r.partner, listed)
        (record {
          coupon = c;
          after = confirmed_issue o.op_id (index_of c) p;
          found = found;
          partner =
              lookup-insert_self partner_id (confirmed_issue o.op_id (index_of c) p) w.partners;
          pending = refl;
          money = rw own refl;
        })

  reconcile_found-Repaired :
      (w : Books) (rec : Option CouponRecord)
      → lookup o.code w.coupons ≡ rec
      → Ready w
      → Repaired partner_id o p (reconcile_found partner_id o entry_id now rec w).1
  unfolding reconcile_absent create_coupon
  reconcile_found-Repaired w none at r =
      let grave = tombstone_of partner_id o now in
      rw at (
        refund-Repaired (put_coupon o.code grave w) grave
          (record { partner = r.partner; unclaimed = r.unclaimed; free = r.free })
          (lookup-insert_self o.code grave w.coupons) refl)
  reconcile_found-Repaired w (some c) at r = elim (Bool-cases (is_repaid_by partner_id o c)) [
    | inl own ↦ rw own (confirm-Repaired w c r at own)
    | inr other ↦ rw other (refund-Repaired w c r at other)
  ]

  -- A round of reconcile settles an issue that is a minute old and that its partner's record lists:
  -- the issue is no longer pending, and either its own coupon stands at its code and the money stays
  -- taken, or something else does and the amount is back on the balance. Asked of the store: amount
  -- and balance are not negative, no refund of the issue has been claimed or made, and the new
  -- entry's id is not in use.
  pub reconcile_issue-Repaired :
      (w : Books)
      → lookup partner_id w.partners ≡ some p
      → lookup (partner_id, issue_refund_key o.op_id) w.claims ≡ none
      → lookup (partner_id, entry_id) w.entries ≡ none
      → ltb (now - o.made_at) pending_stale_ms ≡ false
      → Repaired partner_id o p (reconcile_issue partner_id o entry_id now w).1
  unfolding reconcile_issue
  reconcile_issue-Repaired w partner unclaimed free stale = rw stale (
      reconcile_found-Repaired w (lookup o.code w.coupons) refl
        (record { partner = partner; unclaimed = unclaimed; free = free }))
