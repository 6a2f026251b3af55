-- ===== src/Partners/Reconcile.antt =====
-- The repair of pending issues in src/routes/partner-store.ts.
pub mod Repairs
use rozo_mpprouter.Base.{
  ℕ, ◌-◌, String, Bool, true, false, not, ◌&&◌, Option, none, some, ltb, if◌then◌else◌,
}
use rozo_mpprouter.Base.Keys.{string_eq, pair_eq}
use rozo_mpprouter.Base.Dict.{lookup}
use rozo_mpprouter.Partners.Types.{
  PendingIssue, CouponIndexEntry, void, CouponRecord, Attempt, gave, Books, is_text,
  pending_stale_ms,
}
use rozo_mpprouter.Partners.Issue.{confirm_pending_issue, create_coupon, refund_pending_issue}

-- A coupon that this debit paid for.
abbrev pub is_issue_of : String → String → CouponRecord → Bool
is_issue_of partner_id op_id rec =
    is_text rec.partner_id partner_id && is_text rec.issue_ledger_id op_id

abbrev pub tombstone_of : String → PendingIssue → ℕ → CouponRecord
tombstone_of partner_id o now = record {
  code = o.code;
  amount = o.amount;
  status = void;
  issued_at = now;
  expires_at = now;
  payment_proof = none;
  redeeming_at = none;
  attempt_id = none;
  pl_id = none;
  redeemed_at = none;
  failure_reason = some "abandoned issue — tombstoned by reconcile";
  invoice_key = none;
  paid_amount = none;
  partner_id = some partner_id;
  issue_ledger_id = some o.op_id;
  refund_ledger_id = none;
  tombstone = true;
  refund_op_id = none;
  refund_pending = false;
}

abbrev pub index_of : CouponRecord → CouponIndexEntry
index_of rec = record {
  code = rec.code;
  amount = rec.amount;
  credits = none;
  issued_at = rec.issued_at;
  expires_at = rec.expires_at;
}

abbrev pub confirm_found : String → String → CouponRecord → Books → Attempt (Unit {0}) × Books
confirm_found partner_id op_id rec w =
    (gave tt, (confirm_pending_issue partner_id op_id (index_of rec) w).1)

-- After a lost race for the key.
abbrev pub reconcile_lost :
    String → PendingIssue → String → ℕ → Option CouponRecord → Books → Attempt (Unit {0}) × Books
reconcile_lost partner_id o entry_id now none w = (gave tt, w)
reconcile_lost partner_id o entry_id now (some rec) w =
    if rec.tombstone
    then refund_pending_issue partner_id o.op_id entry_id now w
    else (if is_issue_of partner_id o.op_id rec
        then confirm_found partner_id o.op_id rec w
        else (gave tt, w))

-- The coupon key looked empty: it is claimed before the refund.
unfoldable pub reconcile_absent :
    String → PendingIssue → String → ℕ → Books → Attempt (Unit {0}) × Books
reconcile_absent partner_id o entry_id now w =
    let (claimed, t) = create_coupon o.code (tombstone_of partner_id o now) w in
    if claimed
    then refund_pending_issue partner_id o.op_id entry_id now t
    else reconcile_lost partner_id o entry_id now (lookup o.code t.coupons) t

abbrev pub reconcile_found :
    String → PendingIssue → String → ℕ → Option CouponRecord → Books → Attempt (Unit {0}) × Books
reconcile_found partner_id o entry_id now none w = reconcile_absent partner_id o entry_id now w
reconcile_found partner_id o entry_id now (some rec) w =
    if not rec.tombstone && is_issue_of partner_id o.op_id rec
    then confirm_found partner_id o.op_id rec w
    else refund_pending_issue partner_id o.op_id entry_id now w

-- The body of `reconcilePending`'s loop over the pending issues.
unfoldable pub reconcile_issue :
    String → PendingIssue → String → ℕ → Books → Attempt (Unit {0}) × Books
reconcile_issue partner_id o entry_id now w =
    if ltb (now - o.made_at) pending_stale_ms
    then (gave tt, w)
    else reconcile_found partner_id o entry_id now (lookup o.code w.coupons) w
