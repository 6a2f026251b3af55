-- ===== src/Partners/Void.antt =====
-- The void of an unused coupon and the credit of its face value, in src/routes/partner-store.ts.
use rozo_mpprouter.Base.{
  ℕ, String, Bool, true, false, Option, none, some, ◌∷◌, leb, length, is_some, or_else,
  if◌then◌else◌,
}
use rozo_mpprouter.Base.Int.{ℤ}
use rozo_mpprouter.Base.Keys.{◌=?◌, string_eq}
use rozo_mpprouter.Base.Dict.{lookup, insert}
use rozo_mpprouter.Partners.Types.{
  LedgerKind, LedgerEntry, void_refund, PendingRefund, PartnerRecord, CouponStatus, issued, void,
  CouponRecord, partner_not_found, coupon_not_found, coupon_not_refundable, not_your_coupon,
  too_many_pending, Attempt, threw, gave, without_reply, Books, is_text, remove_first, find_first,
  max_pending_ops,
}
use rozo_mpprouter.Partners.Ledger.{Mutation, Mutate, Outcome, put_partner, apply_ledger}
use rozo_mpprouter.Partners.Issue.{refund_key}

abbrev pub put_coupon : String → CouponRecord → Books → Books
put_coupon code rec w = record w { coupons = insert code rec w.coupons }

abbrev pub is_refund_of : String → PendingRefund → Bool
is_refund_of code r = r.code =? code

abbrev pub intended : PendingRefund → PartnerRecord → PartnerRecord
intended r p = record p { pending_refunds = r ∷ p.pending_refunds }

abbrev pub intend_over :
    String → PendingRefund → Option PartnerRecord → Books → Attempt (Unit {0}) × Books
intend_over partner_id r none w = (threw partner_not_found, w)
intend_over partner_id r (some p) w =
    if is_some (find_first (is_refund_of r.code) p.pending_refunds)
    then (gave tt, w)
    else (if leb max_pending_ops (length p.pending_refunds)
        then (threw too_many_pending, w)
        else (gave tt, put_partner partner_id (intended r p) w))

-- Step 1: the intent on the partner's record.
unfoldable pub record_intent : String → PendingRefund → Books → Attempt (Unit {0}) × Books
record_intent partner_id r w = intend_over partner_id r (lookup partner_id w.partners) w

-- `outcome` of step 2: won, or the `refundOpId` that the coupon carries.
pub data VoidReply : Type 0 where
  won : VoidReply
  lost : Option String → VoidReply

abbrev pub is_issued : CouponStatus → Bool
is_issued issued = true
is_issued other = false

abbrev pub voided : String → CouponRecord → CouponRecord
voided refund_op_id rec = record rec {
  status = void;
  refund_op_id = some refund_op_id;
  refund_pending = true;
  attempt_id = none;
}

abbrev pub win_over : String → String → String → Option CouponRecord → Books → VoidReply × Books
win_over partner_id code refund_op_id none w = (lost none, w)
win_over partner_id code refund_op_id (some rec) w =
    if rec.tombstone
    then (lost none, w)
    else (if is_text rec.partner_id partner_id
        then (if is_issued rec.status
            then (won, put_coupon code (voided refund_op_id rec) w)
            else (lost rec.refund_op_id, w))
        else (lost none, w))

-- Step 2: only an issued coupon is voided.
unfoldable pub win_void : String → String → String → Books → VoidReply × Books
win_void partner_id code refund_op_id w =
    win_over partner_id code refund_op_id (lookup code w.coupons) w

abbrev pub undone : String → PartnerRecord → PartnerRecord
undone code p = record p { pending_refunds = remove_first (is_refund_of code) p.pending_refunds }

abbrev pub drop_refund : String → Mutate
drop_refund code p = gave (undone code p)

abbrev pub drop_over : String → String → Option PartnerRecord → Books → Books
drop_over partner_id code none w = w
drop_over partner_id code (some p) w =
    if is_some (find_first (is_refund_of code) p.pending_refunds)
    then put_partner partner_id (undone code p) w
    else w

unfoldable pub drop_pending_refund : String → String → Books → Books
drop_pending_refund partner_id code w = drop_over partner_id code (lookup partner_id w.partners) w

abbrev pub kind_of_refund : Option PendingRefund → LedgerKind
kind_of_refund none = void_refund
kind_of_refund (some r) = r.kind

abbrev pub refund_kind : String → Option PartnerRecord → LedgerKind
refund_kind code none = void_refund
refund_kind code (some p) = kind_of_refund (find_first (is_refund_of code) p.pending_refunds)

abbrev pub refund_credit : String → CouponRecord → String → LedgerKind → String → Mutation
refund_credit code rec refund_op_id kind entry_id = record {
  kind = kind;
  delta = rec.amount;
  ref = some code;
  source_address = none;
  operator = none;
  entry_id = entry_id;
  key = refund_key refund_op_id;
  coupon_code = none;
}

-- `res.entry?.id ?? r.refundLedgerId ?? entryId`
abbrev pub refund_entry : Option LedgerEntry → Option String → String → Option String
refund_entry (some entry) old entry_id = some entry.id
refund_entry none old entry_id = some (or_else old entry_id)

abbrev pub mark_over :
    String → String → Option LedgerEntry → String → Option CouponRecord → Books → Books
mark_over code refund_op_id entry entry_id none w = w
mark_over code refund_op_id entry entry_id (some rec) w =
    if is_text rec.refund_op_id refund_op_id
    then put_coupon code
        (record rec {
          refund_pending = false;
          refund_ledger_id = refund_entry entry rec.refund_ledger_id entry_id;
        })
        w
    else w

-- The coupon remembers the entry of its credit.
unfoldable pub mark_refunded : String → String → Option LedgerEntry → String → Books → Books
mark_refunded code refund_op_id entry entry_id w =
    mark_over code refund_op_id entry entry_id (lookup code w.coupons) w

-- `refundedAtomic` of a settled refund; the balance that is returned with it is that of the outcome.
abbrev pub after_credit :
    String → String → String → ℤ → Attempt Outcome × Books → Attempt (Option ℤ) × Books
after_credit code refund_op_id entry_id amount (threw e, w) = (threw e, w)
after_credit code refund_op_id entry_id amount (gave outcome, w) =
    (gave (some amount), mark_refunded code refund_op_id outcome.entry entry_id w)

abbrev pub settle_found :
    String → String → String → String → ℕ → Option CouponRecord → Books → Attempt (Option ℤ) × Books
settle_found partner_id code refund_op_id entry_id now none w = (gave none, w)
settle_found partner_id code refund_op_id entry_id now (some rec) w =
    if is_text rec.refund_op_id refund_op_id
    then after_credit code refund_op_id entry_id rec.amount (
        apply_ledger partner_id
          (refund_credit code rec refund_op_id (refund_kind code (lookup partner_id w.partners))
            entry_id)
          (drop_refund code) now w)
    else (gave none, w)

-- `settlePendingRefundById`
unfoldable pub settle_refund :
    String → String → String → String → ℕ → Books → Attempt (Option ℤ) × Books
settle_refund partner_id code refund_op_id entry_id now w =
    settle_found partner_id code refund_op_id entry_id now (lookup code w.coupons) w

-- The `refundOpId` of a void coupon.
abbrev pub owed_of_status : CouponStatus → Option String → Option String
owed_of_status void op = op
owed_of_status other op = none

abbrev pub owed : Option CouponRecord → Option String
owed none = none
owed (some rec) = owed_of_status rec.status rec.refund_op_id

abbrev pub settle_owed :
    String → String → String → ℕ → Option String → Books → Attempt (Unit {0}) × Books
settle_owed partner_id code entry_id now none w = (gave tt, drop_pending_refund partner_id code w)
settle_owed partner_id code entry_id now (some op) w =
    without_reply (settle_refund partner_id code op entry_id now w)

-- `settlePendingRefund`, the body of `reconcilePending`'s loop over the refunds.
unfoldable pub reconcile_refund : String → String → String → ℕ → Books → Attempt (Unit {0}) × Books
reconcile_refund partner_id code entry_id now w =
    settle_owed partner_id code entry_id now (owed (lookup code w.coupons)) w

abbrev pub not_settled : String → String → Attempt (Option ℤ) × Books → Attempt ℤ × Books
not_settled partner_id code (threw e, w) = (threw e, w)
not_settled partner_id code (gave (some amount), w) = (gave amount, w)
not_settled partner_id code (gave none, w) =
    (threw coupon_not_refundable, drop_pending_refund partner_id code w)

abbrev pub settled_or_thrown : Attempt (Option ℤ) × Books → Attempt ℤ × Books
settled_or_thrown (threw e, w) = (threw e, w)
settled_or_thrown (gave (some amount), w) = (gave amount, w)
settled_or_thrown (gave none, w) = (threw coupon_not_refundable, w)

-- Step 3, on the reply of step 2.
abbrev pub after_win : String → String → String → String → ℕ → VoidReply × Books → Attempt ℤ × Books
after_win partner_id code refund_op_id entry_id now (won, w) =
    settled_or_thrown (settle_refund partner_id code refund_op_id entry_id now w)
after_win partner_id code refund_op_id entry_id now (lost (some op), w) =
    not_settled partner_id code (settle_refund partner_id code op entry_id now w)
after_win partner_id code refund_op_id entry_id now (lost none, w) =
    (threw coupon_not_refundable, drop_pending_refund partner_id code w)

abbrev pub after_intent :
    String → String → String → String → ℕ → Attempt (Unit {0}) × Books → Attempt ℤ × Books
after_intent partner_id code refund_op_id entry_id now (threw e, w) = (threw e, w)
after_intent partner_id code refund_op_id entry_id now (gave done, w) =
    after_win partner_id code refund_op_id entry_id now (win_void partner_id code refund_op_id w)

abbrev pub refund_intent : String → CouponRecord → LedgerKind → String → ℕ → PendingRefund
refund_intent code rec kind refund_op_id now = record {
  refund_op_id = refund_op_id;
  code = code;
  amount = rec.amount;
  kind = kind;
  made_at = now;
}

abbrev pub void_over :
    String
    → String
    → LedgerKind
    → String
    → String
    → ℕ
    → Option CouponRecord
    → Books
    → Attempt ℤ × Books
void_over partner_id code kind refund_op_id entry_id now none w = (threw coupon_not_found, w)
void_over partner_id code kind refund_op_id entry_id now (some rec) w =
    if rec.tombstone
    then (threw coupon_not_found, w)
    else (if is_text rec.partner_id partner_id
        then after_intent partner_id code refund_op_id entry_id now
            (record_intent partner_id (refund_intent code rec kind refund_op_id now) w)
        else (threw not_your_coupon, w))

unfoldable pub void_partner_coupon :
    String → String → LedgerKind → String → String → ℕ → Books → Attempt ℤ × Books
void_partner_coupon partner_id code kind refund_op_id entry_id now w =
    void_over partner_id code kind refund_op_id entry_id now (lookup code w.coupons) w
