-- ===== src/Partners/Issue.antt =====
-- The issue of a partner's coupon and its repair, in src/routes/partner-store.ts. Identifiers drawn
-- at random are arguments.
use rozo_mpprouter.Base.{
  ℕ, ◌+◌, ◌*◌, String, Bool, true, false, Option, none, some, List, ◌∷◌, leb, length, is_some,
  or_else, if◌then◌else◌,
}
use rozo_mpprouter.Base.Int.{ℤ, pos, ◌-ℤ◌, leb_ℤ}
use rozo_mpprouter.Base.Keys.{◌=?◌, string_eq, pair_eq}
use rozo_mpprouter.Base.Dict.{lookup, insert}
use rozo_mpprouter.Partners.Types.{
  void_refund, issue_hold, topup, PendingIssue, CouponIndexEntry, IdemKey, PartnerRecord, issued,
  CouponRecord, released, partner_suspended, too_many_pending, insufficient_balance, Attempt, threw,
  gave, without_reply, Books, push_bounded, remove_first, find_first, max_pending_ops,
  max_coupon_index,
}
use rozo_mpprouter.Partners.Ledger.{
  Mutation, Mutate, Outcome, put_claim, put_partner, is_applied, apply_ledger,
}

abbrev pub topup_key : String → IdemKey
topup_key proof = ("topup", proof)

abbrev pub issue_key : String → IdemKey
issue_key client_key = ("issue", client_key)

abbrev pub issue_refund_key : String → IdemKey
issue_refund_key op_id = ("issue_refund", op_id)

abbrev pub refund_key : String → IdemKey
refund_key refund_op_id = ("refund", refund_op_id)

abbrev pub no_change : Mutate
no_change p = gave p

abbrev pub topup_mutation : ℤ → String → Option String → Option String → String → Mutation
topup_mutation amount proof source operator entry_id = record {
  kind = topup;
  delta = amount;
  ref = some proof;
  source_address = source;
  operator = some (or_else operator "admin");
  entry_id = entry_id;
  key = topup_key proof;
  coupon_code = none;
}

-- `topupPartner`, of a partner that its e-mail has led to.
unfoldable pub topup_partner :
    String
    → ℤ
    → String
    → Option String
    → Option String
    → String
    → ℕ
    → Books
    → Attempt Outcome × Books
topup_partner partner_id amount proof source operator entry_id now w =
    if leb_ℤ amount (pos 0)
    then (threw insufficient_balance, w)
    else apply_ledger partner_id (topup_mutation amount proof source operator entry_id) no_change
        now w

-- What the issuing worker keeps of one attempt.
pub record IssueOp : Type 0 where
  pub partner_id : String
  pub client_key : String
  pub code : String
  pub amount : ℤ
  pub credits : Option String
  pub expires_in_minutes : ℕ
  pub note : Option String
  pub entry_id : String

abbrev pub pending_issue : String → IssueOp → ℕ → PendingIssue
pending_issue op_id i now = record {
  op_id = op_id;
  client_key = i.client_key;
  code = i.code;
  amount = i.amount;
  made_at = now;
}

abbrev pub hold_issue : String → IssueOp → ℕ → Mutate
hold_issue op_id i now p =
    if p.suspended
    then threw partner_suspended
    else (if leb max_pending_ops (length p.pending_issues)
        then threw too_many_pending
        else gave (record p { pending_issues = pending_issue op_id i now ∷ p.pending_issues }))

abbrev pub hold_mutation : IssueOp → Mutation
hold_mutation i = record {
  kind = issue_hold;
  delta = pos 0 -ℤ i.amount;
  ref = some i.code;
  source_address = none;
  operator = none;
  entry_id = i.entry_id;
  key = issue_key i.client_key;
  coupon_code = some i.code;
}

-- Step 1: the debit and the pending record, in one update.
unfoldable pub debit_issue : String → IssueOp → ℕ → Books → Attempt Outcome × Books
debit_issue op_id i now w =
    apply_ledger i.partner_id (hold_mutation i) (hold_issue op_id i now) now w

abbrev pub issued_coupon : String → IssueOp → ℕ → CouponRecord
issued_coupon op_id i now = record {
  code = i.code;
  amount = i.amount;
  status = issued;
  issued_at = now;
  expires_at = now + i.expires_in_minutes * 60000;
  payment_proof = i.note;
  redeeming_at = none;
  attempt_id = none;
  pl_id = none;
  redeemed_at = none;
  failure_reason = none;
  invoice_key = none;
  paid_amount = none;
  partner_id = some i.partner_id;
  issue_ledger_id = some op_id;
  refund_ledger_id = none;
  tombstone = false;
  refund_op_id = none;
  refund_pending = false;
}

-- Step 2, and the tombstone's write: the coupon key is written when it is absent.
unfoldable pub create_coupon : String → CouponRecord → Books → Bool × Books
create_coupon code rec w =
    if is_some (lookup code w.coupons)
    then (false, w)
    else (true, record w { coupons = insert code rec w.coupons })

abbrev pub index_entry : IssueOp → ℕ → CouponIndexEntry
index_entry i now = record {
  code = i.code;
  amount = i.amount;
  credits = i.credits;
  issued_at = now;
  expires_at = now + i.expires_in_minutes * 60000;
}

abbrev pub is_op : String → PendingIssue → Bool
is_op op_id o = o.op_id =? op_id

abbrev pub indexed : CouponIndexEntry → List CouponIndexEntry → List CouponIndexEntry
indexed entry index =
    if is_some (find_first (λ c. c.code =? entry.code) index)
    then index
    else push_bounded index entry max_coupon_index

abbrev pub confirmed_issue : String → CouponIndexEntry → PartnerRecord → PartnerRecord
confirmed_issue op_id entry p = record p {
  pending_issues = remove_first (is_op op_id) p.pending_issues;
  coupon_index = indexed entry p.coupon_index;
}

abbrev pub confirm_over :
    String → String → CouponIndexEntry → Option PartnerRecord → Books → Option PartnerRecord × Books
confirm_over partner_id op_id entry none w = (none, w)
confirm_over partner_id op_id entry (some p) w =
    if is_some (find_first (is_op op_id) p.pending_issues)
    then (
      some (confirmed_issue op_id entry p),
      put_partner partner_id (confirmed_issue op_id entry p) w,
    )
    else (some p, w)

-- Step 3.
unfoldable pub confirm_pending_issue :
    String → String → CouponIndexEntry → Books → Option PartnerRecord × Books
confirm_pending_issue partner_id op_id entry w =
    confirm_over partner_id op_id entry (lookup partner_id w.partners) w

abbrev pub drop_issue : String → Mutate
drop_issue op_id p =
    gave (record p { pending_issues = remove_first (is_op op_id) p.pending_issues })

abbrev pub issue_refund : String → PendingIssue → String → Mutation
issue_refund op_id o entry_id = record {
  kind = void_refund;
  delta = o.amount;
  ref = some o.code;
  source_address = none;
  operator = none;
  entry_id = entry_id;
  key = issue_refund_key op_id;
  coupon_code = none;
}

abbrev pub pending_of : String → Option PartnerRecord → Option PendingIssue
pending_of op_id none = none
pending_of op_id (some p) = find_first (is_op op_id) p.pending_issues

abbrev pub refund_over :
    String → String → Option PendingIssue → String → ℕ → Books → Attempt (Unit {0}) × Books
refund_over partner_id op_id none entry_id now w = (gave tt, w)
refund_over partner_id op_id (some o) entry_id now w =
    without_reply (apply_ledger partner_id (issue_refund op_id o entry_id) (drop_issue op_id) now w)

-- The reason that the entry's `ref` ends in is left out.
unfoldable pub refund_pending_issue :
    String → String → String → ℕ → Books → Attempt (Unit {0}) × Books
refund_pending_issue partner_id op_id entry_id now w =
    refund_over partner_id op_id (pending_of op_id (lookup partner_id w.partners)) entry_id now w

abbrev pub release_over : String → IdemKey → Option PartnerRecord → Books → Books
release_over partner_id key none w = w
release_over partner_id key (some p) w =
    if is_applied key p.applied
    then put_partner partner_id (record p { applied = remove_first (λ a. a.k =? key) p.applied }) w
    else w

unfoldable pub release_idempotency : String → IdemKey → ℕ → Books → Books
release_idempotency partner_id key now w =
    release_over partner_id key (lookup partner_id w.partners) (
      put_claim partner_id key
        (record { state = released; made_at = now; entry = none; coupon = none }) w)
