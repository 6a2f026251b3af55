-- ===== src/Partners/Run/Backed.antt =====
-- What any interleaving of the workers of src/routes/partner-store.ts leaves in the books.
use rozo_mpprouter.Base.{
  String, ◌≡◌, sym, ap, subst, ◌∙◌, inl, inr, true, false, Option, none, some, arith, Option-cases,
  is_some,
}
use rozo_mpprouter.Base.Int.{pos, ◌-ℤ◌}
use rozo_mpprouter.Base.Keys.{string_eq, pair_eq}
use rozo_mpprouter.Base.Dict.{lookup}
use rozo_mpprouter.Partners.Types.{LedgerEntry, CouponRecord, Books, is_text}
use rozo_mpprouter.Partners.Ledger.Begun.{IsBooked}
use rozo_mpprouter.Partners.Issue.{IssueOp, issue_refund_key}
use rozo_mpprouter.Partners.Run.{World, created}
use rozo_mpprouter.Partners.Run.Sound.{op_at, Paid, is_own, IsSound}
use rozo_mpprouter.Base.{List}
use rozo_mpprouter.Partners.Types.{issue_hold}
use rozo_mpprouter.Partners.Run.{Event, run_workers, nothing}
use rozo_mpprouter.Partners.Run.Events.{nothing-IsSound, run_workers-IsSound}

-- Where each call of applyLedger runs to its end, each balance is the sum of the entries that are
-- settled on it, and none is below zero.
pub run_workers-IsBooked : (es : List Event) → IsBooked (run_workers es nothing).books
run_workers-IsBooked es = (run_workers-IsSound es nothing nothing-IsSound).booked

-- The debit behind a coupon.
pub record IsBacked (w : Books) (code : String) (c : CouponRecord) (partner_id : String)
    : Type 0 where
  pub entry_id : String
  pub entry : LedgerEntry
  pub found : lookup (partner_id, entry_id) w.entries ≡ some entry
  pub kind : entry.kind ≡ issue_hold
  pub delta : entry.delta ≡ pos 0 -ℤ c.amount
  pub ref : entry.ref ≡ some code
  pub is_settled : is_some entry.balance_after ≡ true
  pub op_id : String
  pub by_op : c.issue_ledger_id ≡ some op_id
  pub not_refunded : lookup (partner_id, issue_refund_key op_id) w.claims ≡ none

is_text_self : (o : Option String) (t : String) → o ≡ some t → is_text o t ≡ true
is_text_self none t h = absurd (cc h)
is_text_self (some s) t h = let same : s ≡ t = cc h in (string_eq.beq_iff s t).1 same

own_true :
    (i : IssueOp) (op_id : String) (c : CouponRecord)
    → c.tombstone ≡ false
    → c.partner_id ≡ some i.partner_id
    → c.issue_ledger_id ≡ some op_id
    → is_own i op_id c ≡ true
own_true i op_id c live own by_op = ground (
  arith,
  live,
  is_text_self c.partner_id i.partner_id own,
  is_text_self c.issue_ledger_id op_id by_op,
)

-- The refund of an issue whose coupon is live has not begun.
unrefunded :
    (s : World) (code : String) (c : CouponRecord) (partner_id : String)
    → IsSound s
    → lookup code s.books.coupons ≡ some c
    → c.tombstone ≡ false
    → c.partner_id ≡ some partner_id
    → (p : Paid s.ops code c partner_id)
    → lookup (partner_id, issue_refund_key p.op_id) s.books.claims ≡ none
unrefunded s code c partner_id v at live own p =
    elim (Option-cases (lookup (partner_id, issue_refund_key p.op_id) s.books.claims)) [
      | inl clear ↦ clear
      | inr (claim, begun) ↦
          let r = v.refunded partner_id p.op_id claim begun in
          let both : op_at r.issue r.stage ≡ op_at p.issue created = sym r.held ∙ p.held in
          let issue : r.issue ≡ p.issue = cc both in
          let code_of : r.issue.code ≡ code = ap (λ i. i.code) issue ∙ p.at_code in
          let found : lookup code s.books.coupons ≡ some r.taken.coupon =
            subst (λ k. lookup k s.books.coupons ≡ some r.taken.coupon) code_of r.taken.found in
          let same : r.taken.coupon ≡ c = cc (found, at) in
          let other : is_own r.issue p.op_id c ≡ false =
            subst (λ d. is_own r.issue p.op_id d ≡ false) same r.taken.other in
          absurd
            (cc (other, own_true r.issue p.op_id c live (own ∙ ap some (sym r.partner)) p.by_op))
    ]

-- After any interleaving of top-ups, issues, repairs and voids, where a worker may stop between the
-- steps and a call of applyLedger runs whole: a partner's coupon that is no tombstone has a settled
-- debit of its amount under its code, and no refund of that issue has begun.
pub run_workers-IsBacked :
    (es : List Event) (code : String) (c : CouponRecord) (partner_id : String)
    → lookup code (run_workers es nothing).books.coupons ≡ some c
    → c.tombstone ≡ false
    → c.partner_id ≡ some partner_id
    → IsBacked (run_workers es nothing).books code c partner_id
run_workers-IsBacked es code c partner_id at live own =
    let s = run_workers es nothing in
    let v = run_workers-IsSound es nothing nothing-IsSound in
    let p = v.paid code c partner_id at live own in
    let r = v.recorded p.op_id p.issue created p.held in
    record {
      entry_id = p.issue.entry_id;
      entry = r.entry;
      found =
          subst (λ q. lookup (q, p.issue.entry_id) s.books.entries ≡ some r.entry) p.partner
            r.found;
      kind = r.kind;
      delta = r.delta ∙ ap (λ n. pos 0 -ℤ n) (sym p.amount);
      ref = r.ref ∙ ap some p.at_code;
      is_settled = r.is_settled;
      op_id = p.op_id;
      by_op = p.by_op;
      not_refunded = unrefunded s code c partner_id v at live own p;
    }
