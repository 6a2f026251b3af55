-- ===== src/Partners/Request/Delivered.antt =====
-- What a request for a coupon reports (src/routes/partner-store.ts).
use rozo_mpprouter.Base.{
  ℕ, String, ◌≡◌, refl, ap, ◌∙◌, inl, inr, true, false, Option, none, some, List, [], ◌∷◌, take,
  arith, Bool-cases, is_some,
}
use rozo_mpprouter.Base.Int.{pos, leb_ℤ}
use rozo_mpprouter.Base.Keys.{string_eq, pair_eq, beq_refl}
use rozo_mpprouter.Base.Dict.{lookup, insert, lookup-insert_self}
use rozo_mpprouter.Partners.Types.{
  PartnerRecord, CouponIndexEntry, CouponRecord, Attempt, threw, gave, Books, is_text,
}
use rozo_mpprouter.Partners.Ledger.{Outcome}
use rozo_mpprouter.Partners.Issue.{
  IssueOp, issued_coupon, create_coupon, confirm_pending_issue, index_entry, debit_issue,
  release_idempotency, issue_key, refund_pending_issue,
}
use rozo_mpprouter.Partners.Request.{
  and_then, reconcile_pending, IssueResult, is_usable, replay_coupon, replay_code, find_over,
  issued_code, find_issued_by_client_key, Draw, drawn, after_create, or_in_flight, after_debit,
  issue_attempts, or_issue, issue_partner_coupon,
}

-- The coupon that a result tells of: it stands in the store, alive and the partner's own.
pub record Stands (partner_id : String) (r : IssueResult) (t : Books) : Type 0 where
  pub key : String
  pub coupon : CouponRecord
  pub found : lookup key t.coupons ≡ some coupon
  pub live : coupon.tombstone ≡ false
  pub own : is_text coupon.partner_id partner_id ≡ true
  pub code : r.code ≡ coupon.code
  pub amount : r.amount ≡ coupon.amount
  pub expires_at : r.expires_at ≡ coupon.expires_at

abbrev pub IsDelivered : String → Attempt IssueResult × Books → Type 0
IsDelivered partner_id (threw e, w) = Unit {0}
IsDelivered partner_id (gave r, w) = Stands partner_id r w

abbrev pub IsReplay : String → Option IssueResult × Books → Type 0
IsReplay partner_id (none, w) = Unit {0}
IsReplay partner_id (some r, w) = Stands partner_id r w

is_usable_parts :
    (partner_id : String) (rec : CouponRecord)
    → is_usable partner_id rec ≡ true
    → (rec.tombstone ≡ false) × (is_text rec.partner_id partner_id ≡ true)
is_usable_parts partner_id rec h = ground arith

replay_coupon-IsReplay :
    (partner_id client_key : String) (now : ℕ) (p : PartnerRecord) (key : String)
    (rec : Option CouponRecord) (w : Books)
    → lookup key w.coupons ≡ rec
    → IsReplay partner_id (replay_coupon partner_id client_key now p rec w)
replay_coupon-IsReplay partner_id client_key now p key none w at = tt
replay_coupon-IsReplay partner_id client_key now p key (some rec) w at =
    elim (Bool-cases (is_usable partner_id rec)) [
      | inl good ↦ rw good (record {
        key = key;
        coupon = rec;
        found = at;
        live = (is_usable_parts partner_id rec good).0;
        own = (is_usable_parts partner_id rec good).1;
        code = refl;
        amount = refl;
        expires_at = refl;
      })
      | inr bad ↦ rw bad tt
    ]

replay_code-IsReplay :
    (partner_id client_key : String) (now : ℕ) (p : PartnerRecord) (code : Option String)
    (w : Books)
    → IsReplay partner_id (replay_code partner_id client_key now p code w)
replay_code-IsReplay partner_id client_key now p none w = tt
replay_code-IsReplay partner_id client_key now p (some code) w =
    replay_coupon-IsReplay partner_id client_key now p code (lookup code w.coupons) w refl

find_over-IsReplay :
    (partner_id client_key : String) (now : ℕ) (p : Option PartnerRecord) (w : Books)
    → IsReplay partner_id (find_over partner_id client_key now p w)
find_over-IsReplay partner_id client_key now none w = tt
find_over-IsReplay partner_id client_key now (some p) w =
    replay_code-IsReplay partner_id client_key now p
      (issued_code client_key (lookup (partner_id, issue_key client_key) w.claims) p) w

pub find_issued_by_client_key-IsReplay :
    (partner_id client_key : String) (now : ℕ) (w : Books)
    → IsReplay partner_id (find_issued_by_client_key partner_id client_key now w)
unfolding find_issued_by_client_key
find_issued_by_client_key-IsReplay partner_id client_key now w =
    find_over-IsReplay partner_id client_key now (lookup partner_id w.partners) w

-- The confirmation changes no coupon.
confirm_pending_issue_coupons :
    (partner_id op_id : String) (entry : CouponIndexEntry) (w : Books)
    → (confirm_pending_issue partner_id op_id entry w).1.coupons ≡ w.coupons
unfolding confirm_pending_issue
confirm_pending_issue_coupons partner_id op_id entry w = ground arith

or_in_flight-IsDelivered :
    (partner_id : String) (x : Option IssueResult × Books)
    → IsReplay partner_id x
    → IsDelivered partner_id (or_in_flight x)
or_in_flight-IsDelivered partner_id (none, w) h = tt
or_in_flight-IsDelivered partner_id (some r, w) h = h

and_then-IsDelivered :
    (partner_id : String) (next : Books → Attempt IssueResult × Books)
    (x : Attempt (Unit {0}) × Books)
    → ((t : Books) → IsDelivered partner_id (next t))
    → IsDelivered partner_id (and_then next x)
and_then-IsDelivered partner_id next (threw e, w) each = tt
and_then-IsDelivered partner_id next (gave done, w) each = each w

module _ (i : IssueOp) (d : Draw) (retry : Books → Attempt IssueResult × Books)
    (each : (t : Books) → IsDelivered i.partner_id (retry t)) where
  after_create-IsDelivered :
      (partner : Option PartnerRecord) (w : Books)
      → IsDelivered i.partner_id (
          after_create i d partner retry
            (create_coupon d.code (issued_coupon d.op_id (drawn i d) d.made_at) w))
  unfolding create_coupon
  after_create-IsDelivered partner w =
      let rec = issued_coupon d.op_id (drawn i d) d.made_at in
      elim (Bool-cases (is_some (lookup d.code w.coupons))) [
        | inl taken ↦ rw taken (
            and_then-IsDelivered i.partner_id _
              (refund_pending_issue i.partner_id d.op_id d.refund_entry_id d.made_at w)
              (λ t. each (release_idempotency i.partner_id (issue_key i.client_key) d.made_at t)))
        | inr open_key ↦ rw open_key (record {
          key = d.code;
          coupon = rec;
          found =
              ap (lookup d.code) (
                confirm_pending_issue_coupons i.partner_id d.op_id
                  (index_entry (drawn i d) d.made_at)
                  (record w { coupons = insert d.code rec w.coupons }))
              ∙ lookup-insert_self d.code rec w.coupons;
          live = refl;
          own = beq_refl i.partner_id;
          code = refl;
          amount = refl;
          expires_at = refl;
        })
      ]

  after_debit-IsDelivered :
      (x : Attempt Outcome × Books) → IsDelivered i.partner_id (after_debit i d retry x)
  after_debit-IsDelivered (threw e, w) = tt
  after_debit-IsDelivered (gave outcome, w) = elim (Bool-cases outcome.applied) [
    | inl new ↦ rw new (after_create-IsDelivered outcome.partner w)
    | inr old ↦ rw old (
        or_in_flight-IsDelivered i.partner_id _
          (find_issued_by_client_key-IsReplay i.partner_id i.client_key d.made_at w))
  ]

pub issue_attempts-IsDelivered :
    (i : IssueOp) (ds : List Draw) (w : Books) → IsDelivered i.partner_id (issue_attempts i ds w)
unfolding issue_attempts
issue_attempts-IsDelivered i [] w = tt
issue_attempts-IsDelivered i (d ∷ ds) w =
    after_debit-IsDelivered i d (issue_attempts i ds) (issue_attempts-IsDelivered i ds)
      (debit_issue d.op_id (drawn i d) d.made_at w)

or_issue-IsDelivered :
    (i : IssueOp) (ds : List Draw) (x : Option IssueResult × Books)
    → IsReplay i.partner_id x
    → IsDelivered i.partner_id (or_issue i ds x)
or_issue-IsDelivered i ds (some r, w) h = h
or_issue-IsDelivered i ds (none, w) h = issue_attempts-IsDelivered i (take 10 ds) w

-- Whatever the store holds, a result of a request tells of a coupon that stands in the store at the
-- end: it is no tombstone, it is the partner's, and its code, amount and expiry are those reported.
pub issue_partner_coupon-IsDelivered :
    (i : IssueOp) (ds : List Draw) (entry_of : String → String) (now : ℕ) (w : Books)
    → IsDelivered i.partner_id (issue_partner_coupon i ds entry_of now w)
unfolding issue_partner_coupon
issue_partner_coupon-IsDelivered i ds entry_of now w = elim (Bool-cases (leb_ℤ i.amount (pos 0))) [
  | inl bad ↦ rw bad tt
  | inr good ↦ rw good (
      and_then-IsDelivered i.partner_id _ (reconcile_pending i.partner_id entry_of now w) (λ t.
        or_issue-IsDelivered i ds _
          (find_issued_by_client_key-IsReplay i.partner_id i.client_key now t)))
]
