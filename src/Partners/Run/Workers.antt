-- ===== src/Partners/Run/Workers.antt =====
-- The creating and the reconciling worker of src/routes/partner-store.ts.
use rozo_mpprouter.Base.{
  ℕ, String, ◌≡◌, refl, sym, ap, subst, ◌∙◌, ◌⊎◌, inl, inr, Bool, true, false, Option, none, some,
  arith, Bool-cases, Option-cases,
}
use rozo_mpprouter.Base.Keys.{string_eq, pair_eq}
use rozo_mpprouter.Base.Dict.{lookup, insert, lookup-insert_self}
use rozo_mpprouter.Partners.Types.{CouponRecord, Books, is_text}
use rozo_mpprouter.Partners.Issue.{IssueOp, create_coupon}
use rozo_mpprouter.Partners.Reconcile.{is_issue_of}
use rozo_mpprouter.Partners.Void.{put_coupon}
use rozo_mpprouter.Partners.Run.{World, Stage, debited, created, collided, on_books}
use rozo_mpprouter.Partners.Run.Sound.{Ops, op_at, Paid, is_own, Taken, IsSound}
use rozo_mpprouter.Base.{◌-◌, ltb, if◌then◌else◌}
use rozo_mpprouter.Partners.Types.{PendingIssue, pending_stale_ms, Attempt}
use rozo_mpprouter.Partners.Issue.{
  issued_coupon, pending_issue, refund_pending_issue, confirm_pending_issue,
}
use rozo_mpprouter.Partners.Reconcile.{
  tombstone_of, index_of, confirm_found, reconcile_lost, reconcile_absent, reconcile_found,
  reconcile_issue,
}
use rozo_mpprouter.Partners.Run.{create_at}
use rozo_mpprouter.Partners.Run.Frames.{confirm_pending_issue-Moves, refund_pending_issue-Moves}
use rozo_mpprouter.Partners.Run.Voids.{by_test}
use rozo_mpprouter.Partners.Run.Sound.{Moves-IsSound}
use rozo_mpprouter.Partners.Run.Steps.{put_coupon-IsSound, restage-IsSound, debited-ne-created}

abbrev Creation : String → CouponRecord → Books → Type 0
Creation code rec w =
    ((lookup code w.coupons ≡ none) × (create_coupon code rec w ≡ (true, put_coupon code rec w)))
    ⊎ ((c : CouponRecord) × (lookup code w.coupons ≡ some c)
        × (create_coupon code rec w ≡ (false, w)))

create_coupon-Creation : (code : String) (rec : CouponRecord) (w : Books) → Creation code rec w
unfolding create_coupon
create_coupon-Creation code rec w = elim (Option-cases (lookup code w.coupons)) [
  | inl free ↦ inl (free, rw free refl)
  | inr (c, held) ↦ inr (c, held, rw held refl)
]

is_text_eq : (o : Option String) (t : String) → is_text o t ≡ true → o ≡ some t
is_text_eq none t h = absurd (cc h)
is_text_eq (some s) t h = ap some ((string_eq.beq_iff s t).0 h)

-- What an own coupon carries.
own_parts :
    (i : IssueOp) (op_id : String) (c : CouponRecord)
    → is_own i op_id c ≡ true
    → (c.tombstone ≡ false)
      × (is_text c.partner_id i.partner_id ≡ true)
      × (is_text c.issue_ledger_id op_id ≡ true)
own_parts i op_id c h = ground (arith, h)

-- A coupon found by a worker that has not created one is not its own.
not_yet_own :
    (op_id : String) (i : IssueOp) (s : World) (c : CouponRecord)
    → IsSound s
    → lookup op_id s.ops ≡ op_at i debited
    → lookup i.code s.books.coupons ≡ some c
    → is_own i op_id c ≡ false
not_yet_own op_id i s c v mine found = elim (Bool-cases (is_own i op_id c)) [
  | inr other ↦ other
  | inl own ↦
      let (live, of_partner, of_op) = own_parts i op_id c own in
      let p =
        v.paid i.code c i.partner_id found live (is_text_eq c.partner_id i.partner_id of_partner) in
      let named : some p.op_id ≡ some op_id =
        sym p.by_op ∙ is_text_eq c.issue_ledger_id op_id of_op in
      let same : p.op_id ≡ op_id = cc named in
      let held : lookup op_id s.ops ≡ op_at p.issue created =
        subst (λ o. lookup o s.ops ≡ op_at p.issue created) same p.held in
      let both : op_at i debited ≡ op_at p.issue created = sym mine ∙ held in
      absurd (debited-ne-created (cc both))
]

Paid_issued :
    (op_id : String) (i : IssueOp) (now : ℕ) (ops : Ops) (partner_id : String)
    → lookup op_id ops ≡ op_at i created
    → (issued_coupon op_id i now).partner_id ≡ some partner_id
    → Paid ops i.code (issued_coupon op_id i now) partner_id
Paid_issued op_id i now ops partner_id held own = record {
  op_id = op_id;
  issue = i;
  by_op = refl;
  held = held;
  partner = cc own;
  at_code = refl;
  amount = refl;
}

pub create-IsSound :
    (op_id : String) (i : IssueOp) (now : ℕ) (s : World)
    → lookup op_id s.ops ≡ op_at i debited
    → IsSound s
    → IsSound (create_at s op_id now (i, debited))
create-IsSound op_id i now s mine v =
    elim (create_coupon-Creation i.code (issued_coupon op_id i now) s.books) [
      | inl (free, made) ↦ rw made (
          put_coupon-IsSound i.code (issued_coupon op_id i now)
            (record s { ops = insert op_id (i, created) s.ops }) free
            (λ partner_id live own.
              Paid_issued op_id i now (insert op_id (i, created) s.ops) partner_id
                (lookup-insert_self op_id (i, created) s.ops) own)
            (restage-IsSound op_id i created s mine (λ h. absurd (cc h)) v))
      | inr (c, held, kept) ↦ rw kept (
          restage-IsSound op_id i collided s mine
            (λ h. record { coupon = c; found = held; other = not_yet_own op_id i s c v mine held })
            v)
    ]

-- A tombstone, or a coupon of no partner.
pub dead_coupon-IsSound :
    (code : String) (c : CouponRecord) (s : World)
    → ((partner_id : String) → c.tombstone ≡ false → c.partner_id ≡ some partner_id → ⊥)
    → IsSound s
    → IsSound (on_books s (create_coupon code c s.books).1)
dead_coupon-IsSound code c s dead v = elim (create_coupon-Creation code c s.books) [
  | inl (free, made) ↦
      rw made (put_coupon-IsSound code c s free (λ p live own. absurd (dead p live own)) v)
  | inr (d, held, kept) ↦ rw kept v
]

-- What holds of both branches' stores holds of the test's.
by_case {ℓ κ} :
    {A : Type ℓ} (P : Books → Type κ) (b : Bool) (r s : A × Books)
    → (b ≡ true → P r.1)
    → (b ≡ false → P s.1)
    → P (if b then r else s).1
by_case P true r s hr hs = hr refl
by_case P false r s hr hs = hs refl

dead_other :
    (i : IssueOp) (op_id : String) (c : CouponRecord)
    → c.tombstone ≡ true
    → is_own i op_id c ≡ false
dead_other i op_id c dead = ground (arith, dead)

confirm-IsSound :
    (partner_id op_id : String) (c : CouponRecord) (s : World)
    → IsSound s
    → IsSound (on_books s (confirm_found partner_id op_id c s.books).1)
confirm-IsSound partner_id op_id c s v =
    Moves-IsSound none s (confirm_pending_issue partner_id op_id (index_of c) s.books).1
      (confirm_pending_issue-Moves none partner_id op_id (index_of c) s.books) tt v

module _ (op_id : String) (i : IssueOp) (stage : Stage) (entry_id : String) (now : ℕ) where
  -- A refund once the code is taken.
  pub refund-IsSound :
      (s : World)
      → lookup op_id s.ops ≡ op_at i stage
      → lookup (i.partner_id, entry_id) s.books.entries ≡ none
      → Taken i op_id s.books
      → IsSound s
      → IsSound (on_books s (refund_pending_issue i.partner_id op_id entry_id now s.books).1)
  refund-IsSound s held free taken v =
      Moves-IsSound (some (i.partner_id, op_id)) s
        (refund_pending_issue i.partner_id op_id entry_id now s.books).1
        (refund_pending_issue-Moves i.partner_id op_id entry_id now s.books free)
        (record { issue = i; stage = stage; held = held; partner = refl; taken = taken }) v

  module _ (made_at : ℕ) where
    abbrev listed : PendingIssue
    listed = pending_issue op_id i made_at

    abbrev KeepsSound : World → Attempt (Unit {0}) × Books → Type 0
    KeepsSound s r = IsSound (on_books s r.1)

    reconcile_lost-IsSound :
        (s : World) (rec : Option CouponRecord)
        → lookup i.code s.books.coupons ≡ rec
        → lookup op_id s.ops ≡ op_at i stage
        → lookup (i.partner_id, entry_id) s.books.entries ≡ none
        → IsSound s
        → KeepsSound s (reconcile_lost i.partner_id listed entry_id now rec s.books)
    reconcile_lost-IsSound s none found held free v = v
    reconcile_lost-IsSound s (some c) found held free v =
        by_case (λ w. IsSound (on_books s w)) c.tombstone _ _
          (λ dead.
            refund-IsSound s held free
              (record { coupon = c; found = found; other = dead_other i op_id c dead }) v)
          (λ live.
            by_test (λ w. IsSound (on_books s w)) (is_issue_of i.partner_id op_id c) _ _
              (confirm-IsSound i.partner_id op_id c s v) v)

    pub reconcile_absent-IsSound :
        (s : World)
        → lookup op_id s.ops ≡ op_at i stage
        → lookup (i.partner_id, entry_id) s.books.entries ≡ none
        → IsSound s
        → KeepsSound s (reconcile_absent i.partner_id listed entry_id now s.books)
    unfolding reconcile_absent
    reconcile_absent-IsSound s held free v =
        let grave = tombstone_of i.partner_id listed now in
        elim (create_coupon-Creation i.code grave s.books) [
          | inl (empty, made) ↦ rw made (
              refund-IsSound (on_books s (put_coupon i.code grave s.books)) held free
                (record {
                  coupon = grave;
                  found = lookup-insert_self i.code grave s.books.coupons;
                  other = refl;
                })
                (put_coupon-IsSound i.code grave s empty (λ p live own. absurd (cc live)) v))
          | inr (c, taken, kept) ↦
              rw (kept) (reconcile_lost-IsSound s (lookup i.code s.books.coupons) refl held free v)
        ]

    reconcile_found-IsSound :
        (s : World) (rec : Option CouponRecord)
        → lookup i.code s.books.coupons ≡ rec
        → lookup op_id s.ops ≡ op_at i stage
        → lookup (i.partner_id, entry_id) s.books.entries ≡ none
        → IsSound s
        → KeepsSound s (reconcile_found i.partner_id listed entry_id now rec s.books)
    reconcile_found-IsSound s none found held free v = reconcile_absent-IsSound s held free v
    reconcile_found-IsSound s (some c) found held free v =
        by_case (λ w. IsSound (on_books s w)) (is_own i op_id c) _ _
          (λ own. confirm-IsSound i.partner_id op_id c s v)
          (λ other.
            refund-IsSound s held free (record { coupon = c; found = found; other = other }) v)

    pub reconcile_issue-IsSound :
        (s : World)
        → lookup op_id s.ops ≡ op_at i stage
        → lookup (i.partner_id, entry_id) s.books.entries ≡ none
        → IsSound s
        → KeepsSound s (reconcile_issue i.partner_id listed entry_id now s.books)
    unfolding reconcile_issue
    reconcile_issue-IsSound s held free v =
        by_test (λ w. IsSound (on_books s w)) (ltb (now - made_at) pending_stale_ms) _ _ v
          (reconcile_found-IsSound s (lookup i.code s.books.coupons) refl held free v)
