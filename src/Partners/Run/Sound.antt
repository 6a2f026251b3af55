-- ===== src/Partners/Run/Sound.antt =====
-- What holds between the steps of the workers of src/routes/partner-store.ts, and the changes that
-- keep it.
use rozo_mpprouter.Base.{
  String, ◌≡◌, refl, sym, subst, ◌∙◌, inl, inr, Bool, true, false, not, ◌&&◌, Option, none, some,
  Bool-cases,
}
use rozo_mpprouter.Base.Keys.{string_eq, pair_eq}
use rozo_mpprouter.Base.Dict.{Dict, lookup}
use rozo_mpprouter.Partners.Types.{LedgerEntry, CouponRecord, Claim, Books}
use rozo_mpprouter.Partners.Ledger.{Mutation}
use rozo_mpprouter.Partners.Ledger.Effect.{Recorded}
use rozo_mpprouter.Partners.Ledger.Begun.{IsBooked}
use rozo_mpprouter.Partners.Issue.{IssueOp, issue_refund_key, hold_mutation}
use rozo_mpprouter.Partners.Reconcile.{is_issue_of}
use rozo_mpprouter.Partners.Run.{World, Stage, created, collided, on_books}
use rozo_mpprouter.Partners.Run.Links.{SameIssue, Evolves, Moves, hits}

abbrev pub Ops : Type 0
Ops = Dict String (IssueOp × Stage)

abbrev pub op_at : IssueOp → Stage → Option (IssueOp × Stage)
op_at i stage = some (i, stage)

-- The issue that a partner's coupon comes from.
pub record Paid (ops : Ops) (code : String) (c : CouponRecord) (partner_id : String) : Type 0 where
  pub op_id : String
  pub issue : IssueOp
  pub by_op : c.issue_ledger_id ≡ some op_id
  pub held : lookup op_id ops ≡ op_at issue created
  pub partner : issue.partner_id ≡ partner_id
  pub at_code : issue.code ≡ code
  pub amount : c.amount ≡ issue.amount

-- The test of reconcile: the coupon is this issue's own.
abbrev pub is_own : IssueOp → String → CouponRecord → Bool
is_own i op_id c = not c.tombstone && is_issue_of i.partner_id op_id c

-- The issue's code is taken by something else, a tombstone or another's coupon.
pub record Taken (i : IssueOp) (op_id : String) (w : Books) : Type 0 where
  pub coupon : CouponRecord
  pub found : lookup i.code w.coupons ≡ some coupon
  pub other : is_own i op_id coupon ≡ false

pub record Refunded (ops : Ops) (w : Books) (partner_id op_id : String) : Type 0 where
  pub issue : IssueOp
  pub stage : Stage
  pub held : lookup op_id ops ≡ op_at issue stage
  pub partner : issue.partner_id ≡ partner_id
  pub taken : Taken issue op_id w

pub record IsSound (s : World) : Type 0 where
  pub booked : IsBooked s.books
  pub paid :
      (code : String) (c : CouponRecord) (partner_id : String)
      → lookup code s.books.coupons ≡ some c
      → c.tombstone ≡ false
      → c.partner_id ≡ some partner_id
      → Paid s.ops code c partner_id
  pub recorded :
      (op_id : String) (i : IssueOp) (stage : Stage)
      → lookup op_id s.ops ≡ op_at i stage
      → Recorded i.partner_id (hold_mutation i) s.books
  pub collisions :
      (op_id : String) (i : IssueOp) → lookup op_id s.ops ≡ op_at i collided → Taken i op_id s.books
  pub refunded :
      (partner_id op_id : String) (c : Claim)
      → lookup (partner_id, issue_refund_key op_id) s.books.claims ≡ some c
      → Refunded s.ops s.books partner_id op_id

pub Recorded-kept :
    (partner_id : String) (m : Mutation) (w t : Books)
    → ((k : String × String) (e : LedgerEntry)
        → lookup k w.entries ≡ some e
        → lookup k t.entries ≡ some e)
    → Recorded partner_id m w
    → Recorded partner_id m t
Recorded-kept partner_id m w t kept r = record {
  entry = r.entry;
  found = kept (partner_id, m.entry_id) r.entry r.found;
  kind = r.kind;
  delta = r.delta;
  ref = r.ref;
  is_settled = r.is_settled;
}

Evolves-back :
    (o p : Option CouponRecord) (d : CouponRecord)
    → p ≡ some d
    → Evolves o p
    → (c : CouponRecord) × (o ≡ some c) × SameIssue c d
Evolves-back none none d e h = absurd (cc e)
Evolves-back none (some d') d e h = absurd h
Evolves-back (some c) none d e h = absurd h
Evolves-back (some c) (some d') d e h =
    let same : d' ≡ d = cc e in (c, refl, subst (λ r. SameIssue c r) same h)

Evolves-on :
    (o p : Option CouponRecord) (c : CouponRecord)
    → o ≡ some c
    → Evolves o p
    → (d : CouponRecord) × (p ≡ some d) × SameIssue c d
Evolves-on none p c e h = absurd (cc e)
Evolves-on (some c') none c e h = absurd h
Evolves-on (some c') (some d) c e h =
    let same : c' ≡ c = cc e in (d, refl, subst (λ r. SameIssue r d) same h)

own_same :
    (i : IssueOp) (op_id : String) (c d : CouponRecord)
    → SameIssue c d
    → is_own i op_id d ≡ is_own i op_id c
own_same i op_id c d same = rw (same.tombstone, same.partner_id, same.issue_ledger_id) refl

Taken-kept :
    {x : Option (String × String)} {w t : Books} (i : IssueOp) (op_id : String)
    → Moves x w t
    → Taken i op_id w
    → Taken i op_id t
Taken-kept {x} {w} {t} i op_id f k =
    let (d, at, same) =
      Evolves-on (lookup i.code w.coupons) (lookup i.code t.coupons) k.coupon k.found
        (f.coupons i.code) in
    record { coupon = d; found = at; other = own_same i op_id k.coupon d same ∙ k.other }

Refunded-kept :
    {x : Option (String × String)} {w t : Books} {ops : Ops} {partner_id op_id : String}
    → Moves x w t
    → Refunded ops w partner_id op_id
    → Refunded ops t partner_id op_id
Refunded-kept {x} {w} {t} {ops} {partner_id} {op_id} f r = record {
  issue = r.issue;
  stage = r.stage;
  held = r.held;
  partner = r.partner;
  taken = Taken-kept r.issue op_id f r.taken;
}

-- A refund may be claimed where the issue's code is taken.
abbrev pub Justified : World → Option (String × String) → Type 0
Justified s none = Unit
Justified s (some (partner_id, op_id)) = Refunded s.ops s.books partner_id op_id

Justified-at :
    (s : World) (x : Option (String × String)) (partner_id op_id : String)
    → Justified s x
    → hits x (partner_id, op_id) ≡ true
    → Refunded s.ops s.books partner_id op_id
Justified-at s none partner_id op_id j h = absurd (cc h)
Justified-at s (some (p, o)) partner_id op_id j h =
    subst (λ k. Refunded s.ops s.books k.0 k.1) ((pair_eq.beq_iff (p, o) (partner_id, op_id)).0 h) j

Paid_same :
    (ops : Ops) (code : String) (c d : CouponRecord) (partner_id : String)
    → SameIssue c d
    → Paid ops code c partner_id
    → Paid ops code d partner_id
Paid_same ops code c d partner_id same p = record {
  op_id = p.op_id;
  issue = p.issue;
  by_op = same.issue_ledger_id ∙ p.by_op;
  held = p.held;
  partner = p.partner;
  at_code = p.at_code;
  amount = same.amount ∙ p.amount;
}

pub Moves-IsSound :
    (x : Option (String × String)) (s : World) (t : Books)
    → Moves x s.books t
    → Justified s x
    → IsSound s
    → IsSound (on_books s t)
Moves-IsSound x s t f j v = record {
  booked = f.booked v.booked;
  paid = λ code d partner_id at live own.
      let (c, before, same) =
        Evolves-back (lookup code s.books.coupons) (lookup code t.coupons) d at (f.coupons code) in
      Paid_same s.ops code c d partner_id same
        (v.paid code c partner_id before (sym same.tombstone ∙ live) (sym same.partner_id ∙ own));
  recorded = λ op_id i stage h.
      Recorded-kept i.partner_id (hold_mutation i) s.books t f.entries (v.recorded op_id i stage h);
  collisions = λ op_id i h. Taken-kept i op_id f (v.collisions op_id i h);
  refunded = λ partner_id op_id c h. elim (Bool-cases (hits x (partner_id, op_id))) [
    | inl hit ↦ Refunded-kept f (Justified-at s x partner_id op_id j hit)
    | inr miss ↦
        Refunded-kept f (v.refunded partner_id op_id c (sym (f.claims partner_id op_id miss) ∙ h))
  ];
}
