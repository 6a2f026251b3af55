-- ===== src/Partners/Run/Steps.antt =====
-- The creation of a coupon, the tombstone, and the stages of an issuing worker, in
-- src/routes/partner-store.ts.
use rozo_mpprouter.Base.{
  String, ◌≡◌, refl, sym, ap, subst, ◌∙◌, ◌⊎◌, inl, inr, false, none, some, Bool-cases,
}
use rozo_mpprouter.Base.Keys.{◌=?◌, string_eq, pair_eq}
use rozo_mpprouter.Base.Dict.{lookup, insert, lookup-insert, lookup-insert_ne}
use rozo_mpprouter.Partners.Types.{CouponRecord, Books}
use rozo_mpprouter.Partners.Ledger.Effect.{Recorded}
use rozo_mpprouter.Partners.Ledger.Begun.{insert_keeps}
use rozo_mpprouter.Partners.Issue.{IssueOp, hold_mutation}
use rozo_mpprouter.Partners.Void.{put_coupon}
use rozo_mpprouter.Partners.Run.{World, Stage, debited, created, collided, on_books}
use rozo_mpprouter.Partners.Run.Sound.{Ops, op_at, Paid, Taken, Refunded, IsSound, Recorded-kept}

Taken-insert :
    (i : IssueOp) (op_id code : String) (c : CouponRecord) (w : Books)
    → lookup code w.coupons ≡ none
    → Taken i op_id w
    → Taken i op_id (put_coupon code c w)
Taken-insert i op_id code c w free k = record {
  coupon = k.coupon;
  found = insert_keeps code i.code c k.coupon w.coupons free k.found;
  other = k.other;
}

-- A coupon at a new code is a tombstone, no partner's, or one that an issue pays for.
pub put_coupon-IsSound :
    (code : String) (c : CouponRecord) (s : World)
    → lookup code s.books.coupons ≡ none
    → ((partner_id : String)
        → c.tombstone ≡ false
        → c.partner_id ≡ some partner_id
        → Paid s.ops code c partner_id)
    → IsSound s
    → IsSound (on_books s (put_coupon code c s.books))
put_coupon-IsSound code c s free pays v = record {
  booked = record { conserved = v.booked.conserved; nonneg = v.booked.nonneg };
  paid = λ j d partner_id at live own. elim (Bool-cases (code =? j)) [
    | inl here ↦
        let cj : code ≡ j = (string_eq.beq_iff code j).0 here in
        let inserted : lookup j (insert code c s.books.coupons) ≡ some c =
          rw (lookup-insert, here) refl in
        let cd : c ≡ d = cc (inserted, at) in
        subst (λ k. Paid s.ops k d partner_id) cj
          (subst (λ e. Paid s.ops code e partner_id) cd (pays partner_id (rw cd live) (rw cd own)))
    | inr other ↦
        v.paid j d partner_id (sym (lookup-insert_ne code j c s.books.coupons other) ∙ at) live own
  ];
  recorded = λ op_id i stage h.
      Recorded-kept i.partner_id (hold_mutation i) s.books (put_coupon code c s.books)
        (λ k e held. held) (v.recorded op_id i stage h);
  collisions = λ op_id i h. Taken-insert i op_id code c s.books free (v.collisions op_id i h);
  refunded = λ partner_id op_id claim h.
      let r = v.refunded partner_id op_id claim h in
      record {
        issue = r.issue;
        stage = r.stage;
        held = r.held;
        partner = r.partner;
        taken = Taken-insert r.issue op_id code c s.books free r.taken;
      };
}

abbrev with_op : World → String → IssueOp → Stage → World
with_op s op_id i stage = record s { ops = insert op_id (i, stage) s.ops }

Recorded-same :
    (i : IssueOp) (w : Books)
    → Recorded i.partner_id (hold_mutation i) w
    → (j : IssueOp) → i ≡ j
    → Recorded j.partner_id (hold_mutation j) w
Recorded-same i w r j e = subst (λ k. Recorded k.partner_id (hold_mutation k) w) e r

-- What an insertion of an issue leaves at another key, or puts at its own.
op_lookup :
    (op_id j : String) (i k : IssueOp) (stage at : Stage) (ops : Ops)
    → lookup j (insert op_id (i, stage) ops) ≡ op_at k at
    → ((op_id ≡ j) × (i ≡ k) × (stage ≡ at)) ⊎ (lookup j ops ≡ op_at k at)
op_lookup op_id j i k stage at ops h = elim (Bool-cases (op_id =? j)) [
  | inl here ↦
      let inserted : lookup j (insert op_id (i, stage) ops) ≡ op_at i stage =
        rw (lookup-insert, here) refl in
      let same : op_at i stage ≡ op_at k at = sym inserted ∙ h in
      inl ((string_eq.beq_iff op_id j).0 here, cc same, cc same)
  | inr other ↦ inr (sym (lookup-insert_ne op_id j (i, stage) ops other) ∙ h)
]

-- A key that an issue holds at another stage is another key.
held_insert :
    (op_id j : String) (i k : IssueOp) (stage at old : Stage) (ops : Ops)
    → lookup j ops ≡ op_at k at
    → lookup op_id ops ≡ op_at i old
    → (old ≡ at → ⊥)
    → lookup j (insert op_id (i, stage) ops) ≡ op_at k at
held_insert op_id j i k stage at old ops held mine differ = elim (Bool-cases (op_id =? j)) [
  | inl here ↦
      let moved : lookup j ops ≡ op_at i old =
        subst (λ o. lookup o ops ≡ op_at i old) ((string_eq.beq_iff op_id j).0 here) mine in
      let same : op_at i old ≡ op_at k at = sym moved ∙ held in absurd (differ (cc same))
  | inr other ↦ rw (lookup-insert_ne op_id j (i, stage) ops other) held
]

pub debited-ne-created : debited ≡ created → ⊥
debited-ne-created h = cc h

created-ne-collided : created ≡ collided → ⊥
created-ne-collided h = cc h

Refunded-restage :
    (op_id j partner_id : String) (i : IssueOp) (stage : Stage) (ops : Ops) (w : Books)
    → lookup op_id ops ≡ op_at i debited
    → Refunded ops w partner_id j
    → Refunded (insert op_id (i, stage) ops) w partner_id j
Refunded-restage op_id j partner_id i stage ops w mine r = elim (Bool-cases (op_id =? j)) [
  | inl here ↦
      let moved : lookup j ops ≡ op_at i debited =
        subst (λ o. lookup o ops ≡ op_at i debited) ((string_eq.beq_iff op_id j).0 here) mine in
      let same : op_at i debited ≡ op_at r.issue r.stage = sym moved ∙ r.held in
      let ik : i ≡ r.issue = cc same in
      record {
        issue = r.issue;
        stage = stage;
        held = rw (lookup-insert, here) (ap (λ k. op_at k stage) ik);
        partner = r.partner;
        taken = r.taken;
      }
  | inr other ↦ record {
    issue = r.issue;
    stage = r.stage;
    held = rw (lookup-insert_ne op_id j (i, stage) ops other) r.held;
    partner = r.partner;
    taken = r.taken;
  }
]

-- A worker's issue after its attempt to create.
pub restage-IsSound :
    (op_id : String) (i : IssueOp) (stage : Stage) (s : World)
    → lookup op_id s.ops ≡ op_at i debited
    → (stage ≡ collided → Taken i op_id s.books)
    → IsSound s
    → IsSound (with_op s op_id i stage)
restage-IsSound op_id i stage s mine taken v = record {
  booked = v.booked;
  paid = λ code c partner_id at live own.
      let p = v.paid code c partner_id at live own in
      record {
        op_id = p.op_id;
        issue = p.issue;
        by_op = p.by_op;
        held =
            held_insert op_id p.op_id i p.issue stage created debited s.ops p.held mine
              debited-ne-created;
        partner = p.partner;
        at_code = p.at_code;
        amount = p.amount;
      };
  recorded = λ j k at h. elim (op_lookup op_id j i k stage at s.ops h) [
    | inl (here, ik, st) ↦ Recorded-same i s.books (v.recorded op_id i debited mine) k ik
    | inr old ↦ v.recorded j k at old
  ];
  collisions = λ j k h. elim (op_lookup op_id j i k stage collided s.ops h) [
    | inl (here, ik, st) ↦
        subst (λ o. Taken k o s.books) here (subst (λ q. Taken q op_id s.books) ik (taken st))
    | inr old ↦ v.collisions j k old
  ];
  refunded = λ partner_id j c h.
      Refunded-restage op_id j partner_id i stage s.ops s.books mine (v.refunded partner_id j c h);
}

-- A new issue, with its debit in the books.
pub new_op-IsSound :
    (op_id : String) (i : IssueOp) (s : World)
    → lookup op_id s.ops ≡ none
    → Recorded i.partner_id (hold_mutation i) s.books
    → IsSound s
    → IsSound (with_op s op_id i debited)
new_op-IsSound op_id i s free debit v = record {
  booked = v.booked;
  paid = λ code c partner_id at live own.
      let p = v.paid code c partner_id at live own in
      record {
        op_id = p.op_id;
        issue = p.issue;
        by_op = p.by_op;
        held = insert_keeps op_id p.op_id (i, debited) (p.issue, created) s.ops free p.held;
        partner = p.partner;
        at_code = p.at_code;
        amount = p.amount;
      };
  recorded = λ j k at h. elim (op_lookup op_id j i k debited at s.ops h) [
    | inl (here, ik, st) ↦ Recorded-same i s.books debit k ik
    | inr old ↦ v.recorded j k at old
  ];
  collisions = λ j k h. elim (op_lookup op_id j i k debited collided s.ops h) [
    | inl (here, ik, st) ↦ absurd (cc st)
    | inr old ↦ v.collisions j k old
  ];
  refunded = λ partner_id j c h.
      let r = v.refunded partner_id j c h in
      record {
        issue = r.issue;
        stage = r.stage;
        held = insert_keeps op_id j (i, debited) (r.issue, r.stage) s.ops free r.held;
        partner = r.partner;
        taken = r.taken;
      };
}
