-- ===== src/Partners/Run/Voids.antt =====
-- The steps of a void in src/routes/partner-store.ts, and the writes around it, each as a move.
use rozo_mpprouter.Base.{
  ℕ, String, ◌≡◌, refl, if◌then◌else◌, inl, inr, Bool, true, false, Option, none, some, Bool-cases,
  Option-cases, is_some, leb, length,
}
use rozo_mpprouter.Base.Int.{ℤ}
use rozo_mpprouter.Base.Keys.{string_eq, pair_eq}
use rozo_mpprouter.Base.Dict.{lookup}
use rozo_mpprouter.Partners.Types.{
  LedgerKind, LedgerEntry, PendingRefund, PartnerRecord, CouponStatus, CouponRecord, Attempt, threw,
  gave, Books, is_text, find_first, max_pending_ops,
}
use rozo_mpprouter.Partners.Ledger.{Outcome, put_partner, apply_ledger}
use rozo_mpprouter.Partners.Ledger.Effect.{apply_ledger-Effect}
use rozo_mpprouter.Partners.Ledger.Begun.{KeepsBalance}
use rozo_mpprouter.Partners.Void.{
  is_refund_of, intended, record_intent, VoidReply, won, lost, is_issued, voided, win_void, undone,
  drop_refund, drop_pending_refund, refund_kind, refund_credit, mark_refunded, refund_entry,
  after_credit, settle_refund, owed, reconcile_refund, not_settled, settled_or_thrown, after_win,
  after_intent, void_partner_coupon, refund_intent, put_coupon,
}
use rozo_mpprouter.Partners.Run.{open_partner, fresh_partner, set_status_over, move_over}
use rozo_mpprouter.Partners.Run.Links.{
  Moves, Moves-refl, Moves-trans, Link-Moves, put_partner-Moves, put_coupon-Moves,
}
use rozo_mpprouter.Partners.Run.Frames.{Effect-Link, attempt_eq, without_reply_books}

drop_refund-KeepsBalance : (code : String) → KeepsBalance (drop_refund code)
drop_refund-KeepsBalance code p q h = attempt_eq h

-- What holds of both branches' stores holds of the test's.
pub by_test {ℓ κ} :
    {A : Type ℓ} (P : Books → Type κ) (b : Bool) (r s : A × Books)
    → P r.1
    → P s.1
    → P (if b then r else s).1
by_test P true r s hr hs = hr
by_test P false r s hr hs = hs

-- What holds of the store, and of it with the intent, holds after the first step.
record_intent_lem {κ} :
    (P : Books → Type κ) (partner_id : String) (r : PendingRefund) (w : Books)
    → P w
    → ((p : PartnerRecord)
        → lookup partner_id w.partners ≡ some p
        → P (put_partner partner_id (intended r p) w))
    → P (record_intent partner_id r w).1
unfolding record_intent
record_intent_lem P partner_id r w same put = elim (Option-cases (lookup partner_id w.partners)) [
  | inl missing ↦ rw missing same
  | inr (p, found) ↦ rw found (
      by_test P (is_some (find_first (is_refund_of r.code) p.pending_refunds)) _ _ same
        (by_test P (leb max_pending_ops (length p.pending_refunds)) _ _ same (put p found)))
]

pub record_intent-Moves :
    (partner_id : String) (r : PendingRefund) (w : Books)
    → Moves none w (record_intent partner_id r w).1
record_intent-Moves partner_id r w =
    record_intent_lem (Moves none w) partner_id r w (Moves-refl none w)
      λ p found. put_partner-Moves none partner_id (some p) (intended r p) w found refl

record_intent_entries :
    (partner_id : String) (r : PendingRefund) (w : Books)
    → (record_intent partner_id r w).1.entries ≡ w.entries
record_intent_entries partner_id r w =
    record_intent_lem (λ t. t.entries ≡ w.entries) partner_id r w refl λ p found. refl

-- The same of the second step and the voided coupon.
win_void_lem {κ} :
    (P : Books → Type κ) (partner_id code refund_op_id : String) (w : Books)
    → P w
    → ((rec : CouponRecord)
        → lookup code w.coupons ≡ some rec
        → P (put_coupon code (voided refund_op_id rec) w))
    → P (win_void partner_id code refund_op_id w).1
unfolding win_void
win_void_lem P partner_id code refund_op_id w same put =
    elim (Option-cases (lookup code w.coupons)) [
      | inl missing ↦ rw missing same
      | inr (rec, found) ↦ rw found (
          by_test P rec.tombstone _ _ same (
            by_test P (is_text rec.partner_id partner_id) _ _
              (by_test P (is_issued rec.status) _ _ (put rec found) same) same))
    ]

pub win_void-Moves :
    (partner_id code refund_op_id : String) (w : Books)
    → Moves none w (win_void partner_id code refund_op_id w).1
win_void-Moves partner_id code refund_op_id w =
    win_void_lem (Moves none w) partner_id code refund_op_id w (Moves-refl none w) λ rec found.
      put_coupon-Moves none code rec (voided refund_op_id rec) w found
        (record { tombstone = refl; partner_id = refl; issue_ledger_id = refl; amount = refl })

win_void_entries :
    (partner_id code refund_op_id : String) (w : Books)
    → (win_void partner_id code refund_op_id w).1.entries ≡ w.entries
win_void_entries partner_id code refund_op_id w =
    win_void_lem (λ t. t.entries ≡ w.entries) partner_id code refund_op_id w refl λ rec found. refl

pub drop_pending_refund-Moves :
    (partner_id code : String) (w : Books) → Moves none w (drop_pending_refund partner_id code w)
unfolding drop_pending_refund
drop_pending_refund-Moves partner_id code w = elim (Option-cases (lookup partner_id w.partners)) [
  | inl missing ↦ rw missing (Moves-refl none w)
  | inr (p, found) ↦
      elim (Bool-cases (is_some (find_first (is_refund_of code) p.pending_refunds))) [
        | inr gone ↦ rw (found, gone) (Moves-refl none w)
        | inl held ↦
            rw (found, held)
              (put_partner-Moves none partner_id (some p) (undone code p) w found refl)
      ]
]

mark_refunded-Moves :
    (code refund_op_id : String) (entry : Option LedgerEntry) (entry_id : String) (w : Books)
    → Moves none w (mark_refunded code refund_op_id entry entry_id w)
unfolding mark_refunded
mark_refunded-Moves code refund_op_id entry entry_id w =
    elim (Option-cases (lookup code w.coupons)) [
      | inl missing ↦ rw missing (Moves-refl none w)
      | inr (rec, found) ↦ elim (Bool-cases (is_text rec.refund_op_id refund_op_id)) [
        | inr other ↦ rw (found, other) (Moves-refl none w)
        | inl own ↦
            rw (found, own)
              (put_coupon-Moves none code rec
                (record rec {
                  refund_pending = false;
                  refund_ledger_id = refund_entry entry rec.refund_ledger_id entry_id;
                })
                w found
                (record {
                  tombstone = refl;
                  partner_id = refl;
                  issue_ledger_id = refl;
                  amount = refl;
                }))
      ]
    ]

after_credit-Moves :
    (code refund_op_id entry_id : String) (amount : ℤ) (w : Books) (r : Attempt Outcome × Books)
    → Moves none w r.1
    → Moves none w (after_credit code refund_op_id entry_id amount r).1
after_credit-Moves code refund_op_id entry_id amount w (threw e, t) h = h
after_credit-Moves code refund_op_id entry_id amount w (gave outcome, t) h =
    Moves-trans h (mark_refunded-Moves code refund_op_id outcome.entry entry_id t)

pub settle_refund-Moves :
    (partner_id code refund_op_id entry_id : String) (now : ℕ) (w : Books)
    → lookup (partner_id, entry_id) w.entries ≡ none
    → Moves none w (settle_refund partner_id code refund_op_id entry_id now w).1
unfolding settle_refund
settle_refund-Moves partner_id code refund_op_id entry_id now w free =
    elim (Option-cases (lookup code w.coupons)) [
      | inl missing ↦ rw missing (Moves-refl none w)
      | inr (rec, found) ↦ elim (Bool-cases (is_text rec.refund_op_id refund_op_id)) [
        | inr other ↦ rw (found, other) (Moves-refl none w)
        | inl own ↦
            let m =
              refund_credit code rec refund_op_id (refund_kind code (lookup partner_id w.partners))
                entry_id in
            let r = apply_ledger partner_id m (drop_refund code) now w in
            rw (found, own)
              (after_credit-Moves code refund_op_id entry_id rec.amount w r (
                Link-Moves partner_id m w r.1 refl (
                  Effect-Link partner_id m w r (
                    apply_ledger-Effect partner_id m (drop_refund code) now w free
                      (drop_refund-KeepsBalance code)))))
      ]
    ]

pub reconcile_refund-Moves :
    (partner_id code entry_id : String) (now : ℕ) (w : Books)
    → lookup (partner_id, entry_id) w.entries ≡ none
    → Moves none w (reconcile_refund partner_id code entry_id now w).1
unfolding reconcile_refund
reconcile_refund-Moves partner_id code entry_id now w free =
    elim (Option-cases (owed (lookup code w.coupons))) [
      | inl nothing_owed ↦ rw nothing_owed (drop_pending_refund-Moves partner_id code w)
      | inr (op, owing) ↦
          rw (owing, without_reply_books (settle_refund partner_id code op entry_id now w))
            (settle_refund-Moves partner_id code op entry_id now w free)
    ]

settled_or_thrown_books : (r : Attempt (Option ℤ) × Books) → (settled_or_thrown r).1 ≡ r.1
settled_or_thrown_books (threw e, w) = refl
settled_or_thrown_books (gave (some n), w) = refl
settled_or_thrown_books (gave none, w) = refl

not_settled-Moves :
    (partner_id code : String) (w : Books) (r : Attempt (Option ℤ) × Books)
    → Moves none w r.1
    → Moves none w (not_settled partner_id code r).1
not_settled-Moves partner_id code w (threw e, t) h = h
not_settled-Moves partner_id code w (gave (some n), t) h = h
not_settled-Moves partner_id code w (gave none, t) h =
    Moves-trans h (drop_pending_refund-Moves partner_id code t)

after_win-Moves :
    (partner_id code refund_op_id entry_id : String) (now : ℕ) (w : Books) (r : VoidReply × Books)
    → lookup (partner_id, entry_id) r.1.entries ≡ none
    → Moves none w r.1
    → Moves none w (after_win partner_id code refund_op_id entry_id now r).1
after_win-Moves partner_id code refund_op_id entry_id now w (won, t) free h =
    rw (settled_or_thrown_books (settle_refund partner_id code refund_op_id entry_id now t))
      (Moves-trans h (settle_refund-Moves partner_id code refund_op_id entry_id now t free))
after_win-Moves partner_id code refund_op_id entry_id now w (lost (some op), t) free h =
    not_settled-Moves partner_id code w (settle_refund partner_id code op entry_id now t)
      (Moves-trans h (settle_refund-Moves partner_id code op entry_id now t free))
after_win-Moves partner_id code refund_op_id entry_id now w (lost none, t) free h =
    Moves-trans h (drop_pending_refund-Moves partner_id code t)

after_intent-Moves :
    (partner_id code refund_op_id entry_id : String) (now : ℕ) (w : Books)
    (r : Attempt (Unit {0}) × Books)
    → lookup (partner_id, entry_id) r.1.entries ≡ none
    → Moves none w r.1
    → Moves none w (after_intent partner_id code refund_op_id entry_id now r).1
after_intent-Moves partner_id code refund_op_id entry_id now w (threw e, t) free h = h
after_intent-Moves partner_id code refund_op_id entry_id now w (gave u, t) free h =
    after_win-Moves partner_id code refund_op_id entry_id now w
      (win_void partner_id code refund_op_id t)
      (rw (win_void_entries partner_id code refund_op_id t) free)
      (Moves-trans h (win_void-Moves partner_id code refund_op_id t))

pub void_partner_coupon-Moves :
    (partner_id code : String) (kind : LedgerKind) (refund_op_id entry_id : String) (now : ℕ)
    (w : Books)
    → lookup (partner_id, entry_id) w.entries ≡ none
    → Moves none w (void_partner_coupon partner_id code kind refund_op_id entry_id now w).1
unfolding void_partner_coupon
void_partner_coupon-Moves partner_id code kind refund_op_id entry_id now w free =
    elim (Option-cases (lookup code w.coupons)) [
      | inl missing ↦ rw missing (Moves-refl none w)
      | inr (rec, found) ↦ elim (Bool-cases rec.tombstone) [
        | inl dead ↦ rw (found, dead) (Moves-refl none w)
        | inr live ↦ elim (Bool-cases (is_text rec.partner_id partner_id)) [
          | inr foreign ↦ rw (found, live, foreign) (Moves-refl none w)
          | inl own ↦
              let intent = refund_intent code rec kind refund_op_id now in
              rw (found, live, own)
                (after_intent-Moves partner_id code refund_op_id entry_id now w
                  (record_intent partner_id intent w)
                  (rw (record_intent_entries partner_id intent w) free)
                  (record_intent-Moves partner_id intent w))
        ]
      ]
    ]

Moves-test :
    {w t u : Books} (b : Bool) → Moves none w t → Moves none w u → Moves none w (if b then t else u)
Moves-test true f g = f
Moves-test false f g = g

pub open_partner-Moves :
    (partner_id : String) (p : PartnerRecord) (w : Books)
    → Moves none w (open_partner partner_id p w)
open_partner-Moves partner_id p w = elim (Option-cases (lookup partner_id w.partners)) [
  | inl missing ↦
      rw missing
        (put_partner-Moves none partner_id none (fresh_partner partner_id p) w missing refl)
  | inr (q, found) ↦ rw found (Moves-refl none w)
]

pub set_status_over-Moves :
    (partner_id : String) (suspended : Bool) (w : Books)
    → Moves none w (set_status_over partner_id suspended (lookup partner_id w.partners) w)
set_status_over-Moves partner_id suspended w = elim (Option-cases (lookup partner_id w.partners)) [
  | inl missing ↦ rw missing (Moves-refl none w)
  | inr (p, found) ↦
      rw found (
        put_partner-Moves none partner_id (some p) (record p { suspended = suspended }) w found
          refl)
]

pub move_over-Moves :
    (code : String) (status : CouponStatus) (w : Books)
    → Moves none w (move_over code status (lookup code w.coupons) w)
move_over-Moves code status w = elim (Option-cases (lookup code w.coupons)) [
  | inl missing ↦ rw missing (Moves-refl none w)
  | inr (rec, found) ↦ rw found (
      Moves-test rec.tombstone (Moves-refl none w) (
        put_coupon-Moves none code rec (record rec { status = status }) w found
          (record { tombstone = refl; partner_id = refl; issue_ledger_id = refl; amount = refl })))
]
