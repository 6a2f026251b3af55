-- ===== src/Partners/Run/Frames.antt =====
-- The steps of src/routes/partner-store.ts that create no coupon, each as a move.
use rozo_mpprouter.Base.{
  ℕ, String, ◌≡◌, ◌∙◌, refl, ◌∷◌, if◌then◌else◌, inl, inr, Bool, true, false, Option, none, some,
  Bool-cases, Option-cases, is_some, leb, length,
}
use rozo_mpprouter.Base.Int.{ℤ, pos, leb_ℤ}
use rozo_mpprouter.Base.Keys.{◌=?◌, string_eq, pair_eq}
use rozo_mpprouter.Base.Dict.{lookup, lookup-insert_ne}
use rozo_mpprouter.Partners.Types.{
  IdemKey, PartnerRecord, CouponIndexEntry, Claim, released, partner_suspended, too_many_pending,
  Attempt, threw, gave, without_reply, Books, remove_first, find_first, max_pending_ops,
}
use rozo_mpprouter.Partners.Ledger.{Mutation, Outcome, put_claim, is_applied, apply_ledger}
use rozo_mpprouter.Partners.Ledger.Effect.{Effect, apply_ledger-Effect}
use rozo_mpprouter.Partners.Ledger.Begun.{Link, KeepsBalance}
use rozo_mpprouter.Partners.Issue.{
  IssueOp, issue_key, issue_refund_key, no_change, topup_mutation, topup_partner, hold_issue,
  hold_mutation, debit_issue, is_op, pending_issue, confirmed_issue, confirm_pending_issue,
  drop_issue, issue_refund, pending_of, refund_pending_issue, release_idempotency,
}
use rozo_mpprouter.Partners.Void.{drop_refund}
use rozo_mpprouter.Partners.Run.Links.{
  Moves, Moves-refl, Moves-trans, Link-Moves, Link-Moves_refund, put_partner-Moves, Evolves-refl,
  keys_differ,
}

pub Effect-Link :
    (partner_id : String) (m : Mutation) (w : Books) (r : Attempt Outcome × Books)
    → Effect partner_id m w r
    → Link partner_id m w r.1
Effect-Link partner_id m w (threw e, t) h = h
Effect-Link partner_id m w (gave outcome, t) h = h.0

pub no_change-KeepsBalance : KeepsBalance no_change
no_change-KeepsBalance p q h = let same : q ≡ p = cc h in rw same refl

pub attempt_eq : {p q : PartnerRecord} → gave p ≡ gave q → q.balance ≡ p.balance
attempt_eq {p} {q} h = let same : q ≡ p = cc h in rw same refl

hold_if :
    (closed full : Bool) (r p q : PartnerRecord)
    → r.balance ≡ p.balance
    → (if closed
        then threw partner_suspended
        else (if full then threw too_many_pending else gave r))
      ≡ gave q
    → q.balance ≡ p.balance
hold_if true full r p q same h = absurd (cc h)
hold_if false true r p q same h = absurd (cc h)
hold_if false false r p q same h = attempt_eq h ∙ same

pub hold_issue-KeepsBalance :
    (op_id : String) (i : IssueOp) (now : ℕ) → KeepsBalance (hold_issue op_id i now)
hold_issue-KeepsBalance op_id i now p q h =
    hold_if p.suspended (leb max_pending_ops (length p.pending_issues))
      (record p { pending_issues = pending_issue op_id i now ∷ p.pending_issues }) p q refl h

pub drop_issue-KeepsBalance : (op_id : String) → KeepsBalance (drop_issue op_id)
drop_issue-KeepsBalance op_id p q h = attempt_eq h

pub drop_refund-KeepsBalance : (code : String) → KeepsBalance (drop_refund code)
drop_refund-KeepsBalance code p q h = attempt_eq h

pub topup_partner-Moves :
    (partner_id : String) (amount : ℤ) (proof entry_id : String) (now : ℕ) (w : Books)
    → lookup (partner_id, entry_id) w.entries ≡ none
    → Moves none w (topup_partner partner_id amount proof none none entry_id now w).1
unfolding topup_partner
topup_partner-Moves partner_id amount proof entry_id now w free =
    elim (Bool-cases (leb_ℤ amount (pos 0))) [
      | inl bad ↦ rw (topup_partner, bad) (Moves-refl none w)
      | inr good ↦
          let m = topup_mutation amount proof none none entry_id in
          rw (topup_partner, good)
            (Link-Moves partner_id m w _ refl (
              Effect-Link partner_id m w (apply_ledger partner_id m no_change now w)
                (apply_ledger-Effect partner_id m no_change now w free no_change-KeepsBalance)))
    ]

pub confirm_pending_issue-Moves :
    (x : Option (String × String)) (partner_id op_id : String) (entry : CouponIndexEntry)
    (w : Books)
    → Moves x w (confirm_pending_issue partner_id op_id entry w).1
unfolding confirm_pending_issue
confirm_pending_issue-Moves x partner_id op_id entry w =
    elim (Option-cases (lookup partner_id w.partners)) [
      | inl missing ↦ rw missing (Moves-refl x w)
      | inr (p, found) ↦ elim (Bool-cases (is_some (find_first (is_op op_id) p.pending_issues))) [
        | inl open_issue ↦
            rw (found, open_issue)
              (put_partner-Moves x partner_id (some p) (confirmed_issue op_id entry p) w found refl)
        | inr settled_issue ↦ rw (found, settled_issue) (Moves-refl x w)
      ]
    ]

pub without_reply_books : {A : Type 0} (r : Attempt A × Books) → (without_reply r).1 ≡ r.1
without_reply_books (threw e, t) = refl
without_reply_books (gave a, t) = refl

pub refund_pending_issue-Moves :
    (partner_id op_id entry_id : String) (now : ℕ) (w : Books)
    → lookup (partner_id, entry_id) w.entries ≡ none
    → Moves (some (partner_id, op_id)) w (refund_pending_issue partner_id op_id entry_id now w).1
unfolding refund_pending_issue
refund_pending_issue-Moves partner_id op_id entry_id now w free =
    elim (Option-cases (pending_of op_id (lookup partner_id w.partners))) [
      | inl closed ↦ rw closed (Moves-refl _ w)
      | inr (o, at) ↦
          let m = issue_refund op_id o entry_id in
          let r = apply_ledger partner_id m (drop_issue op_id) now w in
          rw (at, without_reply_books r)
            (Link-Moves_refund partner_id op_id m w r.1 refl (
              Effect-Link partner_id m w r (
                apply_ledger-Effect partner_id m (drop_issue op_id) now w free
                  (drop_issue-KeepsBalance op_id))))
    ]

pub debit_issue-Effect :
    (op_id : String) (i : IssueOp) (now : ℕ) (w : Books)
    → lookup (i.partner_id, i.entry_id) w.entries ≡ none
    → Effect i.partner_id (hold_mutation i) w (debit_issue op_id i now w)
unfolding debit_issue
debit_issue-Effect op_id i now w free =
    apply_ledger-Effect i.partner_id (hold_mutation i) (hold_issue op_id i now) now w free
      (hold_issue-KeepsBalance op_id i now)

put_claim-Moves :
    (partner_id : String) (key : IdemKey) (c : Claim) (w : Books)
    → ("issue_refund" =? key.0) ≡ false
    → Moves none w (put_claim partner_id key c w)
put_claim-Moves partner_id key c w other = record {
  entries = λ k e h. h;
  coupons = λ code. Evolves-refl (lookup code w.coupons);
  claims = λ p o h.
      lookup-insert_ne (partner_id, key) (p, issue_refund_key o) c w.claims
        (keys_differ partner_id p o key other);
  booked = λ b. record { conserved = b.conserved; nonneg = b.nonneg };
}

pub release_idempotency-Moves :
    (partner_id client_key : String) (now : ℕ) (w : Books)
    → Moves none w (release_idempotency partner_id (issue_key client_key) now w)
unfolding release_idempotency
release_idempotency-Moves partner_id client_key now w =
    let key = issue_key client_key in
    let c : Claim = record { state = released; made_at = now; entry = none; coupon = none } in
    let claimed = put_claim-Moves partner_id key c w refl in
    elim (Option-cases (lookup partner_id w.partners)) [
      | inl missing ↦ rw missing claimed
      | inr (p, found) ↦ elim (Bool-cases (is_applied key p.applied)) [
        | inr other ↦ rw (found, other) claimed
        | inl held ↦
            rw (found, held)
              (Moves-trans claimed (
                put_partner-Moves none partner_id (some p)
                  (record p { applied = remove_first (λ a. a.k =? key) p.applied })
                  (put_claim partner_id key c w) found refl))
      ]
    ]
