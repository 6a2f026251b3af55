-- ===== src/Partners/Run/Events.antt =====
-- Every event of the workers of src/routes/partner-store.ts keeps what holds of the books.
use rozo_mpprouter.Base.{
  ℕ, String, ◌≡◌, refl, inl, inr, Bool, true, false, Option, none, some, arith, Option-cases,
}
use rozo_mpprouter.Base.Keys.{string_eq, pair_eq}
use rozo_mpprouter.Base.Dict.{lookup, insert}
use rozo_mpprouter.Partners.Types.{CouponRecord, Books}
use rozo_mpprouter.Partners.Issue.{IssueOp, hold_mutation}
use rozo_mpprouter.Partners.Run.{World, Stage, debited, created, collided, on_books}
use rozo_mpprouter.Partners.Run.Links.{Moves}
use rozo_mpprouter.Partners.Run.Sound.{op_at, IsSound}
use rozo_mpprouter.Base.{List, [], ◌∷◌, if◌then◌else◌}
use rozo_mpprouter.Partners.Types.{LedgerKind, Attempt, threw, gave}
use rozo_mpprouter.Partners.Ledger.{Outcome}
use rozo_mpprouter.Partners.Ledger.Effect.{Effect, RecordedIf}
use rozo_mpprouter.Partners.Issue.{
  pending_issue, index_entry, confirm_pending_issue, debit_issue, topup_partner,
}
use rozo_mpprouter.Partners.Reconcile.{tombstone_of}
use rozo_mpprouter.Partners.Void.{
  void_partner_coupon, reconcile_refund, record_intent, refund_intent,
}
use rozo_mpprouter.Partners.Run.{
  Event, opened, status_set, topped_up, debits, creates, confirms, refunds, releases, reconciles,
  reconciles_late, tombstones, voids, intends, wins, settles, admin_issues, moves, after_debit,
  create_at, confirm_at, refund_at, for_op, if_new, open_partner, intend_for, without_partner, work,
  run_workers, nothing,
}
use rozo_mpprouter.Partners.Run.Links.{Link-Moves}
use rozo_mpprouter.Partners.Run.Frames.{
  topup_partner-Moves, confirm_pending_issue-Moves, debit_issue-Effect, release_idempotency-Moves,
}
use rozo_mpprouter.Partners.Run.Voids.{
  record_intent-Moves, win_void-Moves, reconcile_refund-Moves, void_partner_coupon-Moves,
  open_partner-Moves, set_status_over-Moves, move_over-Moves,
}
use rozo_mpprouter.Partners.Run.Sound.{Moves-IsSound}
use rozo_mpprouter.Partners.Run.Steps.{new_op-IsSound}
use rozo_mpprouter.Partners.Run.Workers.{
  create-IsSound, dead_coupon-IsSound, refund-IsSound, reconcile_absent-IsSound,
  reconcile_issue-IsSound,
}

pub quiet-IsSound :
    (s : World) (t : Books) → Moves none s.books t → IsSound s → IsSound (on_books s t)
quiet-IsSound s t f v = Moves-IsSound none s t f tt v

pub if_new-IsSound :
    (s : World) (partner_id entry_id : String) (t : World)
    → IsSound s
    → (lookup (partner_id, entry_id) s.books.entries ≡ none → IsSound t)
    → IsSound (if_new s partner_id entry_id t)
if_new-IsSound s partner_id entry_id t v next =
    elim (Option-cases (lookup (partner_id, entry_id) s.books.entries)) [
      | inl free ↦ rw free (next free)
      | inr (e, used) ↦ rw used v
    ]

pub for_op-IsSound :
    (s : World) (op_id : String) (act : IssueOp × Stage → World)
    → IsSound s
    → ((i : IssueOp) (stage : Stage)
        → lookup op_id s.ops ≡ op_at i stage
        → IsSound (act (i, stage)))
    → IsSound (for_op s op_id act)
for_op-IsSound s op_id act v next = elim (Option-cases (lookup op_id s.ops)) [
  | inl gone ↦ rw (gone, for_op) v
  | inr (i, held) ↦ rw (held, for_op) (next i.0 i.1 held)
]

pub after_debit-IsSound :
    (s : World) (op_id : String) (i : IssueOp) (r : Attempt Outcome × Books)
    → lookup op_id s.ops ≡ none
    → Effect i.partner_id (hold_mutation i) s.books r
    → IsSound s
    → IsSound (after_debit s op_id i r)
after_debit-IsSound s op_id i (threw e, t) fresh h v =
    quiet-IsSound s t (Link-Moves i.partner_id (hold_mutation i) s.books t refl h) v
after_debit-IsSound s op_id i (gave outcome, t) fresh (link, rec) v =
    let moved =
      quiet-IsSound s t (Link-Moves i.partner_id (hold_mutation i) s.books t refl link) v in
    applied_or_not outcome.applied rec moved
  where
    applied_or_not :
        (applied : Bool)
        → RecordedIf applied i.partner_id (hold_mutation i) t
        → IsSound (on_books s t)
        → IsSound (
            if applied
            then record { books = t; ops = insert op_id (i, debited) s.ops }
            else on_books s t)
    applied_or_not true rec moved = new_op-IsSound op_id i (on_books s t) fresh rec moved
    applied_or_not false rec moved = moved

pub debit-IsSound :
    (s : World) (op_id : String) (i : IssueOp) (now : ℕ)
    → IsSound s
    → IsSound (work (debits op_id i now) s)
unfolding work
debit-IsSound s op_id i now v = elim (Option-cases (lookup op_id s.ops)) [
  | inr (k, used) ↦ rw used v
  | inl fresh ↦ rw fresh (
      if_new-IsSound s i.partner_id i.entry_id _ v λ free.
        after_debit-IsSound s op_id i (debit_issue op_id i now s.books) fresh
          (debit_issue-Effect op_id i now s.books free) v)
]

pub create_at-IsSound :
    (s : World) (op_id : String) (now : ℕ) (i : IssueOp) (stage : Stage)
    → lookup op_id s.ops ≡ op_at i stage
    → IsSound s
    → IsSound (create_at s op_id now (i, stage))
create_at-IsSound s op_id now i debited held v = create-IsSound op_id i now s held v
create_at-IsSound s op_id now i created held v = v
create_at-IsSound s op_id now i collided held v = v

pub confirm_at-IsSound :
    (s : World) (op_id : String) (now : ℕ) (i : IssueOp) (stage : Stage)
    → IsSound s
    → IsSound (confirm_at s op_id now (i, stage))
confirm_at-IsSound s op_id now i created v =
    quiet-IsSound s (confirm_pending_issue i.partner_id op_id (index_entry i now) s.books).1
      (confirm_pending_issue-Moves none i.partner_id op_id (index_entry i now) s.books) v
confirm_at-IsSound s op_id now i debited v = v
confirm_at-IsSound s op_id now i collided v = v

pub refund_at-IsSound :
    (s : World) (op_id entry_id : String) (now : ℕ) (i : IssueOp) (stage : Stage)
    → lookup op_id s.ops ≡ op_at i stage
    → IsSound s
    → IsSound (refund_at s op_id entry_id now (i, stage))
refund_at-IsSound s op_id entry_id now i collided held v =
    if_new-IsSound s i.partner_id entry_id _ v
      λ free. refund-IsSound op_id i collided entry_id now s held free (v.collisions op_id i held) v
refund_at-IsSound s op_id entry_id now i debited held v = v
refund_at-IsSound s op_id entry_id now i created held v = v

pub intend_for-IsSound :
    (s : World) (partner_id code : String) (kind : LedgerKind) (op_id : String) (now : ℕ)
    (rec : Option CouponRecord)
    → IsSound s
    → IsSound (intend_for s partner_id code kind op_id now rec)
intend_for-IsSound s partner_id code kind op_id now none v = v
intend_for-IsSound s partner_id code kind op_id now (some rec) v =
    let intent = refund_intent code rec kind op_id now in
    quiet-IsSound s (record_intent partner_id intent s.books).1
      (record_intent-Moves partner_id intent s.books) v

pub step-IsSound : (e : Event) (s : World) → IsSound s → IsSound (work e s)
unfolding work
step-IsSound (opened partner_id p) s v =
    quiet-IsSound s (open_partner partner_id p s.books) (open_partner-Moves partner_id p s.books) v
step-IsSound (status_set partner_id suspended) s v =
    quiet-IsSound s _ (set_status_over-Moves partner_id suspended s.books) v
step-IsSound (topped_up partner_id amount proof entry_id now) s v =
    if_new-IsSound s partner_id entry_id _ v λ free.
      quiet-IsSound s (topup_partner partner_id amount proof none none entry_id now s.books).1
        (topup_partner-Moves partner_id amount proof entry_id now s.books free) v
step-IsSound (debits op_id i now) s v = debit-IsSound s op_id i now v
step-IsSound (creates op_id now) s v =
    for_op-IsSound s op_id (create_at s op_id now) v
      λ i stage held. create_at-IsSound s op_id now i stage held v
step-IsSound (confirms op_id now) s v =
    for_op-IsSound s op_id (confirm_at s op_id now) v
      λ i stage held. confirm_at-IsSound s op_id now i stage v
step-IsSound (refunds op_id entry_id now) s v =
    for_op-IsSound s op_id (refund_at s op_id entry_id now) v
      λ i stage held. refund_at-IsSound s op_id entry_id now i stage held v
step-IsSound (releases partner_id client_key now) s v =
    quiet-IsSound s _ (release_idempotency-Moves partner_id client_key now s.books) v
step-IsSound (reconciles op_id entry_id made_at now) s v =
    for_op-IsSound s op_id _ v λ i stage held.
      if_new-IsSound s i.partner_id entry_id _ v
        λ free. reconcile_issue-IsSound op_id i stage entry_id now made_at s held free v
step-IsSound (reconciles_late op_id entry_id made_at now) s v =
    for_op-IsSound s op_id _ v λ i stage held.
      if_new-IsSound s i.partner_id entry_id _ v
        λ free. reconcile_absent-IsSound op_id i stage entry_id now made_at s held free v
step-IsSound (tombstones op_id now) s v = for_op-IsSound s op_id _ v λ i stage held.
    dead_coupon-IsSound i.code (tombstone_of i.partner_id (pending_issue op_id i now) now) s
      (λ p live own. cc live) v
step-IsSound (voids partner_id code kind op_id entry_id now) s v =
    if_new-IsSound s partner_id entry_id _ v λ free.
      quiet-IsSound s (void_partner_coupon partner_id code kind op_id entry_id now s.books).1
        (void_partner_coupon-Moves partner_id code kind op_id entry_id now s.books free) v
step-IsSound (intends partner_id code kind op_id now) s v =
    intend_for-IsSound s partner_id code kind op_id now (lookup code s.books.coupons) v
step-IsSound (wins partner_id code op_id) s v =
    quiet-IsSound s _ (win_void-Moves partner_id code op_id s.books) v
step-IsSound (settles partner_id code entry_id now) s v =
    if_new-IsSound s partner_id entry_id _ v λ free.
      quiet-IsSound s (reconcile_refund partner_id code entry_id now s.books).1
        (reconcile_refund-Moves partner_id code entry_id now s.books free) v
step-IsSound (admin_issues code rec) s v =
    dead_coupon-IsSound code (without_partner rec) s (λ p live own. cc own) v
step-IsSound (moves code status) s v = quiet-IsSound s _ (move_over-Moves code status s.books) v

pub run_workers-IsSound : (es : List Event) (s : World) → IsSound s → IsSound (run_workers es s)
unfolding run_workers
run_workers-IsSound [] s v = v
run_workers-IsSound (e ∷ es) s v = run_workers-IsSound es (work e s) (step-IsSound e s v)

pub nothing-IsSound : IsSound nothing
unfolding lookup
nothing-IsSound = record {
  booked = record { conserved = λ p. refl; nonneg = λ p. omega arith };
  paid = λ code c p at live own. absurd (cc at);
  recorded = λ op i stage h. absurd (cc h);
  collisions = λ op i h. absurd (cc h);
  refunded = λ p op c h. absurd (cc h);
}
