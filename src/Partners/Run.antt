-- ===== src/Partners/Run.antt =====
-- Workers that interleave over one store, in the terms of src/routes/partner-store.ts: an issue is
-- cut at each of its steps, and a worker may stop between them. A call of applyLedger is one step
-- here; Partners.Cut cuts it at its updates.
pub mod Events
pub mod Links
pub mod Frames
pub mod Voids
pub mod Sound
pub mod Steps
pub mod Workers
pub mod Backed
use rozo_mpprouter.Base.{
  ℕ, String, Bool, true, false, not, Option, none, some, List, [], ◌∷◌, is_some, if◌then◌else◌,
}
use rozo_mpprouter.Base.Int.{ℤ}
use rozo_mpprouter.Base.Keys.{string_eq, pair_eq}
use rozo_mpprouter.Base.Dict.{Dict, lookup, insert}
use rozo_mpprouter.Partners.Types.{
  LedgerKind, PartnerRecord, CouponStatus, CouponRecord, Books, Attempt, threw, gave,
}
use rozo_mpprouter.Partners.Ledger.{Outcome, put_partner}
use rozo_mpprouter.Partners.Issue.{
  IssueOp, issue_key, topup_partner, debit_issue, create_coupon, issued_coupon, pending_issue,
  index_entry, confirm_pending_issue, refund_pending_issue, release_idempotency,
}
use rozo_mpprouter.Partners.Reconcile.{tombstone_of, reconcile_issue, reconcile_absent}
use rozo_mpprouter.Partners.Void.{
  put_coupon, void_partner_coupon, reconcile_refund, record_intent, win_void, refund_intent,
}

-- Where an issuing worker stands after its debit.
pub data Stage : Type 0 where
  debited created collided : Stage

pub record World : Type 0 where
  pub books : Books
  pub ops : Dict String (IssueOp × Stage)

pub data Event : Type 0 where
  -- `getOrCreatePartnerByEmail` and `setPartnerStatus`
  opened : String → PartnerRecord → Event
  status_set : String → Bool → Event
  topped_up : String → ℤ → String → String → ℕ → Event
  -- the three steps of an issue, and what follows a collision
  debits : String → IssueOp → ℕ → Event
  creates : String → ℕ → Event
  confirms : String → ℕ → Event
  refunds : String → String → ℕ → Event
  releases : String → String → ℕ → Event
  -- a round of reconcile; one that read the coupon's key when it was absent; and one that stops
  -- behind its tombstone
  reconciles : String → String → ℕ → ℕ → Event
  reconciles_late : String → String → ℕ → ℕ → Event
  tombstones : String → ℕ → Event
  -- the void of a coupon, cut behind its first and its second step, and its repair
  voids : String → String → LedgerKind → String → String → ℕ → Event
  intends : String → String → LedgerKind → String → ℕ → Event
  wins : String → String → String → Event
  settles : String → String → String → ℕ → Event
  -- the coupons' own routes: a coupon of no partner is created, a coupon's status moves
  admin_issues : String → CouponRecord → Event
  moves : String → CouponStatus → Event

abbrev pub on_books : World → Books → World
on_books s w = record s { books = w }

-- A debit that was made puts the worker before the creation.
abbrev pub after_debit : World → String → IssueOp → Attempt Outcome × Books → World
after_debit s op_id i (threw e, w) = on_books s w
after_debit s op_id i (gave outcome, w) =
    if outcome.applied
    then record { books = w; ops = insert op_id (i, debited) s.ops }
    else on_books s w

abbrev pub after_create : World → String → IssueOp → Bool × Books → World
after_create s op_id i (made, w) = record {
  books = w;
  ops = insert op_id (i, if made then created else collided) s.ops;
}

abbrev pub issuer : World → String → Option (IssueOp × Stage)
issuer s op_id = lookup op_id s.ops

-- Random identifiers are new.
abbrev pub is_new_entry : World → String → String → Bool
is_new_entry s partner_id entry_id = not (is_some (lookup (partner_id, entry_id) s.books.entries))

abbrev pub create_at : World → String → ℕ → IssueOp × Stage → World
create_at s op_id now (i, debited) =
    after_create s op_id i (create_coupon i.code (issued_coupon op_id i now) s.books)
create_at s op_id now (i, created) = s
create_at s op_id now (i, collided) = s

abbrev pub confirm_at : World → String → ℕ → IssueOp × Stage → World
confirm_at s op_id now (i, created) =
    on_books s (confirm_pending_issue i.partner_id op_id (index_entry i now) s.books).1
confirm_at s op_id now (i, debited) = s
confirm_at s op_id now (i, collided) = s

abbrev pub refund_at : World → String → String → ℕ → IssueOp × Stage → World
refund_at s op_id entry_id now (i, collided) =
    if is_new_entry s i.partner_id entry_id
    then on_books s (refund_pending_issue i.partner_id op_id entry_id now s.books).1
    else s
refund_at s op_id entry_id now (i, debited) = s
refund_at s op_id entry_id now (i, created) = s

abbrev pub for_op : World → String → (IssueOp × Stage → World) → World
for_op s op_id act = elim (issuer s op_id) [ none ↦ s | some i ↦ act i ]

abbrev pub if_new : World → String → String → World → World
if_new s partner_id entry_id t = if is_new_entry s partner_id entry_id then t else s

-- What `opened` creates: an account without money.
abbrev pub fresh_partner : String → PartnerRecord → PartnerRecord
fresh_partner partner_id p = record p {
  id = partner_id;
  balance = ℤ.pos 0;
  pending_issues = [];
  pending_refunds = [];
  coupon_index = [];
  ledger_index = [];
  applied = [];
}

abbrev pub open_partner : String → PartnerRecord → Books → Books
open_partner partner_id p w =
    if is_some (lookup partner_id w.partners)
    then w
    else put_partner partner_id (fresh_partner partner_id p) w

abbrev pub set_status_over : String → Bool → Option PartnerRecord → Books → Books
set_status_over partner_id suspended none w = w
set_status_over partner_id suspended (some p) w =
    put_partner partner_id (record p { suspended = suspended }) w

abbrev pub intend_for :
    World → String → String → LedgerKind → String → ℕ → Option CouponRecord → World
intend_for s partner_id code kind op_id now none = s
intend_for s partner_id code kind op_id now (some rec) =
    on_books s (record_intent partner_id (refund_intent code rec kind op_id now) s.books).1

abbrev pub without_partner : CouponRecord → CouponRecord
without_partner rec = record rec { partner_id = none; tombstone = false }

abbrev pub move_over : String → CouponStatus → Option CouponRecord → Books → Books
move_over code status none w = w
move_over code status (some rec) w =
    if rec.tombstone then w else put_coupon code (record rec { status = status }) w

unfoldable pub work : Event → World → World
work (opened partner_id p) s = on_books s (open_partner partner_id p s.books)
work (status_set partner_id suspended) s =
    on_books s (set_status_over partner_id suspended (lookup partner_id s.books.partners) s.books)
work (topped_up partner_id amount proof entry_id now) s =
    if_new s partner_id entry_id
      (on_books s (topup_partner partner_id amount proof none none entry_id now s.books).1)
work (debits op_id i now) s =
    if is_some (issuer s op_id)
    then s
    else if_new s i.partner_id i.entry_id (after_debit s op_id i (debit_issue op_id i now s.books))
work (creates op_id now) s = for_op s op_id (create_at s op_id now)
work (confirms op_id now) s = for_op s op_id (confirm_at s op_id now)
work (refunds op_id entry_id now) s = for_op s op_id (refund_at s op_id entry_id now)
work (releases partner_id client_key now) s =
    on_books s (release_idempotency partner_id (issue_key client_key) now s.books)
work (reconciles op_id entry_id made_at now) s = for_op s op_id λ i.
    if_new s i.0.partner_id entry_id (
      on_books s
        (reconcile_issue i.0.partner_id (pending_issue op_id i.0 made_at) entry_id now s.books).1)
work (reconciles_late op_id entry_id made_at now) s = for_op s op_id λ i.
    if_new s i.0.partner_id entry_id (
      on_books s
        (reconcile_absent i.0.partner_id (pending_issue op_id i.0 made_at) entry_id now s.books).1)
work (tombstones op_id now) s = for_op s op_id λ i.
    on_books s
      (create_coupon i.0.code (tombstone_of i.0.partner_id (pending_issue op_id i.0 now) now)
        s.books).1
work (voids partner_id code kind op_id entry_id now) s =
    if_new s partner_id entry_id
      (on_books s (void_partner_coupon partner_id code kind op_id entry_id now s.books).1)
work (intends partner_id code kind op_id now) s =
    intend_for s partner_id code kind op_id now (lookup code s.books.coupons)
work (wins partner_id code op_id) s = on_books s (win_void partner_id code op_id s.books).1
work (settles partner_id code entry_id now) s =
    if_new s partner_id entry_id
      (on_books s (reconcile_refund partner_id code entry_id now s.books).1)
work (admin_issues code rec) s = on_books s (create_coupon code (without_partner rec) s.books).1
work (moves code status) s =
    on_books s (move_over code status (lookup code s.books.coupons) s.books)

unfoldable pub run_workers : List Event → World → World
run_workers [] s = s
run_workers (e ∷ es) s = run_workers es (work e s)

abbrev pub nothing : World
nothing = record {
  books = record { partners = []; coupons = []; claims = []; entries = [] };
  ops = [];
}
