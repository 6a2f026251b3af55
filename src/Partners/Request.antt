-- ===== src/Partners/Request.antt =====
-- The request for a partner's coupon and the repair before it, as whole calls:
-- `issuePartnerCoupon` and `reconcilePending` of src/routes/partner-store.ts. What a call draws at
-- random and its instants are arguments.
pub mod Delivered
pub mod Retried
use rozo_mpprouter.Base.{
  ℕ, ◌+◌, ◌*◌, String, Bool, true, false, not, ◌&&◌, Option, none, some, List, [], ◌∷◌, take,
  is_some, if◌then◌else◌,
}
use rozo_mpprouter.Base.Int.{ℤ, pos, leb_ℤ}
use rozo_mpprouter.Base.Keys.{◌=?◌, string_eq, pair_eq}
use rozo_mpprouter.Base.Dict.{lookup}
use rozo_mpprouter.Partners.Types.{
  PendingIssue, PendingRefund, Applied, PartnerRecord, CouponRecord, Claim, settled, pending,
  released, code_allocation_failed, issue_in_flight, invalid_amount, Attempt, threw, gave, Books,
  is_text, find_first,
}
use rozo_mpprouter.Partners.Ledger.{Outcome}
use rozo_mpprouter.Partners.Issue.{
  IssueOp, issue_key, debit_issue, issued_coupon, create_coupon, index_entry, confirm_pending_issue,
  refund_pending_issue, release_idempotency,
}
use rozo_mpprouter.Partners.Reconcile.{reconcile_issue}
use rozo_mpprouter.Partners.Void.{reconcile_refund}

-- A statement and what follows it; an exception skips that.
abbrev pub and_then {ℓ} :
    {A : Type ℓ} → (Books → Attempt A × Books) → Attempt (Unit {0}) × Books → Attempt A × Books
and_then next (threw e, w) = (threw e, w)
and_then next (gave done, w) = next w

abbrev pub return_unit : Books → Attempt (Unit {0}) × Books
return_unit w = (gave tt, w)

-- `entry_of` is the ledger entry's id drawn for an operation.
unfoldable pub reconcile_issues :
    String → (String → String) → ℕ → List PendingIssue → Books → Attempt (Unit {0}) × Books
reconcile_issues partner_id entry_of now [] w = (gave tt, w)
reconcile_issues partner_id entry_of now (o ∷ os) w =
    and_then (reconcile_issues partner_id entry_of now os)
      (reconcile_issue partner_id o (entry_of o.op_id) now w)

unfoldable pub reconcile_refunds :
    String → (String → String) → ℕ → List PendingRefund → Books → Attempt (Unit {0}) × Books
reconcile_refunds partner_id entry_of now [] w = (gave tt, w)
reconcile_refunds partner_id entry_of now (r ∷ rs) w =
    and_then (reconcile_refunds partner_id entry_of now rs)
      (reconcile_refund partner_id r.code (entry_of r.refund_op_id) now w)

abbrev pub reconcile_over :
    String → (String → String) → ℕ → Option PartnerRecord → Books → Attempt (Unit {0}) × Books
reconcile_over partner_id entry_of now none w = (gave tt, w)
reconcile_over partner_id entry_of now (some p) w =
    and_then (reconcile_refunds partner_id entry_of now p.pending_refunds)
      (reconcile_issues partner_id entry_of now p.pending_issues w)

-- Both loops run over the lists of the record that is read first.
unfoldable pub reconcile_pending :
    String → (String → String) → ℕ → Books → Attempt (Unit {0}) × Books
reconcile_pending partner_id entry_of now w =
    reconcile_over partner_id entry_of now (lookup partner_id w.partners) w

-- Without `amountUsd`, the amount's print.
pub record IssueResult : Type 0 where
  pub code : String
  pub amount : ℤ
  pub expires_at : ℕ
  pub balance_after : Option ℤ
  pub reused : Bool

-- The first of two that is there, the source's `??=`.
abbrev pub or_some {ℓ} : {A : Type ℓ} → Option A → Option A → Option A
or_some (some a) o = some a
or_some none o = o

abbrev pub settled_code : Option Claim → Option String
settled_code none = none
settled_code (some c) = elim c.state [ settled ↦ c.coupon | pending ↦ none | released ↦ none ]

abbrev pub applied_code : Option Applied → Option String
applied_code none = none
applied_code (some a) = a.c

abbrev pub pending_code : Option PendingIssue → Option String
pending_code none = none
pending_code (some o) = some o.code

abbrev pub in_flight_issue : String → PartnerRecord → Option PendingIssue
in_flight_issue client_key p = find_first (λ o. o.client_key =? client_key) p.pending_issues

-- The code that a client's key has led to: by the durable record, else by the record's own lists.
abbrev pub issued_code : String → Option Claim → PartnerRecord → Option String
issued_code client_key claim p = or_some (settled_code claim) (
    or_some (applied_code (find_first (λ a. a.k =? issue_key client_key) p.applied))
      (pending_code (in_flight_issue client_key p)))

-- The key of a finished and failed issue is released.
abbrev pub forget_issue : String → String → ℕ → PartnerRecord → Books → Books
forget_issue partner_id client_key now p w =
    if is_some (in_flight_issue client_key p)
    then w
    else release_idempotency partner_id (issue_key client_key) now w

abbrev pub replay_of : CouponRecord → PartnerRecord → IssueResult
replay_of rec p = record {
  code = rec.code;
  amount = rec.amount;
  expires_at = rec.expires_at;
  balance_after = some p.balance;
  reused = true;
}

abbrev pub is_usable : String → CouponRecord → Bool
is_usable partner_id rec = not rec.tombstone && is_text rec.partner_id partner_id

abbrev pub replay_coupon :
    String → String → ℕ → PartnerRecord → Option CouponRecord → Books → Option IssueResult × Books
replay_coupon partner_id client_key now p none w =
    (none, forget_issue partner_id client_key now p w)
replay_coupon partner_id client_key now p (some rec) w =
    if is_usable partner_id rec
    then (some (replay_of rec p), w)
    else (none, forget_issue partner_id client_key now p w)

abbrev pub replay_code :
    String → String → ℕ → PartnerRecord → Option String → Books → Option IssueResult × Books
replay_code partner_id client_key now p none w = (none, w)
replay_code partner_id client_key now p (some code) w =
    replay_coupon partner_id client_key now p (lookup code w.coupons) w

abbrev pub find_over :
    String → String → ℕ → Option PartnerRecord → Books → Option IssueResult × Books
find_over partner_id client_key now none w = (none, w)
find_over partner_id client_key now (some p) w =
    replay_code partner_id client_key now p
      (issued_code client_key (lookup (partner_id, issue_key client_key) w.claims) p) w

unfoldable pub find_issued_by_client_key : String → String → ℕ → Books → Option IssueResult × Books
find_issued_by_client_key partner_id client_key now w =
    find_over partner_id client_key now (lookup partner_id w.partners) w

-- What one attempt draws, with the entry's id of its refund, and its instant.
pub record Draw : Type 0 where
  pub op_id : String
  pub code : String
  pub entry_id : String
  pub refund_entry_id : String
  pub made_at : ℕ

abbrev pub drawn : IssueOp → Draw → IssueOp
drawn i d = record i { code = d.code; entry_id = d.entry_id }

abbrev pub known_balance : Option PartnerRecord → Option PartnerRecord → Option ℤ
known_balance (some p) o = some p.balance
known_balance none (some p) = some p.balance
known_balance none none = none

-- After the coupon's key was written, or was not.
abbrev pub after_create :
    IssueOp
    → Draw
    → Option PartnerRecord
    → (Books → Attempt IssueResult × Books)
    → Bool × Books
    → Attempt IssueResult × Books
after_create i d partner retry (true, w) =
    let (after, t) =
      confirm_pending_issue i.partner_id d.op_id (index_entry (drawn i d) d.made_at) w in
    (
      gave (record {
        code = d.code;
        amount = i.amount;
        expires_at = d.made_at + i.expires_in_minutes * 60000;
        balance_after = known_balance after partner;
        reused = false;
      }),
      t,
    )
after_create i d partner retry (false, w) =
    and_then (λ t. retry (release_idempotency i.partner_id (issue_key i.client_key) d.made_at t))
      (refund_pending_issue i.partner_id d.op_id d.refund_entry_id d.made_at w)

-- A key that was already consumed.
abbrev pub or_in_flight : Option IssueResult × Books → Attempt IssueResult × Books
or_in_flight (none, w) = (threw issue_in_flight, w)
or_in_flight (some r, w) = (gave r, w)

abbrev pub after_debit :
    IssueOp
    → Draw
    → (Books → Attempt IssueResult × Books)
    → Attempt Outcome × Books
    → Attempt IssueResult × Books
after_debit i d retry (threw e, w) = (threw e, w)
after_debit i d retry (gave outcome, w) =
    if outcome.applied
    then after_create i d outcome.partner retry
        (create_coupon d.code (issued_coupon d.op_id (drawn i d) d.made_at) w)
    else or_in_flight (find_issued_by_client_key i.partner_id i.client_key d.made_at w)

-- The loop over the attempts, one for each draw.
unfoldable pub issue_attempts : IssueOp → List Draw → Books → Attempt IssueResult × Books
issue_attempts i [] w = (threw code_allocation_failed, w)
issue_attempts i (d ∷ ds) w =
    after_debit i d (issue_attempts i ds) (debit_issue d.op_id (drawn i d) d.made_at w)

abbrev pub or_issue : IssueOp → List Draw → Option IssueResult × Books → Attempt IssueResult × Books
or_issue i ds (some r, w) = (gave r, w)
or_issue i ds (none, w) = issue_attempts i (take 10 ds) w

unfoldable pub issue_partner_coupon :
    IssueOp → List Draw → (String → String) → ℕ → Books → Attempt IssueResult × Books
issue_partner_coupon i ds entry_of now w =
    if leb_ℤ i.amount (pos 0)
    then (threw invalid_amount, w)
    else and_then (λ t. or_issue i ds (find_issued_by_client_key i.partner_id i.client_key now t))
        (reconcile_pending i.partner_id entry_of now w)
