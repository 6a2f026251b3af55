-- ===== src/Tests/Partners.antt =====
-- Runs of the partner ledger (src/routes/partner-store.ts).
use rozo_mpprouter.Base.{ℕ, some, String, ◌≡◌, refl, true, false, none, List, [], ◌∷◌, arith, ◌++◌}
use rozo_mpprouter.Base.Int.{ℤ, pos, negsuc, ◌+ℤ◌, ◌-ℤ◌}
use rozo_mpprouter.Base.Keys.{string_eq, pair_eq}
use rozo_mpprouter.Base.Dict.{lookup, insert, measure, sum_by}
use rozo_mpprouter.Partners.Types.{
  gave, PendingIssue, PartnerRecord, Books, find_first, remove_first, void_refund,
}
use rozo_mpprouter.Partners.Ledger.{
  charged_partner, take_claim, write_draft, charge_partner, commit_charge, settle_claim,
  apply_ledger,
}
use rozo_mpprouter.Partners.Ledger.Begun.{balance, settled_delta}
use rozo_mpprouter.Partners.Ledger.Retry.{after_commit, stopped, apply_ledger_once}
use rozo_mpprouter.Partners.Issue.{
  topup_mutation, IssueOp, hold_issue, hold_mutation, pending_issue, topup_partner, debit_issue,
  create_coupon, issued_coupon, confirm_pending_issue, refund_pending_issue,
}
use rozo_mpprouter.Partners.Reconcile.{reconcile_absent, reconcile_issue}
use rozo_mpprouter.Partners.Reconcile.Repairs.{Repaired, reconcile_issue-Repaired}
use rozo_mpprouter.Partners.Void.{
  record_intent, win_void, mark_refunded, settle_refund, void_partner_coupon,
}
use rozo_mpprouter.Partners.Request.{Draw, issue_partner_coupon}
use rozo_mpprouter.Partners.Request.Delivered.{IsDelivered, issue_partner_coupon-IsDelivered}
use rozo_mpprouter.Partners.Request.Retried.{issue_result, issued_books, issue_partner_coupon_retry}
use rozo_mpprouter.Partners.Cut.{
  Call, claimed, plain, holding, Turn, opens, begins, advances, begin_call, take_turn, take_turns,
  empty_desk,
}
use rozo_mpprouter.Partners.Cut.Account.{open_delta, IsAccounted}
use rozo_mpprouter.Partners.Cut.Drift.{take_turns-IsAccounted}
use rozo_mpprouter.Partners.Run.{
  Event, opened, topped_up, debits, creates, refunds, reconciles, reconciles_late, voids, work,
  run_workers, nothing,
}
use rozo_mpprouter.Partners.Run.Backed.{IsBacked, run_workers-IsBacked}

abbrev account : PartnerRecord
account = record {
  id = "p";
  email = "earnest";
  suspended = false;
  balance = pos 0;
  created_at = 0;
  pending_issues = [];
  pending_refunds = [];
  coupon_index = [];
  ledger_index = [];
  applied = [];
}

abbrev order : IssueOp
order = record {
  partner_id = "p";
  client_key = "k";
  code = "1234567890";
  amount = pos 40;
  credits = none;
  expires_in_minutes = 60;
  note = none;
  entry_id = "led_2";
}

abbrev paid_up : List Event
paid_up = opened "p" account ∷ topped_up "p" (pos 100) "proof" "led_1" 5 ∷ debits "op" order 10 ∷ []

-- The reconcile read an absent key; the slow issuer created the coupon before its tombstone.
abbrev slow_issuer : List Event
slow_issuer = paid_up ++ creates "op" 90000 ∷ reconciles_late "op" "led_3" 10 90001 ∷ []

-- The tombstone came first.
abbrev late_issuer : List Event
late_issuer =
    paid_up
    ++ reconciles "op" "led_3" 10 90000 ∷ creates "op" 90001 ∷ refunds "op" "led_4" 90002 ∷ []

abbrev balance_after : List Event → ℤ
balance_after es = measure balance (lookup "p" (run_workers es nothing).books.partners)

balances : (balance_after slow_issuer ≡ pos 60) × (balance_after late_issuer ≡ pos 100)
unfolding run_workers work topup_partner debit_issue apply_ledger take_claim write_draft
    charge_partner commit_charge settle_claim create_coupon confirm_pending_issue
    refund_pending_issue reconcile_absent reconcile_issue lookup insert find_first remove_first ◌+ℤ◌
    ◌-ℤ◌
balances = (refl, refl)

-- A voided coupon is credited, and a second void of it finds nothing owed.
abbrev voided_twice : List Event
voided_twice =
    slow_issuer
    ++ voids "p" "1234567890" void_refund "ref_1" "led_5" 90010
      ∷ voids "p" "1234567890" void_refund "ref_2" "led_6" 90020
      ∷ []

void_balance : balance_after voided_twice ≡ pos 100
unfolding run_workers work topup_partner debit_issue apply_ledger take_claim write_draft
    charge_partner commit_charge settle_claim create_coupon confirm_pending_issue
    refund_pending_issue reconcile_absent reconcile_issue record_intent win_void mark_refunded
    settle_refund void_partner_coupon lookup insert find_first remove_first ◌+ℤ◌ ◌-ℤ◌
void_balance = refl

run_workers-IsBacked_example :
    IsBacked
      (run_workers slow_issuer nothing).books
      "1234567890"
      (issued_coupon "op" order 90000)
      "p"
unfolding run_workers work topup_partner debit_issue apply_ledger take_claim write_draft
    charge_partner commit_charge settle_claim create_coupon confirm_pending_issue
    refund_pending_issue reconcile_absent reconcile_issue lookup insert find_first remove_first ◌+ℤ◌
    ◌-ℤ◌
run_workers-IsBacked_example =
    run_workers-IsBacked slow_issuer "1234567890" (issued_coupon "op" order 90000) "p" refl refl
      refl

abbrev books : Books
books = record { partners = ("p", account) ∷ []; coupons = []; claims = []; entries = [] }

abbrev left_over : PendingIssue
left_over = record {
  op_id = "op";
  client_key = "k";
  code = "1234567890";
  amount = pos 40;
  made_at = 10;
}

abbrev debited : PartnerRecord
debited = record account { balance = pos 60; pending_issues = left_over ∷ [] }

abbrev debited_books : Books
debited_books = record books { partners = ("p", debited) ∷ [] }

reconcile_issue-Repaired_example :
    Repaired "p" left_over debited (reconcile_issue "p" left_over "led_3" 90000 debited_books).1
unfolding lookup find_first
reconcile_issue-Repaired_example =
    reconcile_issue-Repaired "p" left_over "led_3" 90000 debited refl (omega arith) (omega arith)
      refl debited_books refl refl refl refl

abbrev draw : Draw
draw = record {
  op_id = "op";
  code = "1234567890";
  entry_id = "led_2";
  refund_entry_id = "led_3";
  made_at = 10;
}

abbrev another_draw : Draw
another_draw = record draw { op_id = "op2"; code = "0987654321"; made_at = 90000 }

abbrev funded : PartnerRecord
funded = record account { balance = pos 100 }

abbrev funded_books : Books
funded_books = record books { partners = ("p", funded) ∷ [] }

abbrev redraw : String → String
redraw op = "led_4"

issue_partner_coupon_retry_example :
    (issue_partner_coupon order (draw ∷ []) redraw 10 funded_books ≡ (
      gave (issue_result order draw funded funded_books),
      issued_books order draw funded funded_books,
    ))
    × (issue_partner_coupon
          (record order { amount = pos 7 })
          (another_draw ∷ [])
          redraw
          90000
          (issued_books order draw funded funded_books)
        ≡ (
          gave (record (issue_result order draw funded funded_books) { reused = true }),
          issued_books order draw funded funded_books,
        ))
unfolding lookup find_first ◌+ℤ◌ ◌-ℤ◌
issue_partner_coupon_retry_example =
    issue_partner_coupon_retry order draw funded funded_books refl refl refl refl refl refl refl
      refl refl refl [] (another_draw ∷ []) redraw redraw 10 90000 (record order { amount = pos 7 })
      refl refl refl

issue_partner_coupon-IsDelivered_example :
    IsDelivered "p" (issue_partner_coupon order (draw ∷ []) redraw 10 funded_books)
issue_partner_coupon-IsDelivered_example =
    issue_partner_coupon-IsDelivered order (draw ∷ []) redraw 10 funded_books

-- The debit of an issue that stopped behind its commit, and the one of the retry.
abbrev retried : IssueOp
retried = record order { code = "0987654321"; entry_id = "led_9" }

abbrev held_by : String → IssueOp → ℕ → PartnerRecord
held_by op_id i now = record (charged_partner (hold_mutation i) funded) {
  pending_issues = pending_issue op_id i now ∷ [];
}

apply_ledger_once_example :
    let o =
      lookup "p"
        (apply_ledger "p" (hold_mutation retried) (hold_issue "op2" retried 70000) 70000 (
          stopped after_commit "p"
            (hold_mutation order)
            (hold_issue "op" order 5)
            5
            funded_books)).1.partners in
    (o ≡ some (held_by "op" order 5)) × (measure balance o ≡ pos 100 +ℤ (pos 0 -ℤ pos 40))
unfolding lookup find_first ◌+ℤ◌ ◌-ℤ◌
apply_ledger_once_example =
    apply_ledger_once "p" (hold_mutation order) 5 funded_books funded refl refl refl refl refl
      (hold_issue "op" order 5) (held_by "op" order 5) refl
      (record { same_balance = refl; same_applied = refl }) (hold_mutation retried) refl refl refl
      refl (hold_issue "op2" retried 70000) (held_by "op2" retried 70000) refl
      (record { same_balance = refl; same_applied = refl }) 70000 (omega arith) after_commit

-- A top-up, and the debit of an issue whose worker stops between its commit and its entry; a minute
-- later its retry finds the change made.
abbrev top_call : Call
top_call = record {
  partner_id = "p";
  m = topup_mutation (pos 100) "proof" none none "led_1";
  extra = plain;
  now = 5;
  stage = claimed;
}

abbrev hold_call : Call
hold_call = record {
  partner_id = "p";
  m = hold_mutation order;
  extra = holding "op" order 10;
  now = 10;
  stage = claimed;
}

abbrev retry_call : Call
retry_call = record hold_call {
  m = hold_mutation retried;
  extra = holding "op2" retried 70010;
  now = 70010;
}

abbrev top_up : List Turn
top_up =
    opens "p" account
    ∷ begins top_call
    ∷ advances ("p", "led_1")
    ∷ advances ("p", "led_1")
    ∷ advances ("p", "led_1")
    ∷ []

abbrev cut_short : List Turn
cut_short =
    top_up
    ++ begins hold_call
      ∷ advances ("p", "led_2")
      ∷ advances ("p", "led_2")
      ∷ begins retry_call
      ∷ advances ("p", "led_9")
      ∷ advances ("p", "led_9")
      ∷ []

cut_short_drift :
    let s = take_turns cut_short empty_desk in
    (measure balance (lookup "p" s.books.partners) ≡ pos 60)
    × (sum_by (settled_delta "p") s.books.entries ≡ pos 100)
    × (sum_by (open_delta "p") s.calls ≡ negsuc 39)
unfolding take_turns take_turn begin_call take_claim write_draft commit_charge charge_partner
    settle_claim lookup insert find_first ◌+ℤ◌ ◌-ℤ◌
cut_short_drift = (refl, refl, refl)

take_turns-IsAccounted_example : IsAccounted (take_turns cut_short empty_desk)
take_turns-IsAccounted_example = take_turns-IsAccounted cut_short
