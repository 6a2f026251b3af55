-- ===== src/Partners/Cut.antt =====
-- Calls of `applyLedger` (src/routes/partner-store.ts) cut at each of its compare-and-set updates:
-- any workers interleave their updates over one store, and one that stops makes no further update.
pub mod Account
pub mod Updates
pub mod Drift
use rozo_mpprouter.Base.{
  ℕ, String, Bool, true, false, ◌||◌, Option, none, some, List, [], ◌∷◌, is_some, if◌then◌else◌,
}
use rozo_mpprouter.Base.Int.{ℤ}
use rozo_mpprouter.Base.Keys.{string_eq, pair_eq}
use rozo_mpprouter.Base.Dict.{Dict, lookup, insert}
use rozo_mpprouter.Partners.Types.{LedgerEntry, PartnerRecord, Books, Attempt, threw, gave}
use rozo_mpprouter.Partners.Ledger.{
  Mutation, Mutate, put_entry, take_claim, draft, write_draft, commit_charge, settle_claim,
}
use rozo_mpprouter.Partners.Issue.{IssueOp, no_change, hold_issue, drop_issue}
use rozo_mpprouter.Partners.Void.{drop_refund}
use rozo_mpprouter.Partners.Run.{open_partner}

-- The four functions that callers pass as `mutate`: of a top-up, an issue's debit, an issue's refund
-- and a void's credit.
pub data Extra : Type 0 where
  plain : Extra
  holding : String → IssueOp → ℕ → Extra
  dropping_issue : String → Extra
  dropping_refund : String → Extra

abbrev pub mutate_of : Extra → Mutate
mutate_of plain = no_change
mutate_of (holding op_id i now) = hold_issue op_id i now
mutate_of (dropping_issue op_id) = drop_issue op_id
mutate_of (dropping_refund code) = drop_refund code

-- The last update a call has made: its claim, its entry's body, the balance, which the entry is to
-- remember, and the entry. `over` is a call that has ended.
pub data Stage : Type 0 where
  claimed drafted : Stage
  committed : Option ℤ → Stage
  backfilled over : Stage

pub record Call : Type 0 where
  pub partner_id : String
  pub m : Mutation
  pub extra : Extra
  pub now : ℕ
  pub stage : Stage

-- The entry's id is drawn at random: it names the call.
abbrev pub call_key : Call → String × String
call_key c = (c.partner_id, c.m.entry_id)

pub record Desk : Type 0 where
  pub books : Books
  pub calls : Dict (String × String) Call

abbrev pub put_stage : Call → Stage → Books → Desk → Desk
put_stage c stage w s = record {
  books = w;
  calls = insert (call_key c) (record c { stage = stage }) s.calls;
}

abbrev pub is_used : Call → Desk → Bool
is_used c s = is_some (lookup (call_key c) s.calls) || is_some (lookup (call_key c) s.books.entries)

unfoldable pub begin_call : Call → Desk → Desk
begin_call c s =
    let (mine, w) = take_claim c.partner_id c.m.key c.now s.books in
    if is_used c s then s else put_stage c (if mine then claimed else over) w s

abbrev pub after_charge : Call → Desk → Attempt (PartnerRecord × Option LedgerEntry) × Books → Desk
after_charge c s (threw e, w) = put_stage c over w s
after_charge c s (gave (p, none), w) = put_stage c over w s
after_charge c s (gave (p, some entry), w) = put_stage c (committed entry.balance_after) w s

abbrev pub entry_of : Call → Option ℤ → LedgerEntry
entry_of c after = record (draft c.partner_id c.m c.now) { balance_after = after }

-- The next update of a call.
abbrev pub advance_from : Stage → Call → Desk → Desk
advance_from claimed c s = put_stage c drafted (write_draft c.partner_id c.m c.now s.books) s
advance_from drafted c s =
    after_charge c s (commit_charge c.partner_id c.m (mutate_of c.extra) c.now s.books)
advance_from (committed after) c s =
    put_stage c backfilled (put_entry c.partner_id (entry_of c after) s.books) s
advance_from backfilled c s = put_stage c over (settle_claim c.partner_id c.m c.now s.books) s
advance_from over c s = s

abbrev pub advance_found : Option Call → Desk → Desk
advance_found none s = s
advance_found (some c) s = advance_from c.stage c s

pub data Turn : Type 0 where
  opens : String → PartnerRecord → Turn
  begins : Call → Turn
  advances : String × String → Turn

unfoldable pub take_turn : Turn → Desk → Desk
take_turn (opens partner_id p) s = record s { books = open_partner partner_id p s.books }
take_turn (begins c) s = begin_call c s
take_turn (advances key) s = advance_found (lookup key s.calls) s

unfoldable pub take_turns : List Turn → Desk → Desk
take_turns [] s = s
take_turns (x ∷ xs) s = take_turns xs (take_turn x s)

abbrev pub empty_desk : Desk
empty_desk = record {
  books = record { partners = []; coupons = []; claims = []; entries = [] };
  calls = [];
}
