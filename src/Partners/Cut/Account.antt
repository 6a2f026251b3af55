-- ===== src/Partners/Cut/Account.antt =====
-- What the interleaved updates of `applyLedger` (src/routes/partner-store.ts) keep: the account of
-- each balance, and the calls' entries.
use rozo_mpprouter.Base.{String, ◌≡◌, sym, subst, inl, inr, Bool, true, false, some, Bool-cases}
use rozo_mpprouter.Base.Int.{ℤ, pos, ◌+ℤ◌, ◌≤ℤ◌, int_laws, parts}
use rozo_mpprouter.Base.Keys.{◌=?◌, string_eq, pair_eq}
use rozo_mpprouter.Base.Dict.{lookup, lookup-insert, sum_by, sum_by-insert, measure}
use rozo_mpprouter.Partners.Types.{Books}
use rozo_mpprouter.Partners.Ledger.Begun.{balance, settled_delta}
use rozo_mpprouter.Partners.Cut.{
  Stage, claimed, drafted, committed, backfilled, over, Call, call_key, Desk, put_stage, entry_of,
}

-- What a call has put on the balance and not yet into its entry.
abbrev pub open_at : String → Call → Stage → ℤ
open_at j c claimed = pos 0
open_at j c drafted = pos 0
open_at j c (committed after) = settled_delta j (entry_of c after)
open_at j c backfilled = pos 0
open_at j c over = pos 0

abbrev pub open_delta : String → Call → ℤ
open_delta j c = open_at j c c.stage

abbrev pub is_open : Stage → Bool
is_open claimed = true
is_open drafted = true
is_open (committed after) = true
is_open backfilled = false
is_open over = false

-- Each balance is the sum of the entries that remember it and of what the calls that stand between
-- their commit and their entry have put on it, and none is below zero.
pub record IsAccounted (s : Desk) : Type 0 where
  pub conserved :
      (j : String)
      → measure balance (lookup j s.books.partners)
        ≡ sum_by (settled_delta j) s.books.entries +ℤ sum_by (open_delta j) s.calls
  pub nonneg : (j : String) → pos 0 ≤ℤ measure balance (lookup j s.books.partners)

pub record IsSound (s : Desk) : Type 0 where
  pub accounted : IsAccounted s
  pub keyed : (k : String × String) (c : Call) → lookup k s.calls ≡ some c → k ≡ call_key c
  pub unsettled :
      (k : String × String) (c : Call) (j : String)
      → lookup k s.calls ≡ some c
      → is_open c.stage ≡ true
      → measure (settled_delta j) (lookup k s.books.entries) ≡ pos 0

-- An update of a call: what it does to the balances, the entries and the call is even.
pub record Even (c : Call) (stage : Stage) (s : Desk) (w : Books) : Type 0 where
  pub even :
      (j : String)
      → measure balance (lookup j w.partners)
          +ℤ (sum_by (settled_delta j) s.books.entries
              +ℤ measure (open_delta j) (lookup (call_key c) s.calls))
        ≡ measure balance (lookup j s.books.partners)
          +ℤ (sum_by (settled_delta j) w.entries +ℤ open_at j c stage)
  pub nonneg : (j : String) → pos 0 ≤ℤ measure balance (lookup j w.partners)
  pub others :
      (k : String × String)
      → (call_key c =? k) ≡ false
      → lookup k w.entries ≡ lookup k s.books.entries
  pub mine :
      (j : String)
      → is_open stage ≡ true
      → measure (settled_delta j) (lookup (call_key c) w.entries) ≡ pos 0

pub key_eq : (c : Call) (k : String × String) → (call_key c =? k) ≡ true → call_key c ≡ k
key_eq c k same = (pair_eq.beq_iff (call_key c) k).0 same

pub put_found :
    (c : Call) (stage : Stage) (s : Desk) (k : String × String) (d : Call) (w : Books)
    → (call_key c =? k) ≡ true
    → lookup k (put_stage c stage w s).calls ≡ some d
    → record c { stage = stage } ≡ d
put_found c stage s k d w same at =
    let put : Call = record c { stage = stage } in
    let h : some put ≡ some d = rw (lookup-insert, same) at at in cc h

pub put_stage-IsSound :
    (c : Call) (stage : Stage) (s : Desk) (w : Books)
    → Even c stage s w
    → IsSound s
    → IsSound (put_stage c stage w s)
put_stage-IsSound c stage s w e h = record {
  accounted = record {
    conserved = λ j.
        let calls =
          sum_by-insert (open_delta j) (call_key c) (record c { stage = stage }) s.calls in
        omega (int_laws, parts calls, parts (e.even j), parts (h.accounted.conserved j));
    nonneg = e.nonneg;
  };
  keyed = λ k d at. elim (Bool-cases (call_key c =? k)) [
    | inl same ↦
        subst (λ x. k ≡ call_key x) (put_found c stage s k d w same at) (sym (key_eq c k same))
    | inr other ↦ h.keyed k d (rw (lookup-insert, other) at at)
  ];
  unsettled = λ k d j at live. elim (Bool-cases (call_key c =? k)) [
    | inl same ↦
        let open_now : is_open stage ≡ true =
          subst (λ x. is_open x.stage ≡ true) (sym (put_found c stage s k d w same at)) live in
        subst (λ x. measure (settled_delta j) (lookup x w.entries) ≡ pos 0) (key_eq c k same)
          (e.mine j open_now)
    | inr other ↦ rw (e.others k other) (h.unsettled k d j (rw (lookup-insert, other) at at) live)
  ];
}
