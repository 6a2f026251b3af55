-- ===== src/Playground/Ledger/Invariant.antt =====
-- What the ledger's money state promises between two requests.
use rozo_mpprouter.Base.{
  String, ◌≡◌, refl, inl, inr, Option, none, some, arith, or_else, Option-cases, if◌then◌else◌,
}
use rozo_mpprouter.Base.Int.{ℤ, pos, ◌+ℤ◌, ◌≤ℤ◌}
use rozo_mpprouter.Base.Keys.{string_eq}
use rozo_mpprouter.Base.Dict.{IsMap, Forall, sum_by, sum_by-insert, measure, insert, lookup}
use rozo_mpprouter.Playground.Ledger.Types.{StoredCall, Ledger, empty, balance_of}
use rozo_mpprouter.Playground.Ledger.Calls.{is_reserved}

-- What a call holds back from its account: its maximum price until it is settled.
abbrev pub held : StoredCall → ℤ
held c = if is_reserved c.status then c.max_price else pos 0

abbrev pub share : ℤ → ℤ
share n = n

pub record IsSolvent (s : Ledger) : Type 0 where
  pub conserved : s.outstanding ≡ sum_by share s.balances +ℤ sum_by held s.calls
  pub accounted : s.credited ≡ s.outstanding +ℤ s.committed_total
  pub calls_distinct : IsMap s.calls
  pub balances_nonneg : Forall (λ _ n. pos 0 ≤ℤ n) s.balances
  pub holds_nonneg : Forall (λ _ c. pos 0 ≤ℤ c.max_price) s.calls
  pub amounts_positive : Forall (λ _ i. pos 1 ≤ℤ i.amount) s.intents

-- The part of the storage that the money figures stand in.
pub record SameMoney (s t : Ledger) : Type 0 where
  pub balances : t.balances ≡ s.balances
  pub calls : t.calls ≡ s.calls
  pub credited : t.credited ≡ s.credited
  pub committed_total : t.committed_total ≡ s.committed_total
  pub outstanding : t.outstanding ≡ s.outstanding

pub empty-IsSolvent : IsSolvent empty
unfolding empty ◌+ℤ◌ lookup
empty-IsSolvent = record {
  conserved = refl;
  accounted = refl;
  calls_distinct = tt;
  balances_nonneg = λ k v h. cc;
  holds_nonneg = λ k v h. cc;
  amounts_positive = λ k v h. cc;
}

-- The balance that a missing row stands for is zero.
pub balance_nonneg : (a : String) (s : Ledger) → IsSolvent s → pos 0 ≤ℤ balance_of a s
balance_nonneg a s v = elim (Option-cases (lookup a s.balances)) [
  | inl missing ↦ rw missing (omega arith)
  | inr (n, e) ↦ rw e (v.balances_nonneg a n e)
]

measure-share : (o : Option ℤ) → measure share o ≡ or_else o (pos 0)
measure-share none = refl
measure-share (some n) = refl

-- A write of one balance.
pub sum-balances :
    (a : String) (n : ℤ) (s : Ledger)
    → sum_by share (insert a n s.balances) +ℤ balance_of a s ≡ sum_by share s.balances +ℤ n
sum-balances a n s = rw (← measure-share (lookup a s.balances)) (sum_by-insert share a n s.balances)

-- A write of one call.
pub sum-calls :
    (id : String) (call : StoredCall) (s : Ledger)
    → sum_by held (insert id call s.calls) +ℤ measure held (lookup id s.calls)
      ≡ sum_by held s.calls +ℤ held call
sum-calls id call s = sum_by-insert held id call s.calls

pub SameMoney-IsSolvent :
    {s t : Ledger}
    → SameMoney s t
    → Forall (λ _ i. pos 1 ≤ℤ i.amount) t.intents
    → IsSolvent s
    → IsSolvent t
SameMoney-IsSolvent {s} {t} same amounts v = record {
  conserved = rw (same.outstanding, same.balances, same.calls) v.conserved;
  accounted = rw (same.credited, same.outstanding, same.committed_total) v.accounted;
  calls_distinct = rw same.calls v.calls_distinct;
  balances_nonneg = rw same.balances v.balances_nonneg;
  holds_nonneg = rw same.calls v.holds_nonneg;
  amounts_positive = amounts;
}
