-- ===== src/Playground/Ledger/Calls/Frame.antt =====
-- The handlers of the calls leave the deposits alone.
use rozo_mpprouter.Base.{String, ◌≡◌, refl, inl, inr, arith, Option-cases, Bool-cases}
use rozo_mpprouter.Base.Keys.{string_eq}
use rozo_mpprouter.Base.Dict.{lookup}
use rozo_mpprouter.Playground.Ledger.Types.{StoredCall, Ledger, Reply, ok, err, throws, roll_back}
use rozo_mpprouter.Playground.Ledger.Calls.{
  ReserveBody, reserve, settle, settle_reserved, mark_dispatched, is_reserved, SettleAction, commit,
  release,
}

-- The rows of the deposits are the same in both.
pub record SameDeposits (s t : Ledger) : Type 0 where
  pub intents : t.intents ≡ s.intents
  pub consumed_by : t.consumed_by ≡ s.consumed_by

pub reserve-SameDeposits : (b : ReserveBody) (s : Ledger) → SameDeposits s (reserve b s).1
unfolding reserve
reserve-SameDeposits b s = ground arith

pub mark_dispatched-SameDeposits :
    (id : String) (s : Ledger) → SameDeposits s (mark_dispatched id s).1
unfolding mark_dispatched
mark_dispatched-SameDeposits id s = ground arith

settle_reserved-SameDeposits :
    (id : String) (call : StoredCall) (action : SettleAction) (s : Ledger)
    → SameDeposits s (settle_reserved id call action s).1
unfolding settle_reserved
settle_reserved-SameDeposits id call (release reason) s = ground arith
settle_reserved-SameDeposits id call (commit text) s = ground arith

SameDeposits-refl : (s : Ledger) → SameDeposits s s
SameDeposits-refl s = record { intents = refl; consumed_by = refl }

roll_back-SameDeposits :
    {A : Type 0} (s : Ledger) (p : Reply A × Ledger)
    → SameDeposits s p.1
    → SameDeposits s (roll_back s p).1
roll_back-SameDeposits s (ok a, t) h = h
roll_back-SameDeposits s (err c, t) h = h
roll_back-SameDeposits s (throws, t) h = SameDeposits-refl s

pub settle-SameDeposits :
    (id : String) (action : SettleAction) (s : Ledger) → SameDeposits s (settle id action s).1
unfolding settle
settle-SameDeposits id action s = elim (Option-cases (lookup id s.calls)) [
  | inl missing ↦ rw missing (SameDeposits-refl s)
  | inr (call, e) ↦ rw e (elim (Bool-cases (is_reserved call.status)) [
    | inl live ↦ rw live (
        roll_back-SameDeposits s (settle_reserved id call action s)
          (settle_reserved-SameDeposits id call action s))
    | inr other ↦ rw other (SameDeposits-refl s)
  ])
]
