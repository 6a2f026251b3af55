-- ===== src/Partners/Cut/Drift.antt =====
-- How far the entries of the ledger of src/routes/partner-store.ts and its balances may part when
-- workers interleave and stop.
use rozo_mpprouter.Base.{
  String, ◌≡◌, refl, sym, ap, subst, ◌∙◌, inl, inr, true, Option, none, some, List, [], ◌∷◌, arith,
  Bool-cases, Option-cases,
}
use rozo_mpprouter.Base.Int.{pos, ◌+ℤ◌, int_laws, parts}
use rozo_mpprouter.Base.Keys.{◌=?◌, string_eq, pair_eq}
use rozo_mpprouter.Base.Dict.{lookup, lookup-insert, measure}
use rozo_mpprouter.Partners.Types.{PartnerRecord, Books}
use rozo_mpprouter.Partners.Ledger.{take_claim}
use rozo_mpprouter.Partners.Ledger.Begun.{balance}
use rozo_mpprouter.Partners.Run.{open_partner}
use rozo_mpprouter.Partners.Cut.{
  Stage, claimed, over, Call, call_key, Desk, begin_call, advance_found, Turn, opens, begins,
  advances, take_turn, take_turns, empty_desk,
}
use rozo_mpprouter.Partners.Cut.Account.{open_at, IsAccounted, IsSound, Even, put_stage-IsSound}
use rozo_mpprouter.Partners.Cut.Updates.{Untouched, take_claim-same, advance_from-IsSound}

advance-IsSound :
    (key : String × String) (s : Desk) (o : Option Call)
    → lookup key s.calls ≡ o
    → IsSound s
    → IsSound (advance_found o s)
advance-IsSound key s none at h = h
advance-IsSound key s (some c) at h =
    let mine : lookup (call_key c) s.calls ≡ some c =
      subst (λ k. lookup k s.calls ≡ some c) (h.keyed key c at) at in
    advance_from-IsSound c s mine h c.stage refl

begun-Even :
    (c : Call) (stage : Stage) (s : Desk) (w : Books)
    → IsSound s
    → Untouched s.books w
    → lookup (call_key c) s.calls ≡ none
    → lookup (call_key c) s.books.entries ≡ none
    → ((j : String) → open_at j c stage ≡ pos 0)
    → Even c stage s w
begun-Even c stage s w h (partners, entries) new free stays = record {
  even = λ j. rw (partners, entries, new) (omega (int_laws, parts (stays j)));
  nonneg = λ j. rw partners (h.accounted.nonneg j);
  others = λ k other. rw entries refl;
  mine = λ j o. rw (entries, free) refl;
}

begin_call-IsSound : (c : Call) (s : Desk) → IsSound s → IsSound (begin_call c s)
unfolding begin_call
begin_call-IsSound c s h = elim (Option-cases (lookup (call_key c) s.calls)) [
  | inr (d, used) ↦ rw used h
  | inl new ↦ elim (Option-cases (lookup (call_key c) s.books.entries)) [
    | inr (e, used) ↦ rw (new, used) h
    | inl free ↦
        let w = (take_claim c.partner_id c.m.key c.now s.books).1 in
        let same = take_claim-same c s.books in
        elim (Bool-cases (take_claim c.partner_id c.m.key c.now s.books).0) [
          | inl mine ↦
              rw (new, free, mine)
                (put_stage-IsSound c claimed s w
                  (begun-Even c claimed s w h same new free (λ j. refl)) h)
          | inr lost ↦
              rw (new, free, lost)
                (put_stage-IsSound c over s w (begun-Even c over s w h same new free (λ j. refl)) h)
        ]
  ]
]

open_partner-IsSound :
    (partner_id : String) (p : PartnerRecord) (s : Desk)
    → IsSound s
    → IsSound (record s { books = open_partner partner_id p s.books })
open_partner-IsSound partner_id p s h = elim (Option-cases (lookup partner_id s.books.partners)) [
  | inr (old, there) ↦ rw there h
  | inl missing ↦
      let empty : (j : String) → (partner_id =? j) ≡ true → lookup j s.books.partners ≡ none =
        λ j same.
          subst (λ i. lookup i s.books.partners ≡ none) ((string_eq.beq_iff partner_id j).0 same)
            missing in
      rw missing (record {
        accounted = record {
          conserved = λ j. elim (Bool-cases (partner_id =? j)) [
            | inl same ↦
                rw (lookup-insert, same)
                  (ap (measure balance) (sym (empty j same)) ∙ h.accounted.conserved j)
            | inr other ↦ rw (lookup-insert, other) (h.accounted.conserved j)
          ];
          nonneg = λ j. elim (Bool-cases (partner_id =? j)) [
            | inl same ↦ rw (lookup-insert, same) (omega arith)
            | inr other ↦ rw (lookup-insert, other) (h.accounted.nonneg j)
          ];
        };
        keyed = h.keyed;
        unsettled = h.unsettled;
      })
]

take_turn-IsSound : (x : Turn) (s : Desk) → IsSound s → IsSound (take_turn x s)
unfolding take_turn
take_turn-IsSound (opens partner_id p) s h = open_partner-IsSound partner_id p s h
take_turn-IsSound (begins c) s h = begin_call-IsSound c s h
take_turn-IsSound (advances key) s h = advance-IsSound key s (lookup key s.calls) refl h

take_turns-IsSound : (xs : List Turn) (s : Desk) → IsSound s → IsSound (take_turns xs s)
unfolding take_turns
take_turns-IsSound [] s h = h
take_turns-IsSound (x ∷ xs) s h = take_turns-IsSound xs (take_turn x s) (take_turn-IsSound x s h)

empty-IsSound : IsSound empty_desk
unfolding lookup ◌+ℤ◌
empty-IsSound = record {
  accounted = record { conserved = λ j. refl; nonneg = λ j. omega arith };
  keyed = λ k c at. absurd (cc at);
  unsettled = λ k c j at live. refl;
}

-- Whatever updates of calls of `applyLedger` interleave from an empty store, whichever of them stop
-- after any of their updates and whichever are retried: each balance is the sum of the entries that
-- remember it and of the changes whose calls stand between their commit and their entry, and none is
-- below zero.
pub take_turns-IsAccounted : (xs : List Turn) → IsAccounted (take_turns xs empty_desk)
take_turns-IsAccounted xs = (take_turns-IsSound xs empty_desk empty-IsSound).accounted
