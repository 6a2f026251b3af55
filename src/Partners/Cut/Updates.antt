-- ===== src/Partners/Cut/Updates.antt =====
-- Each update of a call of `applyLedger` (src/routes/partner-store.ts) keeps the account.
use rozo_mpprouter.Base.{
  ℕ, String, ◌≡◌, refl, ap, subst, inl, inr, true, Option, none, some, arith, Bool-cases,
  Option-cases, ◌⊎◌,
}
use rozo_mpprouter.Base.Int.{ℤ, pos, ◌+ℤ◌, int_laws, parts}
use rozo_mpprouter.Base.Keys.{◌=?◌, string_eq, pair_eq}
use rozo_mpprouter.Base.Dict.{lookup, lookup-insert, lookup-insert_self, lookup-insert_ne, measure}
use rozo_mpprouter.Partners.Types.{
  LedgerEntry, PartnerRecord, Books, Claim, ClaimState, settled, pending, released, Attempt, threw,
  gave,
}
use rozo_mpprouter.Partners.Ledger.{
  Mutation, put_entry, put_partner, draft, write_draft, take_claim, put_charged, commit_charge,
  settle_claim, settle_over, is_ours,
}
use rozo_mpprouter.Partners.Ledger.Begun.{
  KeepsBalance, ChargedAs, Charges, charge_partner-ChargedAs, draft_unsettled, settled_delta,
  sum_new,
}
use rozo_mpprouter.Partners.Run.Frames.{
  no_change-KeepsBalance, hold_issue-KeepsBalance, drop_issue-KeepsBalance,
  drop_refund-KeepsBalance,
}
use rozo_mpprouter.Partners.Cut.{
  Extra, plain, holding, dropping_issue, dropping_refund, mutate_of, Stage, claimed, drafted,
  committed, backfilled, over, Call, call_key, Desk, put_stage, after_charge, entry_of,
  advance_from,
}
use rozo_mpprouter.Partners.Cut.Account.{open_at, is_open, IsSound, Even, put_stage-IsSound}

pub mutate_of-KeepsBalance : (x : Extra) → KeepsBalance (mutate_of x)
mutate_of-KeepsBalance plain = no_change-KeepsBalance
mutate_of-KeepsBalance (holding op_id i now) = hold_issue-KeepsBalance op_id i now
mutate_of-KeepsBalance (dropping_issue op_id) = drop_issue-KeepsBalance op_id
mutate_of-KeepsBalance (dropping_refund code) = drop_refund-KeepsBalance code

pub ClaimState-cases : (st : ClaimState) → (st ≡ settled) ⊎ (st ≡ pending) ⊎ (st ≡ released)
ClaimState-cases settled = inl refl
ClaimState-cases pending = inr (inl refl)
ClaimState-cases released = inr (inr refl)

abbrev pub Untouched : Books → Books → Type 0
Untouched w t = (t.partners ≡ w.partners) × (t.entries ≡ w.entries)

pub settle_over-same :
    (partner_id : String) (m : Mutation) (now : ℕ) (o : Option Claim) (w : Books)
    → Untouched w (settle_over partner_id m now o w)
settle_over-same partner_id m now none w = (refl, refl)
settle_over-same partner_id m now (some c) w = elim (ClaimState-cases c.state) [
  | inl e ↦ rw e (refl, refl)
  | inr (inl e) ↦ rw e (refl, refl)
  | inr (inr e) ↦ rw e (refl, refl)
]

pub settle_claim-same : (c : Call) (w : Books) → Untouched w (settle_claim c.partner_id c.m c.now w)
unfolding settle_claim
settle_claim-same c w = settle_over-same c.partner_id c.m c.now _ w

pub take_claim-same :
    (c : Call) (w : Books) → Untouched w (take_claim c.partner_id c.m.key c.now w).1
unfolding take_claim
take_claim-same c w = elim (Bool-cases (is_ours c.now (lookup (c.partner_id, c.m.key) w.claims))) [
  | inl ours ↦ rw ours (refl, refl)
  | inr other ↦ rw other (refl, refl)
]

module _ (c : Call) (s : Desk) (found : lookup (call_key c) s.calls ≡ some c) (h : IsSound s) where
  -- An update that leaves the balances and the entries.
  pub unchanged-Even :
      (stage : Stage) (w : Books)
      → w.partners ≡ s.books.partners
      → w.entries ≡ s.books.entries
      → ((j : String) → open_at j c c.stage ≡ pos 0)
      → ((j : String) → open_at j c stage ≡ pos 0)
      → (is_open stage ≡ true → is_open c.stage ≡ true)
      → Even c stage s w
  unchanged-Even stage w partners entries shut stays live = record {
    even = λ j. rw (partners, entries, found) (omega (int_laws, parts (shut j), parts (stays j)));
    nonneg = λ j. rw partners (h.accounted.nonneg j);
    others = λ k other. rw entries refl;
    mine = λ j o. rw entries (h.unsettled (call_key c) c j found (live o));
  }

  pub drafted-Even :
      c.stage ≡ claimed → Even c drafted s (write_draft c.partner_id c.m c.now s.books)
  unfolding write_draft
  drafted-Even at = elim (Option-cases (lookup (call_key c) s.books.entries)) [
    | inr (e, there) ↦
        rw there
          (unchanged-Even drafted s.books refl refl (λ j. rw at refl) (λ j. refl) (λ o. rw at refl))
    | inl free ↦ rw free (record {
      even = λ j.
          let added =
            sum_new (settled_delta j) (call_key c) (draft c.partner_id c.m c.now) s.books.entries
              none free refl in
          rw (found, at)
            (omega (int_laws, parts added, parts (draft_unsettled j c.partner_id c.m c.now)));
      nonneg = h.accounted.nonneg;
      others = λ k other.
          lookup-insert_ne (call_key c) k (draft c.partner_id c.m c.now) s.books.entries other;
      mine = λ j o.
          rw (lookup-insert_self (call_key c) (draft c.partner_id c.m c.now) s.books.entries)
            (draft_unsettled j c.partner_id c.m c.now);
    })
  ]

  pub backfilled-Even :
      (after : Option ℤ)
      → c.stage ≡ committed after
      → Even c backfilled s (put_entry c.partner_id (entry_of c after) s.books)
  backfilled-Even after at =
      let old : (j : String)
          → measure (settled_delta j) (lookup (call_key c) s.books.entries) ≡ pos 0 =
        λ j. h.unsettled (call_key c) c j found (rw at refl) in
      record {
        even = λ j.
            let added =
              sum_new (settled_delta j) (call_key c) (entry_of c after) s.books.entries
                (lookup (call_key c) s.books.entries) refl (old j) in
            rw (found, at) (omega (int_laws, parts added));
        nonneg = h.accounted.nonneg;
        others =
            λ k other. lookup-insert_ne (call_key c) k (entry_of c after) s.books.entries other;
        mine = λ j o. absurd (ground (arith, o));
      }

  pub over-IsSound : c.stage ≡ drafted → IsSound (put_stage c over s.books s)
  over-IsSound at =
      put_stage-IsSound c over s s.books
        (unchanged-Even over s.books refl refl (λ j. rw at refl) (λ j. refl)
          (λ o. absurd (ground (arith, o))))
        h

  pub committed-Even :
      (q : PartnerRecord) (entry : LedgerEntry)
      → c.stage ≡ drafted
      → Charges c.m
          (mutate_of c.extra)
          (draft c.partner_id c.m c.now)
          (lookup c.partner_id s.books.partners)
          q
          entry
      → Even c (committed entry.balance_after) s (put_partner c.partner_id q s.books)
  committed-Even q entry at ch =
      let after : entry.balance_after ≡ some (ch.before.balance +ℤ c.m.delta) =
        ap (λ e. e.balance_after) ch.written in
      let new : q.balance ≡ ch.before.balance +ℤ c.m.delta =
        mutate_of-KeepsBalance c.extra _ q ch.changed in
      record {
        even = λ j. elim (Bool-cases (c.partner_id =? j)) [
          | inl same ↦
              let here : c.partner_id ≡ j = (string_eq.beq_iff c.partner_id j).0 same in
              let held : lookup j s.books.partners ≡ some ch.before =
                subst (λ i. lookup i s.books.partners ≡ some ch.before) here ch.found in
              rw (lookup-insert, same, held, after, found, at) (omega (int_laws, parts new))
          | inr other ↦ rw (lookup-insert, other, found, at) (omega int_laws)
        ];
        nonneg = λ j. elim (Bool-cases (c.partner_id =? j)) [
          | inl same ↦ rw (lookup-insert, same, new) (ground (arith, ch.covered))
          | inr other ↦ rw (lookup-insert, other) (h.accounted.nonneg j)
        ];
        others = λ k other. refl;
        mine = λ j o. h.unsettled (call_key c) c j found (rw at refl);
      }

  pub after_charge-IsSound :
      (r : Attempt (PartnerRecord × Option LedgerEntry))
      → c.stage ≡ drafted
      → ChargedAs c.m
          (mutate_of c.extra)
          (draft c.partner_id c.m c.now)
          (lookup c.partner_id s.books.partners)
          r
      → IsSound (after_charge c s (put_charged c.partner_id r s.books))
  after_charge-IsSound (threw e) at ch = over-IsSound at
  after_charge-IsSound (gave (q, none)) at ch = over-IsSound at
  after_charge-IsSound (gave (q, some entry)) at ch =
      put_stage-IsSound c (committed entry.balance_after) s (put_partner c.partner_id q s.books)
        (committed-Even q entry at ch) h

  pub advance_from-IsSound : (stage : Stage) → c.stage ≡ stage → IsSound (advance_from stage c s)
  unfolding commit_charge
  advance_from-IsSound claimed at = put_stage-IsSound c drafted s _ (drafted-Even at) h
  advance_from-IsSound drafted at = after_charge-IsSound _ at (charge_partner-ChargedAs _ _ _ _)
  advance_from-IsSound (committed after) at =
      put_stage-IsSound c backfilled s _ (backfilled-Even after at) h
  advance_from-IsSound backfilled at =
      let kept = settle_claim-same c s.books in
      put_stage-IsSound c over s _
        (unchanged-Even over _ kept.0 kept.1 (λ j. rw at refl) (λ j. refl)
          (λ o. absurd (ground (arith, o))))
        h
  advance_from-IsSound over at = h
