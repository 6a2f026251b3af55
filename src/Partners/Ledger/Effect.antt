-- ===== src/Partners/Ledger/Effect.antt =====
-- What one call of `applyLedger` (src/routes/partner-store.ts) changes, on each of its branches.
use rozo_mpprouter.Base.{
  ℕ, String, ◌≡◌, refl, sym, ap, subst, ◌∙◌, inl, inr, Bool, true, false, Option, none, some, arith,
  Bool-cases, is_some,
}
use rozo_mpprouter.Base.Int.{pos, ◌+ℤ◌, ltb_ℤ, int_laws}
use rozo_mpprouter.Base.Keys.{◌=?◌, string_eq, pair_eq}
use rozo_mpprouter.Base.Dict.{
  lookup, insert, lookup-insert, lookup-insert_self, lookup-insert_ne, sum_by, measure,
}
use rozo_mpprouter.Partners.Types.{LedgerEntry, PartnerRecord, Attempt, threw, gave, Books}
use rozo_mpprouter.Partners.Ledger.{
  Mutation, Mutate, Outcome, is_ours, put_partner, put_entry, draft, charged_partner,
  charge_partner, put_charged, settled_claim, settle_claim, finish, apply_ledger,
}
use rozo_mpprouter.Partners.Ledger.Begun.{
  ChargedAs, IsBooked, KeepsBalance, Link, apply_ledger_mine, apply_ledger_other, balance, begun,
  begun-Link, charge_partner-ChargedAs, draft_unsettled, first_claim, flip_beq, other_key,
  settled_delta, sum-begun, sum_new,
}

abbrev pub settled_entry : String → Mutation → ℕ → PartnerRecord → LedgerEntry
settled_entry partner_id m now p = record (draft partner_id m now) {
  balance_after = some (p.balance +ℤ m.delta);
}

-- The store behind a change of the record `p` into `q`.
abbrev pub ended : String → Mutation → ℕ → PartnerRecord → PartnerRecord → Books → Books
ended partner_id m now p q w = record {
  partners = insert partner_id q w.partners;
  coupons = w.coupons;
  claims = insert (partner_id, m.key) (settled_claim m now) (begun partner_id m now w).claims;
  entries =
      insert (partner_id, m.entry_id) (settled_entry partner_id m now p)
        (begun partner_id m now w).entries;
}

pub settle_claim-begun :
    (partner_id : String) (m : Mutation) (now : ℕ) (p q : PartnerRecord) (w : Books)
    → settle_claim partner_id m now (
        put_entry partner_id
          (settled_entry partner_id m now p)
          (put_partner partner_id q (begun partner_id m now w)))
      ≡ ended partner_id m now p q w
unfolding settle_claim
settle_claim-begun partner_id m now p q w =
    rw (lookup-insert_self (partner_id, m.key) (first_claim now) w.claims) refl

sum-ended :
    (j partner_id : String) (m : Mutation) (now : ℕ) (p q : PartnerRecord) (w : Books)
    → lookup (partner_id, m.entry_id) w.entries ≡ none
    → sum_by (settled_delta j) (ended partner_id m now p q w).entries
      ≡ sum_by (settled_delta j) w.entries +ℤ settled_delta j (settled_entry partner_id m now p)
sum-ended j partner_id m now p q w free =
    let at : lookup (partner_id, m.entry_id) (begun partner_id m now w).entries
        ≡ some (draft partner_id m now) =
      lookup-insert_self (partner_id, m.entry_id) (draft partner_id m now) w.entries in
    sum_new (settled_delta j) (partner_id, m.entry_id) (settled_entry partner_id m now p)
      (begun partner_id m now w).entries (some (draft partner_id m now)) at
      (draft_unsettled j partner_id m now)
    ∙ ap (λ n. n +ℤ settled_delta j (settled_entry partner_id m now p))
        (sum-begun j partner_id m now w free)

module _ (partner_id : String) (m : Mutation) (now : ℕ) (p q : PartnerRecord) (w : Books)
    (free : lookup (partner_id, m.entry_id) w.entries ≡ none)
    (found : lookup partner_id w.partners ≡ some p)
    (covered : ltb_ℤ (p.balance +ℤ m.delta) (pos 0) ≡ false)
    (kept : q.balance ≡ p.balance +ℤ m.delta) where
  balance-ended :
      (j : String)
      → measure balance (lookup j (ended partner_id m now p q w).partners)
        ≡ measure balance (lookup j w.partners)
          +ℤ settled_delta j (settled_entry partner_id m now p)
  balance-ended j = elim (Bool-cases (partner_id =? j)) [
    | inl same ↦
        let here : partner_id ≡ j = (string_eq.beq_iff partner_id j).0 same in
        let held : lookup j w.partners ≡ some p =
          subst (λ i. lookup i w.partners ≡ some p) here found in
        rw (lookup-insert, same, held) kept
    | inr other ↦ rw (lookup-insert_ne partner_id j q w.partners other, other) (omega int_laws)
  ]

  ended-IsBooked : IsBooked w → IsBooked (ended partner_id m now p q w)
  ended-IsBooked b = record {
    conserved = λ j.
        balance-ended j
        ∙ ap (λ n. n +ℤ settled_delta j (settled_entry partner_id m now p)) (b.conserved j)
        ∙ sym (sum-ended j partner_id m now p q w free);
    nonneg = λ j. elim (Bool-cases (partner_id =? j)) [
      | inl same ↦ rw (lookup-insert, same, kept) (ground (arith, covered))
      | inr other ↦ rw (lookup-insert_ne partner_id j q w.partners other) (b.nonneg j)
    ];
  }

  ended-Link : Link partner_id m w (ended partner_id m now p q w)
  ended-Link =
      let start = begun-Link partner_id m now w free in
      record {
        coupons = refl;
        entries = λ k e h.
            lookup-insert_ne (partner_id, m.entry_id) k (settled_entry partner_id m now p)
              (begun partner_id m now w).entries
              (other_key (partner_id, m.entry_id) k e w.entries free h)
            ∙ start.entries k e h;
        claims = λ k h.
            lookup-insert_ne (partner_id, m.key) k (settled_claim m now)
              (begun partner_id m now w).claims (flip_beq k (partner_id, m.key) h)
            ∙ start.claims k h;
        booked = ended-IsBooked;
      }

-- Behind a change, the entry says what was asked for.
pub record Recorded (partner_id : String) (m : Mutation) (t : Books) : Type 0 where
  pub entry : LedgerEntry
  pub found : lookup (partner_id, m.entry_id) t.entries ≡ some entry
  pub kind : entry.kind ≡ m.kind
  pub delta : entry.delta ≡ m.delta
  pub ref : entry.ref ≡ m.ref
  pub is_settled : is_some entry.balance_after ≡ true

abbrev pub RecordedIf : Bool → String → Mutation → Books → Type 0
RecordedIf true partner_id m t = Recorded partner_id m t
RecordedIf false partner_id m t = Unit

-- The whole effect of a call, its reply included.
abbrev pub Effect : String → Mutation → Books → Attempt Outcome × Books → Type 0
Effect partner_id m w (threw e, t) = Link partner_id m w t
Effect partner_id m w (gave outcome, t) =
    Link partner_id m w t × RecordedIf outcome.applied partner_id m t

finish-Effect :
    (partner_id : String) (m : Mutation) (mutate : Mutate) (now : ℕ) (w : Books)
    → lookup (partner_id, m.entry_id) w.entries ≡ none
    → KeepsBalance mutate
    → (r : Attempt (PartnerRecord × Option LedgerEntry))
    → ChargedAs m mutate (draft partner_id m now) (lookup partner_id w.partners) r
    → Effect partner_id m w
        (finish partner_id m now (put_charged partner_id r (begun partner_id m now w)))
finish-Effect partner_id m mutate now w free keeps (threw e) c = begun-Link partner_id m now w free
finish-Effect partner_id m mutate now w free keeps (gave (q, none)) c =
    (begun-Link partner_id m now w free, tt)
finish-Effect partner_id m mutate now w free keeps (gave (q, some entry)) c =
    let kept = keeps (charged_partner m c.before) q c.changed in
    rw (c.written, settle_claim-begun partner_id m now c.before q w)
      (
        ended-Link partner_id m now c.before q w free c.found c.covered kept,
        record {
          entry = settled_entry partner_id m now c.before;
          found =
              lookup-insert_self (partner_id, m.entry_id) (settled_entry partner_id m now c.before)
                (begun partner_id m now w).entries;
          kind = refl;
          delta = refl;
          ref = refl;
          is_settled = refl;
        },
      )

refused-Link : (partner_id : String) (m : Mutation) (w : Books) → Link partner_id m w w
refused-Link partner_id m w = record {
  coupons = refl;
  entries = λ k e h. h;
  claims = λ k h. refl;
  booked = λ b. b;
}

-- A call under a new entry id changes its claim, adds an entry, and leaves the coupons; a change
-- that it makes is recorded in that entry.
pub apply_ledger-Effect :
    (partner_id : String) (m : Mutation) (mutate : Mutate) (now : ℕ) (w : Books)
    → lookup (partner_id, m.entry_id) w.entries ≡ none
    → KeepsBalance mutate
    → Effect partner_id m w (apply_ledger partner_id m mutate now w)
apply_ledger-Effect partner_id m mutate now w free keeps =
    elim (Bool-cases (is_ours now (lookup (partner_id, m.key) w.claims))) [
      | inl mine ↦ rw (apply_ledger_mine partner_id m mutate now w mine free) (
          finish-Effect partner_id m mutate now w free keeps
            (charge_partner m mutate (draft partner_id m now) (lookup partner_id w.partners))
            (charge_partner-ChargedAs m mutate (draft partner_id m now)
              (lookup partner_id w.partners)))
      | inr other ↦
          rw (apply_ledger_other partner_id m mutate now w other) (refused-Link partner_id m w, tt)
    ]
