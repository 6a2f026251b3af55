-- ===== src/Partners/Ledger/Begun.antt =====
-- What a call of `applyLedger` (src/routes/partner-store.ts) may change, and the part of it before
-- the balance is written.
use rozo_mpprouter.Base.{
  ℕ, String, ◌≡◌, refl, sym, subst, ◌∙◌, inl, inr, true, false, Option, none, some, arith,
  Bool-cases, if◌then◌else◌,
}
use rozo_mpprouter.Base.Int.{ℤ, pos, ◌+ℤ◌, ◌≤ℤ◌, ltb_ℤ, int_laws, parts}
use rozo_mpprouter.Base.Keys.{Eq, ◌=?◌, string_eq, pair_eq}
use rozo_mpprouter.Base.Dict.{
  Dict, lookup, insert, lookup-insert_ne, sum_by, sum_by-insert, measure,
}
use rozo_mpprouter.Partners.Types.{
  LedgerEntry, IdemKey, PartnerRecord, Claim, pending, Attempt, threw, gave, Books,
}
use rozo_mpprouter.Partners.Ledger.{
  Mutation, Mutate, is_ours, take_claim, draft, write_draft, is_applied, charged_partner,
  with_entry, charge_partner, put_charged, commit_charge, finish, apply_ledger,
}

-- What an entry says of a partner's balance, once the balance carries it.
abbrev pub settled_amount : Option ℤ → ℤ → ℤ
settled_amount none delta = pos 0
settled_amount (some after) delta = delta

abbrev pub settled_delta : String → LedgerEntry → ℤ
settled_delta partner_id e =
    if e.partner_id =? partner_id then settled_amount e.balance_after e.delta else pos 0

abbrev pub balance : PartnerRecord → ℤ
balance p = p.balance

-- Each balance is the sum of the entries that are settled on it, and none is below zero.
pub record IsBooked (w : Books) : Type 0 where
  pub conserved :
      (partner_id : String)
      → measure balance (lookup partner_id w.partners) ≡ sum_by (settled_delta partner_id) w.entries
  pub nonneg : (partner_id : String) → pos 0 ≤ℤ measure balance (lookup partner_id w.partners)

-- A caller's own change leaves the balance.
abbrev pub KeepsBalance : Mutate → Type 0
KeepsBalance mutate = (p q : PartnerRecord) → mutate p ≡ gave q → q.balance ≡ p.balance

-- What any call may change besides balances: its claim, and an entry that was not there.
pub record Link (partner_id : String) (m : Mutation) (w t : Books) : Type 0 where
  pub coupons : t.coupons ≡ w.coupons
  pub entries :
      (k : String × String) (e : LedgerEntry)
      → lookup k w.entries ≡ some e
      → lookup k t.entries ≡ some e
  pub claims :
      (k : String × IdemKey)
      → (k =? (partner_id, m.key)) ≡ false
      → lookup k t.claims ≡ lookup k w.claims
  pub booked : IsBooked w → IsBooked t

pub other_key {ℓ κ} :
    {K : Type ℓ} {V : Type κ} ⦃e : Eq K⦄ (k j : K) (u : V) (d : Dict K V)
    → lookup k d ≡ none
    → lookup j d ≡ some u
    → (k =? j) ≡ false
other_key ⦃e⦄ k j u d free held = elim (Bool-cases (k =? j)) [
  | inl same ↦
      let kj : k ≡ j = (e.beq_iff k j).0 same in
      let clash : lookup j d ≡ none = subst (λ i. lookup i d ≡ none) kj free in
      absurd (cc (clash, held))
  | inr other ↦ other
]

pub insert_keeps {ℓ κ} :
    {K : Type ℓ} {V : Type κ} ⦃e : Eq K⦄ (k j : K) (v u : V) (d : Dict K V)
    → lookup k d ≡ none
    → lookup j d ≡ some u
    → lookup j (insert k v d) ≡ some u
insert_keeps k j v u d free held = rw (lookup-insert_ne k j v d (other_key k j u d free held)) held

pub flip_beq {ℓ} : {K : Type ℓ} ⦃e : Eq K⦄ (k j : K) → (k =? j) ≡ false → (j =? k) ≡ false
flip_beq ⦃e⦄ k j h = ground (arith, e.beq_iff k j, e.beq_iff j k, h)

abbrev pub first_claim : ℕ → Claim
first_claim now = record { state = pending; made_at = now; entry = none; coupon = none }

-- The store with the claim and the entry's body, before the commit.
abbrev pub begun : String → Mutation → ℕ → Books → Books
begun partner_id m now w = record {
  partners = w.partners;
  coupons = w.coupons;
  claims = insert (partner_id, m.key) (first_claim now) w.claims;
  entries = insert (partner_id, m.entry_id) (draft partner_id m now) w.entries;
}

pub apply_ledger_mine :
    (partner_id : String) (m : Mutation) (mutate : Mutate) (now : ℕ) (w : Books)
    → is_ours now (lookup (partner_id, m.key) w.claims) ≡ true
    → lookup (partner_id, m.entry_id) w.entries ≡ none
    → apply_ledger partner_id m mutate now w
      ≡ finish partner_id m now (
          put_charged partner_id
            (charge_partner m mutate (draft partner_id m now) (lookup partner_id w.partners))
            (begun partner_id m now w))
unfolding apply_ledger take_claim commit_charge write_draft
apply_ledger_mine partner_id m mutate now w mine free = rw (mine, free) refl

pub apply_ledger_other :
    (partner_id : String) (m : Mutation) (mutate : Mutate) (now : ℕ) (w : Books)
    → is_ours now (lookup (partner_id, m.key) w.claims) ≡ false
    → apply_ledger partner_id m mutate now w
      ≡ (gave (record { partner = lookup partner_id w.partners; applied = false; entry = none }), w)
unfolding apply_ledger take_claim
apply_ledger_other partner_id m mutate now w other = rw other refl

-- What the update of the partner's record may give.
pub record Charges (m : Mutation) (mutate : Mutate) (body : LedgerEntry) (o : Option PartnerRecord)
    (q : PartnerRecord) (entry : LedgerEntry) : Type 0 where
  pub before : PartnerRecord
  pub found : o ≡ some before
  pub covered : ltb_ℤ (before.balance +ℤ m.delta) (pos 0) ≡ false
  pub changed : mutate (charged_partner m before) ≡ gave q
  pub written : entry ≡ record body { balance_after = some (before.balance +ℤ m.delta) }

abbrev pub ChargedAs :
    Mutation
    → Mutate
    → LedgerEntry
    → Option PartnerRecord
    → Attempt (PartnerRecord × Option LedgerEntry)
    → Type 0
ChargedAs m mutate body o (threw e) = Unit
ChargedAs m mutate body o (gave (q, none)) = Unit
ChargedAs m mutate body o (gave (q, some entry)) = Charges m mutate body o q entry

pub with_entry-ChargedAs :
    (m : Mutation) (mutate : Mutate) (body : LedgerEntry) (p : PartnerRecord)
    → ltb_ℤ (p.balance +ℤ m.delta) (pos 0) ≡ false
    → (r : Attempt PartnerRecord) → mutate (charged_partner m p) ≡ r
    → ChargedAs m mutate body
        (some p)
        (with_entry (record body { balance_after = some (p.balance +ℤ m.delta) }) r)
with_entry-ChargedAs m mutate body p covered (threw e) h = tt
with_entry-ChargedAs m mutate body p covered (gave q) h = record {
  before = p;
  found = refl;
  covered = covered;
  changed = h;
  written = refl;
}

pub charge_partner-ChargedAs :
    (m : Mutation) (mutate : Mutate) (body : LedgerEntry) (o : Option PartnerRecord)
    → ChargedAs m mutate body o (charge_partner m mutate body o)
unfolding charge_partner
charge_partner-ChargedAs m mutate body none = tt
charge_partner-ChargedAs m mutate body (some p) = elim (Bool-cases (is_applied m.key p.applied)) [
  | inl again ↦ rw (charge_partner, again) tt
  | inr first ↦ elim (Bool-cases (ltb_ℤ (p.balance +ℤ m.delta) (pos 0))) [
    | inl short ↦ rw (charge_partner, first, short) tt
    | inr covered ↦
        rw (charge_partner, first, covered)
          (with_entry-ChargedAs m mutate body p covered (mutate (charged_partner m p)) refl)
  ]
]

pub sum_new :
    (f : LedgerEntry → ℤ) (k : String × String) (e : LedgerEntry)
    (d : Dict (String × String) LedgerEntry) (o : Option LedgerEntry)
    → lookup k d ≡ o
    → measure f o ≡ pos 0
    → sum_by f (insert k e d) ≡ sum_by f d +ℤ f e
sum_new f k e d o held h =
    let before : measure f (lookup k d) ≡ pos 0 = rw held h in
    omega (int_laws, parts (sum_by-insert f k e d), parts before)

pub draft_unsettled :
    (j partner_id : String) (m : Mutation) (now : ℕ)
    → settled_delta j (draft partner_id m now) ≡ pos 0
draft_unsettled j partner_id m now = elim (Bool-cases (partner_id =? j)) [
  | inl same ↦ rw same refl
  | inr other ↦ rw other refl
]

pub sum-begun :
    (j partner_id : String) (m : Mutation) (now : ℕ) (w : Books)
    → lookup (partner_id, m.entry_id) w.entries ≡ none
    → sum_by (settled_delta j) (begun partner_id m now w).entries
      ≡ sum_by (settled_delta j) w.entries
sum-begun j partner_id m now w free =
    let added =
      sum_new (settled_delta j) (partner_id, m.entry_id) (draft partner_id m now) w.entries none
        free refl in
    omega (int_laws, parts added, parts (draft_unsettled j partner_id m now))

pub begun-IsBooked :
    (partner_id : String) (m : Mutation) (now : ℕ) (w : Books)
    → lookup (partner_id, m.entry_id) w.entries ≡ none
    → IsBooked w
    → IsBooked (begun partner_id m now w)
begun-IsBooked partner_id m now w free b = record {
  conserved = λ j. b.conserved j ∙ sym (sum-begun j partner_id m now w free);
  nonneg = b.nonneg;
}

pub begun-Link :
    (partner_id : String) (m : Mutation) (now : ℕ) (w : Books)
    → lookup (partner_id, m.entry_id) w.entries ≡ none
    → Link partner_id m w (begun partner_id m now w)
begun-Link partner_id m now w free = record {
  coupons = refl;
  entries =
      λ k e h. insert_keeps (partner_id, m.entry_id) k (draft partner_id m now) e w.entries free h;
  claims = λ k h.
      lookup-insert_ne (partner_id, m.key) k (first_claim now) w.claims
        (flip_beq k (partner_id, m.key) h);
  booked = begun-IsBooked partner_id m now w free;
}
