-- ===== src/Partners/Ledger/Retry.antt =====
-- A call of `applyLedger` (src/routes/partner-store.ts) whose worker stops part of the way, and the
-- call of the retry under the same key.
use rozo_mpprouter.Base.{
  ℕ, ◌+◌, ◌≤◌, String, ◌≡◌, refl, sym, ap, ◌∙◌, inl, inr, true, false, Option, none, some, List,
  ◌∷◌, arith, Bool, if◌then◌else◌, Bool-cases, ltb, length, take, subst,
}
use rozo_mpprouter.Base.Int.{pos, ◌+ℤ◌, ltb_ℤ}
use rozo_mpprouter.Base.Keys.{◌=?◌, string_eq, pair_eq, beq_refl}
use rozo_mpprouter.Base.Dict.{Dict, lookup, insert, lookup-insert_self, lookup-insert_ne, measure}
use rozo_mpprouter.Partners.Types.{
  LedgerEntry, IdemKey, Applied, PartnerRecord, Attempt, threw, gave, Books, push_bounded,
  find_first, max_idem_keys,
}
use rozo_mpprouter.Partners.Ledger.{
  Mutation, Mutate, is_ours, take_claim, put_claim, put_entry, put_partner, draft, write_draft,
  is_applied, charged_partner, charge_partner, put_charged, commit_charge, finish, apply_ledger,
}
use rozo_mpprouter.Partners.Ledger.Effect.{settled_entry, settle_claim-begun}
use rozo_mpprouter.Partners.Ledger.Begun.{balance, first_claim, begun, apply_ledger_mine}

-- Behind which of its writes a call stops.
pub data Stop : Type 0 where
  after_claim after_draft after_commit after_entry : Stop

-- What a caller's own change leaves alone.
pub record Adds (p q : PartnerRecord) : Type 0 where
  pub same_balance : q.balance ≡ p.balance
  pub same_applied : q.applied ≡ p.applied

abbrev pub noted : String → Attempt (PartnerRecord × Option LedgerEntry) × Books → Books
noted partner_id (threw e, w) = w
noted partner_id (gave (p, none), w) = w
noted partner_id (gave (p, some entry), w) = put_entry partner_id entry w

-- The store that a call leaves which takes the claim and then stops.
abbrev pub stopped : Stop → String → Mutation → Mutate → ℕ → Books → Books
stopped after_claim partner_id m mutate now w = (take_claim partner_id m.key now w).1
stopped after_draft partner_id m mutate now w =
    write_draft partner_id m now (take_claim partner_id m.key now w).1
stopped after_commit partner_id m mutate now w =
    (commit_charge partner_id m mutate now
      (write_draft partner_id m now (take_claim partner_id m.key now w).1)).1
stopped after_entry partner_id m mutate now w = noted partner_id (
    commit_charge partner_id m mutate now
      (write_draft partner_id m now (take_claim partner_id m.key now w).1))

-- Whether the change was made before the stop.
abbrev pub is_made : Stop → Bool
is_made after_claim = false
is_made after_draft = false
is_made after_commit = true
is_made after_entry = true

find_head :
    (key : IdemKey) (a : Applied) (rest : List Applied)
    → a.k ≡ key
    → is_applied key (a ∷ rest) ≡ true
unfolding find_first
find_head key a rest same = let hit : (a.k =? key) ≡ true = rw same (beq_refl key) in rw hit refl

push_bounded-is_applied :
    (key : IdemKey) (a : Applied) (rest : List Applied)
    → a.k ≡ key
    → is_applied key (push_bounded rest a max_idem_keys) ≡ true
push_bounded-is_applied key a rest same =
    elim (Bool-cases (ltb max_idem_keys (length (a ∷ rest)))) [
      | inl long ↦ rw long (find_head key a (take 199 rest) same)
      | inr short ↦ rw short (find_head key a rest same)
    ]

module _ (partner_id : String) (m : Mutation) (now : ℕ) (w : Books) (p : PartnerRecord)
    (found : lookup partner_id w.partners ≡ some p)
    (unclaimed : lookup (partner_id, m.key) w.claims ≡ none)
    (first : is_applied m.key p.applied ≡ false)
    (covered : ltb_ℤ (p.balance +ℤ m.delta) (pos 0) ≡ false)
    (new_entry : lookup (partner_id, m.entry_id) w.entries ≡ none) (mutate : Mutate)
    (q : PartnerRecord) (changed : mutate (charged_partner m p) ≡ gave q)
    (adds : Adds (charged_partner m p) q) where
  claimed_lem :
      take_claim partner_id m.key now w ≡ (true, put_claim partner_id m.key (first_claim now) w)
  unfolding take_claim
  claimed_lem = rw unclaimed refl

  drafted_lem :
      write_draft partner_id m now (take_claim partner_id m.key now w).1 ≡ begun partner_id m now w
  unfolding write_draft
  drafted_lem = rw (claimed_lem, new_entry) refl

  committed_lem :
      commit_charge partner_id m mutate now
        (write_draft partner_id m now (take_claim partner_id m.key now w).1)
      ≡ (
        gave (q, some (settled_entry partner_id m now p)),
        put_partner partner_id q (begun partner_id m now w),
      )
  unfolding commit_charge charge_partner
  committed_lem = rw (drafted_lem, found, first, covered, changed) refl

  module _ (retry : Mutation) (same_key : retry.key ≡ m.key) (same_delta : retry.delta ≡ m.delta)
      (newer_entry : lookup (partner_id, retry.entry_id) w.entries ≡ none)
      (distinct : (m.entry_id =? retry.entry_id) ≡ false) (again : Mutate) (q' : PartnerRecord)
      (changed_again : again (charged_partner retry p) ≡ gave q')
      (adds_again : Adds (charged_partner retry p) q') where
    -- What a stop leaves: the claim, no entry of the retry's, and the record before or behind the
    -- change.
    record Halted (made : Bool) (t : Books) : Type 0 where
      held_claim : lookup (partner_id, m.key) t.claims ≡ some (first_claim now)
      free : lookup (partner_id, retry.entry_id) t.entries ≡ none
      partner : lookup partner_id t.partners ≡ some (if made then q else p)

    entries_differ :
        (e : LedgerEntry) (d : Dict (String × String) LedgerEntry)
        → lookup (partner_id, retry.entry_id) d ≡ none
        → lookup (partner_id, retry.entry_id) (insert (partner_id, m.entry_id) e d) ≡ none
    entries_differ e d h =
        lookup-insert_ne (partner_id, m.entry_id) (partner_id, retry.entry_id) e d
          (ground (arith, distinct))
        ∙ h

    claim_held :
        lookup (partner_id, m.key) (insert (partner_id, m.key) (first_claim now) w.claims)
        ≡ some (first_claim now)
    claim_held = lookup-insert_self (partner_id, m.key) (first_claim now) w.claims

    stopped-Halted : (stop : Stop) → Halted (is_made stop) (stopped stop partner_id m mutate now w)
    stopped-Halted after_claim =
        subst (λ r. Halted false r.1) (sym claimed_lem)
          (record { held_claim = claim_held; free = newer_entry; partner = found })
    stopped-Halted after_draft = subst (Halted false) (sym drafted_lem) (record {
      held_claim = claim_held;
      free = entries_differ (draft partner_id m now) w.entries newer_entry;
      partner = found;
    })
    stopped-Halted after_commit =
        subst (λ r. Halted true r.1) (sym committed_lem)
          (record {
            held_claim = claim_held;
            free = entries_differ (draft partner_id m now) w.entries newer_entry;
            partner = lookup-insert_self partner_id q w.partners;
          })
    stopped-Halted after_entry =
        subst (λ r. Halted true (noted partner_id r)) (sym committed_lem)
          (record {
            held_claim = claim_held;
            free =
                entries_differ (settled_entry partner_id m now p) (begun partner_id m now w).entries
                  (entries_differ (draft partner_id m now) w.entries newer_entry);
            partner = lookup-insert_self partner_id q w.partners;
          })

    module _ (later : ℕ) (stale : now + 60000 ≤ later) where
      retry_mine :
          (made : Bool) (t : Books)
          → Halted made t
          → apply_ledger partner_id retry again later t
            ≡ finish partner_id retry later (
                put_charged partner_id
                  (charge_partner retry again
                    (draft partner_id retry later)
                    (lookup partner_id t.partners))
                  (begun partner_id retry later t))
      retry_mine made t h =
          let claim : lookup (partner_id, retry.key) t.claims ≡ some (first_claim now) =
            rw same_key h.held_claim in
          let free_now : is_ours later (some (first_claim now)) ≡ true = ground (arith, stale) in
          apply_ledger_mine partner_id retry again later t (rw claim free_now) h.free

      -- The partner's record behind the retry: that of the first call where it made the change, else
      -- that of the retry.
      abbrev after_retry : Bool → PartnerRecord
      after_retry made = if made then q else q'

      retry-Halted :
          (made : Bool) (t : Books)
          → Halted made t
          → lookup partner_id (apply_ledger partner_id retry again later t).1.partners
            ≡ some (after_retry made)
      unfolding charge_partner
      retry-Halted false t h =
          let fresh : is_applied retry.key p.applied ≡ false = rw same_key first in
          let enough : ltb_ℤ (p.balance +ℤ retry.delta) (pos 0) ≡ false = rw same_delta covered in
          rw
            (
              retry_mine false t h,
              h.partner,
              fresh,
              enough,
              changed_again,
              settle_claim-begun partner_id retry later p q' t,
            )
            (lookup-insert_self partner_id q' t.partners)
      retry-Halted true t h =
          let noted : is_applied retry.key (charged_partner m p).applied ≡ true =
            push_bounded-is_applied retry.key
              (record { k = m.key; e = m.entry_id; c = m.coupon_code }) p.applied (sym same_key) in
          let seen : is_applied retry.key q.applied ≡ true = rw adds.same_applied noted in
          rw (retry_mine true t h, h.partner, seen) h.partner

      after_retry-balance : (made : Bool) → (after_retry made).balance ≡ p.balance +ℤ m.delta
      after_retry-balance true = adds.same_balance
      after_retry-balance false = adds_again.same_balance ∙ ap (λ n. p.balance +ℤ n) same_delta

      -- A change that the balance covers, with what its caller adds to it, whose worker stops behind
      -- any of its writes, is made exactly once by the retry under the same key a minute later or
      -- after that, the key being new to the partner, the entries' ids being new and different, and
      -- nothing else having run in between: the partner's record is the one of the first call, with
      -- its caller's additions, where that call had committed it, and else the one of the retry; in
      -- both the amount is applied once. The callers' additions leave the balance and the list of
      -- applied keys alone.
      pub apply_ledger_once :
          (stop : Stop)
          → let o =
              lookup partner_id
                (apply_ledger partner_id retry again later
                  (stopped stop partner_id m mutate now w)).1.partners in
            (o ≡ some (if is_made stop then q else q')) × (measure balance o ≡ p.balance +ℤ m.delta)
      apply_ledger_once stop =
          let at =
            retry-Halted (is_made stop) (stopped stop partner_id m mutate now w)
              (stopped-Halted stop) in
          (at, ap (measure balance) at ∙ after_retry-balance (is_made stop))
