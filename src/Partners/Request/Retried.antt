-- ===== src/Partners/Request/Retried.antt =====
-- The retry of a request for a coupon (src/routes/partner-store.ts).
use rozo_mpprouter.Base.{
  ℕ, ◌+◌, ◌*◌, String, ◌≡◌, refl, Bool, true, false, none, some, List, [], ◌∷◌, take, arith,
  Option-cases, is_some,
}
use rozo_mpprouter.Base.Int.{pos, ◌+ℤ◌, ◌-ℤ◌, leb_ℤ, ltb_ℤ}
use rozo_mpprouter.Base.Keys.{◌=?◌, string_eq, pair_eq, beq_refl}
use rozo_mpprouter.Base.Dict.{lookup, insert, lookup-insert_self}
use rozo_mpprouter.Partners.Types.{
  PartnerRecord, CouponRecord, gave, Books, Claim, find_first, remove_first,
}
use rozo_mpprouter.Partners.Ledger.{put_partner, is_applied, charged_partner, settled_claim}
use rozo_mpprouter.Partners.Ledger.Begun.{begun}
use rozo_mpprouter.Partners.Ledger.Effect.{settled_entry, ended}
use rozo_mpprouter.Partners.Ledger.Made.{apply_ledger_made}
use rozo_mpprouter.Partners.Issue.{
  IssueOp, issue_key, pending_issue, hold_issue, hold_mutation, debit_issue, index_entry,
  confirmed_issue, confirm_pending_issue, issued_coupon, create_coupon,
}
use rozo_mpprouter.Partners.Request.{
  reconcile_issues, reconcile_refunds, reconcile_pending, IssueResult, find_issued_by_client_key,
  Draw, drawn, issue_attempts, issue_partner_coupon, replay_of, settled_code, is_usable,
}

-- A partner without pending operations has nothing to repair.
reconcile_pending-idle :
    (partner_id : String) (entry_of : String → String) (now : ℕ) (p : PartnerRecord) (w : Books)
    → lookup partner_id w.partners ≡ some p
    → p.pending_issues ≡ []
    → p.pending_refunds ≡ []
    → reconcile_pending partner_id entry_of now w ≡ (gave tt, w)
unfolding reconcile_pending reconcile_issues reconcile_refunds
reconcile_pending-idle partner_id entry_of now p w found issues refunds =
    rw (found, issues, refunds) refl

find_first-unseen :
    {A : Type 0} (test : A → Bool) (xs : List A)
    → is_some (find_first test xs) ≡ false
    → find_first test xs ≡ none
find_first-unseen test xs h = ground (arith, Option-cases (find_first test xs))

-- A settled key with a usable coupon is replayed.
replay_request :
    (j : IssueOp) (es : List Draw) (entry_of : String → String) (now : ℕ) (q : PartnerRecord)
    (rec : CouponRecord) (code : String) (c : Claim) (t : Books)
    → leb_ℤ j.amount (pos 0) ≡ false
    → lookup j.partner_id t.partners ≡ some q
    → q.pending_issues ≡ []
    → q.pending_refunds ≡ []
    → lookup (j.partner_id, issue_key j.client_key) t.claims ≡ some c
    → settled_code (some c) ≡ some code
    → lookup code t.coupons ≡ some rec
    → is_usable j.partner_id rec ≡ true
    → issue_partner_coupon j es entry_of now t ≡ (gave (replay_of rec q), t)
unfolding issue_partner_coupon find_issued_by_client_key
replay_request j es entry_of now q rec code c t asks found issues refunds claimed points stands
      usable =
    rw
      (
        asks,
        reconcile_pending-idle j.partner_id entry_of now q t found issues refunds,
        found,
        claimed,
        points,
        stands,
        usable,
      )
      refl

module _ (i : IssueOp) (d : Draw) (p : PartnerRecord) (w : Books) where
  abbrev held : PartnerRecord
  held =
      let q = charged_partner (hold_mutation (drawn i d)) p in
      record q { pending_issues = pending_issue d.op_id (drawn i d) d.made_at ∷ [] }

  abbrev coupon : CouponRecord
  coupon = issued_coupon d.op_id (drawn i d) d.made_at

  abbrev debited_books : Books
  debited_books = ended i.partner_id (hold_mutation (drawn i d)) d.made_at p held w

  abbrev listed : PartnerRecord
  listed = confirmed_issue d.op_id (index_entry (drawn i d) d.made_at) held

  -- The store after the issue.
  abbrev pub issued_books : Books
  issued_books =
      put_partner i.partner_id listed
        (record debited_books { coupons = insert d.code coupon w.coupons })

  -- What the issue reports.
  abbrev pub issue_result : IssueResult
  issue_result = record {
    code = d.code;
    amount = i.amount;
    expires_at = d.made_at + i.expires_in_minutes * 60000;
    balance_after = some (p.balance +ℤ (pos 0 -ℤ i.amount));
    reused = false;
  }

module _ (i : IssueOp) (d : Draw) (p : PartnerRecord) (w : Books)
    (found : lookup i.partner_id w.partners ≡ some p) (issues : p.pending_issues ≡ [])
    (refunds : p.pending_refunds ≡ []) (active : p.suspended ≡ false)
    (positive : leb_ℤ i.amount (pos 0) ≡ false)
    (covered : ltb_ℤ (p.balance +ℤ (pos 0 -ℤ i.amount)) (pos 0) ≡ false)
    (unclaimed : lookup (i.partner_id, issue_key i.client_key) w.claims ≡ none)
    (first : is_applied (issue_key i.client_key) p.applied ≡ false)
    (free : lookup (i.partner_id, d.entry_id) w.entries ≡ none)
    (open_key : lookup d.code w.coupons ≡ none) where
  debit_issue-made : debit_issue d.op_id (drawn i d) d.made_at w ≡ (
    gave (record {
      partner = some (held i d p w);
      applied = true;
      entry = some (settled_entry i.partner_id (hold_mutation (drawn i d)) d.made_at p);
    }),
    (debited_books i d p w),
  )
  unfolding debit_issue
  debit_issue-made =
      apply_ledger_made i.partner_id (hold_mutation (drawn i d))
        (hold_issue d.op_id (drawn i d) d.made_at) d.made_at p (held i d p w) w unclaimed free found
        first covered (rw (active, issues) refl)

  issue_attempts-issued :
      (ds : List Draw)
      → issue_attempts i (d ∷ ds) w ≡ (gave (issue_result i d p w), issued_books i d p w)
  unfolding issue_attempts create_coupon confirm_pending_issue find_first remove_first
  issue_attempts-issued ds =
      rw
        (
          debit_issue-made,
          open_key,
          lookup-insert_self i.partner_id (held i d p w) w.partners,
          beq_refl d.op_id,
        )
        refl

  find_issued_by_client_key-unseen :
      (now : ℕ) → find_issued_by_client_key i.partner_id i.client_key now w ≡ (none, w)
  unfolding find_issued_by_client_key find_first
  find_issued_by_client_key-unseen now =
      rw
        (
          found,
          unclaimed,
          find_first-unseen (λ a. a.k =? issue_key i.client_key) p.applied first,
          issues,
        )
        refl

  issue_partner_coupon-issued :
      (ds : List Draw) (entry_of : String → String) (now : ℕ)
      → issue_partner_coupon i (d ∷ ds) entry_of now w
        ≡ (gave (issue_result i d p w), issued_books i d p w)
  unfolding issue_partner_coupon
  issue_partner_coupon-issued ds entry_of now =
      rw
        (
          positive,
          reconcile_pending-idle i.partner_id entry_of now p w found issues refunds,
          find_issued_by_client_key-unseen now,
        )
        (issue_attempts-issued (take 9 ds))

  listed-settled : (listed i d p w).pending_issues ≡ []
  unfolding remove_first
  listed-settled = rw (beq_refl d.op_id) refl

  -- A request of an active partner with nothing pending, for a positive amount that the balance
  -- covers and with a client's key, an entry's id and a code not used before, issues the coupon and
  -- takes its amount off the balance. A later request under the same client's key on the store that
  -- this leaves, whatever it draws and whatever positive amount it asks for, reports the same coupon
  -- and leaves the store as it is.
  pub issue_partner_coupon_retry :
      (ds es : List Draw) (entry_of other_entry : String → String) (now later : ℕ) (j : IssueOp)
      → j.partner_id ≡ i.partner_id
      → j.client_key ≡ i.client_key
      → leb_ℤ j.amount (pos 0) ≡ false
      → (issue_partner_coupon i (d ∷ ds) entry_of now w
          ≡ (gave (issue_result i d p w), issued_books i d p w))
        × (issue_partner_coupon j es other_entry later (issued_books i d p w)
            ≡ (gave (record (issue_result i d p w) { reused = true }), issued_books i d p w))
  issue_partner_coupon_retry ds es entry_of other_entry now later j who key asks = (
    issue_partner_coupon-issued ds entry_of now,
    replay_request j es other_entry later (listed i d p w) (coupon i d p w) d.code
        (settled_claim (hold_mutation (drawn i d)) d.made_at) (issued_books i d p w) asks
        (rw who (lookup-insert_self i.partner_id (listed i d p w) (debited_books i d p w).partners))
        listed-settled refunds
        (rw (who, key)
          (lookup-insert_self (i.partner_id, issue_key i.client_key)
            (settled_claim (hold_mutation (drawn i d)) d.made_at)
            (begun i.partner_id (hold_mutation (drawn i d)) d.made_at w).claims))
        refl (lookup-insert_self d.code (coupon i d p w) w.coupons)
        (rw who (beq_refl i.partner_id)),
  )
