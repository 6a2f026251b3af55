-- ===== src/Partners/Ledger/Made.antt =====
-- A change that `applyLedger` (src/routes/partner-store.ts) makes, with what it reports.
use rozo_mpprouter.Base.{ℕ, String, ◌≡◌, refl, true, false, none, some}
use rozo_mpprouter.Base.Int.{pos, ◌+ℤ◌, ltb_ℤ}
use rozo_mpprouter.Base.Keys.{string_eq, pair_eq}
use rozo_mpprouter.Base.Dict.{lookup}
use rozo_mpprouter.Partners.Types.{PartnerRecord, gave, Books}
use rozo_mpprouter.Partners.Ledger.{
  Mutation, Mutate, is_applied, charged_partner, charge_partner, apply_ledger,
}
use rozo_mpprouter.Partners.Ledger.Begun.{apply_ledger_mine}
use rozo_mpprouter.Partners.Ledger.Effect.{settled_entry, ended, settle_claim-begun}

-- A change that is the first under its key, and that the balance covers, is made and reported.
pub apply_ledger_made :
    (partner_id : String) (m : Mutation) (mutate : Mutate) (now : ℕ) (p q : PartnerRecord)
    (w : Books)
    → lookup (partner_id, m.key) w.claims ≡ none
    → lookup (partner_id, m.entry_id) w.entries ≡ none
    → lookup partner_id w.partners ≡ some p
    → is_applied m.key p.applied ≡ false
    → ltb_ℤ (p.balance +ℤ m.delta) (pos 0) ≡ false
    → mutate (charged_partner m p) ≡ gave q
    → apply_ledger partner_id m mutate now w ≡ (
      gave (record {
        partner = some q;
        applied = true;
        entry = some (settled_entry partner_id m now p);
      }),
      ended partner_id m now p q w,
    )
unfolding charge_partner
apply_ledger_made partner_id m mutate now p q w unclaimed free found first covered changed =
    rw
      (
        apply_ledger_mine partner_id m mutate now w (rw unclaimed refl) free,
        found,
        first,
        covered,
        changed,
        settle_claim-begun partner_id m now p q w,
      )
      refl
