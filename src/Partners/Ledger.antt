-- ===== src/Partners/Ledger.antt =====
-- `applyLedger` of src/routes/partner-store.ts, the one mutator of a balance. Each of its
-- compare-and-set updates is a function on the store, made as one step; a call has one instant.
pub mod Begun
pub mod Effect
pub mod Made
pub mod Retry
use rozo_mpprouter.Base.{
  ℕ, ◌-◌, String, Bool, true, false, Option, none, some, List, [], ◌∷◌, ltb, is_some, if◌then◌else◌,
}
use rozo_mpprouter.Base.Int.{ℤ, pos, ◌+ℤ◌, ltb_ℤ}
use rozo_mpprouter.Base.Keys.{◌=?◌, string_eq, pair_eq}
use rozo_mpprouter.Base.Dict.{lookup, insert}
use rozo_mpprouter.Partners.Types.{
  LedgerKind, LedgerEntry, IdemKey, Applied, PartnerRecord, Claim, ClaimState, settled, pending,
  released, Attempt, threw, gave, partner_not_found, insufficient_balance, Books, push_bounded,
  find_first, pending_stale_ms, max_ledger_index, max_idem_keys,
}

pub record Mutation : Type 0 where
  pub kind : LedgerKind
  pub delta : ℤ
  pub ref : Option String
  pub source_address : Option String
  pub operator : Option String
  pub entry_id : String
  pub key : IdemKey
  pub coupon_code : Option String

-- `mutate`: what a caller adds to the partner's update.
abbrev pub Mutate : Type 0
Mutate = PartnerRecord → Attempt PartnerRecord

pub record Outcome : Type 0 where
  pub partner : Option PartnerRecord
  pub applied : Bool
  pub entry : Option LedgerEntry

-- The instants are those of two workers: a difference that is negative counts as fresh.
abbrev pub is_free : ClaimState → ℕ → Bool
is_free settled age = false
is_free pending age = if ltb age pending_stale_ms then false else true
is_free released age = true

abbrev pub is_ours : ℕ → Option Claim → Bool
is_ours now none = true
is_ours now (some c) = is_free c.state (now - c.made_at)

abbrev pub put_claim : String → IdemKey → Claim → Books → Books
put_claim partner_id key c w = record w { claims = insert (partner_id, key) c w.claims }

abbrev pub put_partner : String → PartnerRecord → Books → Books
put_partner partner_id p w = record w { partners = insert partner_id p w.partners }

abbrev pub put_entry : String → LedgerEntry → Books → Books
put_entry partner_id entry w = record w { entries = insert (partner_id, entry.id) entry w.entries }

-- The claim on the key: whether it is this call's.
unfoldable pub take_claim : String → IdemKey → ℕ → Books → Bool × Books
take_claim partner_id key now w =
    if is_ours now (lookup (partner_id, key) w.claims)
    then (
      true,
      put_claim partner_id key
          (record { state = pending; made_at = now; entry = none; coupon = none }) w,
    )
    else (false, w)

abbrev pub draft : String → Mutation → ℕ → LedgerEntry
draft partner_id m now = record {
  id = m.entry_id;
  partner_id = partner_id;
  made_at = now;
  kind = m.kind;
  delta = m.delta;
  balance_after = none;
  ref = m.ref;
  source_address = m.source_address;
  operator = m.operator;
}

-- The entry's body is written before the balance.
unfoldable pub write_draft : String → Mutation → ℕ → Books → Books
write_draft partner_id m now w =
    if is_some (lookup (partner_id, m.entry_id) w.entries)
    then w
    else put_entry partner_id (draft partner_id m now) w

abbrev pub is_applied : IdemKey → List Applied → Bool
is_applied key applied = is_some (find_first (λ a. a.k =? key) applied)

-- The record with the delta and its traces, before the caller's own changes.
abbrev pub charged_partner : Mutation → PartnerRecord → PartnerRecord
charged_partner m p = record p {
  balance = p.balance +ℤ m.delta;
  ledger_index = push_bounded p.ledger_index m.entry_id max_ledger_index;
  applied =
      push_bounded p.applied (record { k = m.key; e = m.entry_id; c = m.coupon_code })
        max_idem_keys;
}

abbrev pub with_entry :
    LedgerEntry → Attempt PartnerRecord → Attempt (PartnerRecord × Option LedgerEntry)
with_entry entry (threw e) = threw e
with_entry entry (gave p) = gave (p, some entry)

-- The update of the partner's record; without an entry nothing is written.
unfoldable pub charge_partner :
    Mutation
    → Mutate
    → LedgerEntry
    → Option PartnerRecord
    → Attempt (PartnerRecord × Option LedgerEntry)
charge_partner m mutate body none = threw partner_not_found
charge_partner m mutate body (some p) =
    if is_applied m.key p.applied
    then gave (p, none)
    else (if ltb_ℤ (p.balance +ℤ m.delta) (pos 0)
        then threw insufficient_balance
        else with_entry (record body { balance_after = some (p.balance +ℤ m.delta) })
            (mutate (charged_partner m p)))

abbrev pub put_charged :
    String
    → Attempt (PartnerRecord × Option LedgerEntry)
    → Books
    → Attempt (PartnerRecord × Option LedgerEntry) × Books
put_charged partner_id (threw e) w = (threw e, w)
put_charged partner_id (gave (p, none)) w = (gave (p, none), w)
put_charged partner_id (gave (p, some entry)) w = (gave (p, some entry), put_partner partner_id p w)

unfoldable pub commit_charge :
    String → Mutation → Mutate → ℕ → Books → Attempt (PartnerRecord × Option LedgerEntry) × Books
commit_charge partner_id m mutate now w =
    put_charged partner_id
      (charge_partner m mutate (draft partner_id m now) (lookup partner_id w.partners)) w

abbrev pub settled_claim : Mutation → ℕ → Claim
settled_claim m now = record {
  state = settled;
  made_at = now;
  entry = some m.entry_id;
  coupon = m.coupon_code;
}

abbrev pub settle_over : String → Mutation → ℕ → Option Claim → Books → Books
settle_over partner_id m now none w = put_claim partner_id m.key (settled_claim m now) w
settle_over partner_id m now (some c) w = elim c.state [
  | settled ↦ w
  | pending ↦ put_claim partner_id m.key (settled_claim m now) w
  | released ↦ put_claim partner_id m.key (settled_claim m now) w
]

-- The claim is settled by the call that made the change.
unfoldable pub settle_claim : String → Mutation → ℕ → Books → Books
settle_claim partner_id m now w =
    settle_over partner_id m now (lookup (partner_id, m.key) w.claims) w

-- What follows the commit: the balance goes into the entry's body, and the claim is settled.
abbrev pub finish :
    String
    → Mutation
    → ℕ
    → Attempt (PartnerRecord × Option LedgerEntry) × Books
    → Attempt Outcome × Books
finish partner_id m now (threw e, w) = (threw e, w)
finish partner_id m now (gave (p, none), w) =
    (gave (record { partner = some p; applied = false; entry = none }), w)
finish partner_id m now (gave (p, some entry), w) = (
  gave (record { partner = some p; applied = true; entry = some entry }),
  settle_claim partner_id m now (put_entry partner_id entry w),
)

unfoldable pub apply_ledger : String → Mutation → Mutate → ℕ → Books → Attempt Outcome × Books
apply_ledger partner_id m mutate now w =
    let (mine, claimed) = take_claim partner_id m.key now w in
    if mine
    then finish partner_id m now
        (commit_charge partner_id m mutate now (write_draft partner_id m now claimed))
    else (
      gave (record { partner = lookup partner_id w.partners; applied = false; entry = none }),
      claimed,
    )
