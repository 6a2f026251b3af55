-- ===== src/Refund.antt =====
-- src/refund/refund.ts: the durable refund jobs. Each operation is the transform that it hands to the
-- store's `update`: from the stored record to the change that is committed and its result. The
-- parsing of instants, of JSON and the hash of a payment are the callers'; a record is its parsed
-- form, with instants in milliseconds.
pub mod Machine
use text.Mathlib.Text.{◌==◌ as str_eq}
use rozo_mpprouter.Base.{
  ℕ, ◌+◌, ◌-◌, String, Bool, true, false, not, ◌&&◌, ◌||◌, Option, none, some, List, [], ◌∷◌, ◌++◌,
  ltb, leb, is_some, or_else, if◌then◌else◌,
}
use rozo_mpprouter.AtomicStore.{set}
use rozo_mpprouter.AtomicStore.Client.{Change, noop, change}

pub data RefundReason : Type 0 where
  timeout : RefundReason
  upstream_5xx : RefundReason
  non_fulfillment : RefundReason
  empty_response : RefundReason

pub data RefundState : Type 0 where
  pending : RefundState
  leased : RefundState
  submitted : RefundState
  confirmed : RefundState
  manual_review : RefundState

pub data Mode : Type 0 where
  charge : Mode
  channel : Mode

pub record PaymentProof : Type 0 where
  pub payment_id : String
  pub payment_tx : String
  pub payer : String
  pub recipient : String
  pub asset : String
  pub amount_atomic : ℕ
  pub mode : Mode

-- The event `admin_unpark` with its detail.
pub record RefundAuditEvent : Type 0 where
  pub at : ℕ
  pub discarded_tx : Option String
  pub reason : Option String

pub record Lease : Type 0 where
  pub id : String
  pub until : ℕ

pub record RefundRecord : Type 0 where
  pub refund_id : String
  pub public_id : String
  pub state : RefundState
  pub reason : RefundReason
  pub payment : PaymentProof
  pub merchant : String
  pub route_id : String
  pub order_id : Option String
  pub refund_amount : ℕ
  pub created_at : ℕ
  pub events : List RefundAuditEvent
  pub lease : Option Lease
  pub refund_tx : Option String
  pub signed_xdr : Option String
  pub confirmed_ledger : Option ℕ
  pub confirmed_at : Option ℕ

unfoldable pub refund_amount_atomic : Mode → ℕ → Option ℕ → ℕ
refund_amount_atomic charge paid delivered = paid
refund_amount_atomic channel paid delivered =
    if leb paid (or_else delivered 0) then 0 else paid - or_else delivered 0

abbrev pub Job : Type 0 → Type 0
Job R = Option RefundRecord → Change RefundRecord R

-- A falsy string: absent or empty.
abbrev pub has_text : Option String → Bool
has_text none = false
has_text (some s) = not (str_eq s "")

-- The field of `...(s ? { s } : {})`.
abbrev pub if_text : Option String → Option String
if_text s = if has_text s then s else none

-- The argument of `enqueueRefund`, with the two ids it draws.
pub record EnqueueInput : Type 0 where
  pub refund_id : String
  pub public_id : String
  pub proof : PaymentProof
  pub reason : RefundReason
  pub merchant : String
  pub route_id : String
  pub order_id : Option String

unfoldable pub created : ℕ → EnqueueInput → RefundRecord
created now input = record {
  refund_id = input.refund_id;
  public_id = input.public_id;
  state = pending;
  reason = input.reason;
  payment = input.proof;
  merchant = input.merchant;
  route_id = input.route_id;
  order_id = if_text input.order_id;
  refund_amount = input.proof.amount_atomic;
  created_at = now;
  events = [];
  lease = none;
  refund_tx = none;
  signed_xdr = none;
  confirmed_ledger = none;
  confirmed_at = none;
}

-- The transform of `enqueueRefund`.
unfoldable pub create_or_keep : ℕ → EnqueueInput → Job RefundRecord
create_or_keep now input none = change (set (created now input)) (created now input)
create_or_keep now input (some existing) = noop existing

-- `enqueueRefund` up to the store's `update`: it throws on an amount that is not positive.
unfoldable pub enqueue_refund : ℕ → EnqueueInput → Option (Job RefundRecord)
enqueue_refund now input =
    if leb input.proof.amount_atomic 0 then none else some (create_or_keep now input)

abbrev pub lease_ms : ℕ
lease_ms = 60000

abbrev pub is_pending : RefundState → Bool
is_pending pending = true
is_pending _ = false

abbrev pub is_leased : RefundState → Bool
is_leased leased = true
is_leased _ = false

abbrev pub is_submitted : RefundState → Bool
is_submitted submitted = true
is_submitted _ = false

abbrev pub is_confirmed : RefundState → Bool
is_confirmed confirmed = true
is_confirmed _ = false

abbrev pub lease_after : ℕ → Option Lease → Bool
lease_after now none = false
lease_after now (some lease) = ltb now lease.until

-- `active`
abbrev pub is_active : ℕ → RefundRecord → Bool
is_active now rec = is_leased rec.state && lease_after now rec.lease

abbrev pub leased_record : ℕ → String → RefundRecord → RefundRecord
leased_record now lease_id rec = record rec {
  state = leased;
  lease = some (record { id = lease_id; until = now + lease_ms });
}

-- The transform of `leaseRefund`.
unfoldable pub lease_refund : ℕ → String → Job (Option RefundRecord)
lease_refund now lease_id none = noop none
lease_refund now lease_id (some rec) =
    if not (is_pending rec.state) && is_active now rec
    then noop none
    else (if not (is_pending rec.state) && not (is_leased rec.state)
        then noop none
        else change (set (leased_record now lease_id rec)) (some (leased_record now lease_id rec)))

pub data Update : Type 0 where
  to_submitted : Update
  to_confirmed : Update
  to_manual_review : Update

-- The argument `update` of `completeRefund`.
pub record Completion : Type 0 where
  pub state : Update
  pub refund_tx : String
  pub signed_xdr : Option String
  pub confirmed_ledger : Option ℕ

abbrev pub state_after : Update → RefundState
state_after to_submitted = submitted
state_after to_confirmed = confirmed
state_after to_manual_review = manual_review

abbrev pub holds_lease : String → Option Lease → Bool
holds_lease lease_id none = false
holds_lease lease_id (some lease) = str_eq lease.id lease_id

abbrev pub same_text : Option String → Option String → Bool
same_text none none = true
same_text (some a) (some b) = str_eq a b
same_text _ _ = false

-- `a ?? b`
abbrev pub first_of {ℓ} : {A : Type ℓ} → Option A → Option A → Option A
first_of none b = b
first_of (some a) b = some a

abbrev pub identical : RefundRecord → Completion → Bool
identical rec update =
    same_text rec.refund_tx (some update.refund_tx)
    && (not (is_some update.signed_xdr) || same_text rec.signed_xdr update.signed_xdr)

abbrev pub completed : ℕ → Completion → RefundRecord → RefundRecord
completed now update rec = record rec {
  state = state_after update.state;
  refund_tx = some update.refund_tx;
  signed_xdr = first_of update.signed_xdr rec.signed_xdr;
  confirmed_ledger = first_of update.confirmed_ledger rec.confirmed_ledger;
  confirmed_at = if is_confirmed (state_after update.state) then some now else rec.confirmed_at;
}

abbrev pub reviewed : RefundRecord → RefundRecord
reviewed rec = record rec { state = manual_review }

-- A refund that is already submitted, and an update that does not confirm it.
abbrev pub repeat_submitted : Completion → RefundRecord → Change RefundRecord (Option RefundRecord)
repeat_submitted update rec =
    if is_submitted (state_after update.state)
    then noop (if identical rec update then some rec else none)
    else (if identical rec update
        then change (set (reviewed rec)) (some (reviewed rec))
        else noop none)

abbrev pub is_refused : Completion → RefundRecord → Bool
is_refused update rec =
    is_confirmed (state_after update.state) && not (is_submitted rec.state)
    || is_submitted (state_after update.state)
      && (not (has_text update.signed_xdr) || not (is_leased rec.state))

-- The transform of `completeRefund`. Its write to the order ledger afterwards is not part of it.
unfoldable pub complete_refund : ℕ → String → Completion → Job (Option RefundRecord)
complete_refund now lease_id update none = noop none
complete_refund now lease_id update (some rec) =
    if is_confirmed rec.state
    then noop (some rec)
    else (if not (holds_lease lease_id rec.lease)
        then noop none
        else (if is_submitted rec.state && not (is_confirmed (state_after update.state))
            then repeat_submitted update rec
            else (if is_refused update rec
                then noop none
                else change (set (completed now update rec)) (some (completed now update rec)))))

pub data UnparkOutcome : Type 0 where
  unparked : Bool → RefundRecord → UnparkOutcome
  not_found : UnparkOutcome
  invalid_state : RefundState → UnparkOutcome

abbrev pub unparked_record : ℕ → Option String → RefundRecord → RefundRecord
unparked_record now reason rec = record rec {
  state = pending;
  lease = none;
  refund_tx = none;
  signed_xdr = none;
  events =
      rec.events
      ++ record { at = now; discarded_tx = if_text rec.refund_tx; reason = if_text reason } ∷ [];
}

-- The transform of `unparkRefund`.
unfoldable pub unpark_refund : ℕ → Option String → Job UnparkOutcome
unpark_refund now reason none = noop not_found
unpark_refund now reason (some rec) = elim rec.state [
  | pending ↦ noop (unparked false rec)
  | manual_review ↦
      change (set (unparked_record now reason rec)) (unparked true (unparked_record now reason rec))
  | other ↦ noop (invalid_state other)
]

abbrev pub requeued : RefundRecord → RefundRecord
requeued rec = record rec { state = pending; lease = none; refund_tx = none; signed_xdr = none }

-- The transform of `requeueMalformedRefund`.
unfoldable pub requeue_malformed : String → String → Job (Option RefundRecord)
requeue_malformed lease_id expected_tx none = noop none
requeue_malformed lease_id expected_tx (some rec) =
    if not (is_submitted rec.state) || not (holds_lease lease_id rec.lease)
    then noop none
    else (if not (same_text rec.refund_tx (some expected_tx)) || not (has_text rec.signed_xdr)
        then noop none
        else change (set (requeued rec)) (some (requeued rec)))
