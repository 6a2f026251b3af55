-- ===== src/Refund/Machine.antt =====
-- The life of a refund job of src/refund/refund.ts: a labelled state machine over the operations.
pub mod Legal
pub mod Enqueued
pub mod Runs
pub mod Retries
use rozo_mpprouter.Base.{
  ℕ, String, ◌≡◌, Bool, true, Option, none, some, List, [], ◌∷◌, is_some, ◌<◌,
}
use rozo_mpprouter.AtomicStore.{Write, set, delete}
use rozo_mpprouter.AtomicStore.Client.{Change, noop, change}
use rozo_mpprouter.Refund.{
  RefundRecord, RefundState, pending, leased, submitted, confirmed, manual_review, PaymentProof,
  EnqueueInput, Completion, Job, enqueue_refund, lease_refund, complete_refund, unpark_refund,
  requeue_malformed, has_text,
}

-- A call of one of the operations on the job's key.
pub data Op : Type 0 where
  enqueues : ℕ → EnqueueInput → Op
  leases : ℕ → String → Op
  completes : ℕ → String → Completion → Op
  unparks : ℕ → Option String → Op
  requeues : String → String → Op

-- The stored record after the change.
abbrev pub stored : {R : Type 0} → Change RefundRecord R → Option RefundRecord → Option RefundRecord
stored (noop r) o = o
stored (change (set rec) r) o = some rec
stored (change delete r) o = none

abbrev pub stored_if : {R : Type 0} → Option (Job R) → Option RefundRecord → Option RefundRecord
stored_if none o = o
stored_if (some job) o = stored (job o) o

unfoldable pub step : Op → Option RefundRecord → Option RefundRecord
step (enqueues now input) o = stored_if (enqueue_refund now input) o
step (leases now lease_id) o = stored (lease_refund now lease_id o) o
step (completes now lease_id update) o = stored (complete_refund now lease_id update o) o
step (unparks now reason) o = stored (unpark_refund now reason o) o
step (requeues lease_id tx) o = stored (requeue_malformed lease_id tx o) o

unfoldable pub steps : List Op → Option RefundRecord → Option RefundRecord
steps [] o = o
steps (op ∷ ops) o = steps ops (step op o)

-- The transitions that a write may make.
pub data Edge : RefundState → RefundState → Type 0 where
  leasing : Edge pending leased
  releasing : Edge leased leased
  submitting : Edge leased submitted
  confirming : Edge submitted confirmed
  parking : Edge leased manual_review
  parking_submitted : Edge submitted manual_review
  parking_again : Edge manual_review manual_review
  unparking : Edge manual_review pending
  requeueing : Edge submitted pending

-- What a record of each state holds.
abbrev pub Shape : RefundState → RefundRecord → Type 0
Shape pending rec = (rec.lease ≡ none) × (rec.refund_tx ≡ none) × (rec.signed_xdr ≡ none)
Shape leased rec = is_some rec.lease ≡ true
Shape submitted rec =
    (is_some rec.lease ≡ true) × (is_some rec.refund_tx ≡ true) × (has_text rec.signed_xdr ≡ true)
Shape confirmed rec = (is_some rec.refund_tx ≡ true) × (is_some rec.confirmed_at ≡ true)
Shape manual_review rec = (is_some rec.lease ≡ true) × (is_some rec.refund_tx ≡ true)

-- The amount to return is the amount paid, and it is positive.
pub record WellFormed (rec : RefundRecord) : Type 0 where
  pub shape : Shape rec.state rec
  pub full : rec.refund_amount ≡ rec.payment.amount_atomic
  pub positive : 0 < rec.refund_amount

-- What no operation changes.
abbrev pub claim :
    RefundRecord → String × String × PaymentProof × ℕ × String × String × Option String × ℕ
claim rec = (
  rec.refund_id, rec.public_id, rec.payment, rec.refund_amount, rec.merchant, rec.route_id,
  rec.order_id, rec.created_at,
)

-- From one record to the one written over it.
pub record Advances (a b : RefundRecord) : Type 0 where
  pub edge : Edge a.state b.state
  pub same_claim : claim a ≡ claim b
  pub shape : Shape b.state b

-- What a change may write over a record.
abbrev pub Legal : {R : Type 0} → RefundRecord → Change RefundRecord R → Type 0
Legal rec (noop r) = Unit
Legal rec (change (set new) r) = Advances rec new
Legal rec (change delete r) = ⊥
