-- ===== src/Refund/Machine/Runs.antt =====
-- Whole histories of a refund job of src/refund/refund.ts: any sequence of calls on its key.
use rozo_mpprouter.Base.{
  ◌≡◌, refl, inl, inr, true, false, Option, some, List, [], ◌∷◌, leb, Bool-cases, All,
}
use rozo_mpprouter.Refund.{
  RefundRecord, leased, confirmed, Lease, create_or_keep, enqueue_refund, lease_refund,
  complete_refund, unpark_refund, requeue_malformed, holds_lease, lease_after,
}
use rozo_mpprouter.Refund.Machine.{Op, enqueues, leases, completes, unparks, requeues, step, steps}

step_confirmed :
    (op : Op) (rec : RefundRecord) → rec.state ≡ confirmed → step op (some rec) ≡ some rec
unfolding step enqueue_refund create_or_keep lease_refund complete_refund unpark_refund
    requeue_malformed
step_confirmed (enqueues now input) rec h = elim (Bool-cases (leb input.proof.amount_atomic 0)) [
  | inl bad ↦ rw bad refl
  | inr good ↦ rw good refl
]
step_confirmed (leases now id) rec h = rw (h, lease_refund) refl
step_confirmed (completes now id u) rec h = rw (h, complete_refund) refl
step_confirmed (unparks now reason) rec h = rw (h, unpark_refund) refl
step_confirmed (requeues id tx) rec h = rw (h, requeue_malformed) refl

-- A confirmed refund is final: no sequence of calls changes its record.
pub steps_confirmed :
    (ops : List Op) (rec : RefundRecord) → rec.state ≡ confirmed → steps ops (some rec) ≡ some rec
unfolding steps
steps_confirmed [] rec h = refl
steps_confirmed (op ∷ ops) rec h = rw (step_confirmed op rec h) (steps_confirmed ops rec h)

-- A call that is not the lease's holder's, made while the lease lives.
abbrev pub Foreign : Option Lease → Op → Type 0
Foreign lease (enqueues now input) = Unit
Foreign lease (leases now id) = lease_after now lease ≡ true
Foreign lease (completes now id u) = holds_lease id lease ≡ false
Foreign lease (unparks now reason) = Unit
Foreign lease (requeues id tx) = Unit

step-Foreign :
    (op : Op) (rec : RefundRecord)
    → rec.state ≡ leased
    → Foreign rec.lease op
    → step op (some rec) ≡ some rec
unfolding step enqueue_refund create_or_keep lease_refund complete_refund unpark_refund
    requeue_malformed
step-Foreign (enqueues now input) rec e h = elim (Bool-cases (leb input.proof.amount_atomic 0)) [
  | inl bad ↦ rw bad refl
  | inr good ↦ rw good refl
]
step-Foreign (leases now id) rec e h = rw (e, lease_refund, h) refl
step-Foreign (completes now id u) rec e h = rw (e, complete_refund, h) refl
step-Foreign (unparks now reason) rec e h = rw (e, unpark_refund) refl
step-Foreign (requeues id tx) rec e h = rw (e, requeue_malformed) refl

-- A leased job is its worker's: whatever sequence of calls others make, each lease asked for while
-- this one lives and each completion without its id, and whatever is enqueued, unparked or requeued
-- among them, the record at the end is the leased one.
pub live_lease_excludes :
    (ops : List Op) (rec : RefundRecord)
    → rec.state ≡ leased
    → All (Foreign rec.lease) ops
    → steps ops (some rec) ≡ some rec
unfolding steps
live_lease_excludes [] rec e h = refl
live_lease_excludes (op ∷ ops) rec e h =
    rw (step-Foreign op rec e h.0) (live_lease_excludes ops rec e h.1)
