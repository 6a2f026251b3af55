-- ===== src/Refund/Machine/Enqueued.antt =====
-- Where the record of a refund job of src/refund/refund.ts comes from, and what one more call makes
-- of it.
use rozo_mpprouter.Base.{
  ℕ, ◌≡◌, refl, sym, ap, ◌∙◌, inl, inr, Option, none, some, List, [], ◌∷◌, arith, ◌<◌, leb,
  Bool-cases, ◌⊎◌, ◌++◌, subst,
}
use rozo_mpprouter.AtomicStore.{set, delete}
use rozo_mpprouter.AtomicStore.Client.{Change, noop, change}
use rozo_mpprouter.Refund.{
  RefundRecord, pending, EnqueueInput, created, create_or_keep, enqueue_refund, lease_refund,
  complete_refund, unpark_refund, requeue_malformed,
}
use rozo_mpprouter.Refund.Machine.{
  Op, enqueues, leases, completes, unparks, requeues, stored, step, steps, WellFormed, claim,
  Advances, Legal,
}
use rozo_mpprouter.Refund.Machine.Legal.{
  lease_refund-Legal, complete_refund-Legal, unpark_refund-Legal, requeue_malformed-Legal,
}

-- A record, and the one stored some calls later.
pub record Later (a b : RefundRecord) : Type 0 where
  pub same_claim : claim a ≡ claim b
  pub well_formed : WellFormed b

Later-refl : (a : RefundRecord) → WellFormed a → Later a a
Later-refl a h = record { same_claim = refl; well_formed = h }

Later-Advances : (a b c : RefundRecord) → Later a b → Advances b c → Later a c
Later-Advances a b c l d =
    let amount : b.refund_amount ≡ c.refund_amount = ap (λ t. t.3) d.same_claim in
    let paid : b.payment.amount_atomic ≡ c.payment.amount_atomic =
      ap (λ t. t.2.amount_atomic) d.same_claim in
    record {
      same_claim = l.same_claim ∙ d.same_claim;
      well_formed = record {
        shape = d.shape;
        full = sym amount ∙ l.well_formed.full ∙ paid;
        positive = omega (arith, amount, l.well_formed.positive);
      };
    }

-- The stored record is there and is a later one.
abbrev pub IsLater : RefundRecord → Option RefundRecord → Type 0
IsLater a none = ⊥
IsLater a (some b) = Later a b

stored-IsLater :
    {R : Type 0} (a b : RefundRecord) (c : Change RefundRecord R)
    → Later a b
    → Legal b c
    → IsLater a (stored c (some b))
stored-IsLater a b (noop r) l h = l
stored-IsLater a b (change (set new) r) l h = Later-Advances a b new l h
stored-IsLater a b (change delete r) l h = absurd h

step-IsLater : (op : Op) (a b : RefundRecord) → Later a b → IsLater a (step op (some b))
unfolding step enqueue_refund create_or_keep
step-IsLater (enqueues now input) a b l = elim (Bool-cases (leb input.proof.amount_atomic 0)) [
  | inl bad ↦ rw bad l
  | inr good ↦ rw good l
]
step-IsLater (leases now id) a b l = stored-IsLater a b _ l (lease_refund-Legal now id b)
step-IsLater (completes now id u) a b l =
    stored-IsLater a b _ l (complete_refund-Legal now id u b l.well_formed.shape)
step-IsLater (unparks now reason) a b l = stored-IsLater a b _ l (unpark_refund-Legal now reason b)
step-IsLater (requeues id tx) a b l = stored-IsLater a b _ l (requeue_malformed-Legal id tx b)

-- One of the calls is this one.
abbrev pub Among : Op → List Op → Type 0
Among op [] = ⊥
Among op (o ∷ ops) = (o ≡ op) ⊎ Among op ops

-- What some calls on a key that held nothing may have left: the record of an enqueue among them.
abbrev pub WasEnqueued : List Op → Option RefundRecord → Type 0
WasEnqueued ops none = Unit
WasEnqueued ops (some rec) =
    (now : ℕ) × (input : EnqueueInput) × Among (enqueues now input) ops
    × (claim (created now input) ≡ claim rec)
    × WellFormed rec

-- What one more call may do: a record appears by an enqueue, and one that stands stays as it is or
-- makes one of the machine's transitions.
abbrev pub Moves : Option RefundRecord → Option RefundRecord → Type 0
Moves none none = Unit
Moves none (some b) = b.state ≡ pending
Moves (some a) none = ⊥
Moves (some a) (some b) = (b ≡ a) ⊎ Advances a b

created-WellFormed :
    (now : ℕ) (input : EnqueueInput)
    → 0 < input.proof.amount_atomic
    → WellFormed (created now input)
unfolding created
created-WellFormed now input h = record { shape = (refl, refl, refl); full = refl; positive = h }

stored-Moves :
    {R : Type 0} (a : RefundRecord) (c : Change RefundRecord R)
    → Legal a c
    → Moves (some a) (stored c (some a))
stored-Moves a (noop r) h = inl refl
stored-Moves a (change (set new) r) h = inr h
stored-Moves a (change delete r) h = absurd h

append_nil : (ops : List Op) → ops ++ [] ≡ ops
append_nil [] = refl
append_nil (o ∷ ops) = ap (λ os. o ∷ os) (append_nil ops)

append_step : (ops : List Op) (op : Op) (qs : List Op) → (ops ++ op ∷ []) ++ qs ≡ ops ++ op ∷ qs
append_step [] op qs = refl
append_step (o ∷ ops) op qs = ap (λ os. o ∷ os) (append_step ops op qs)

step-Moves_over : (op : Op) (a : RefundRecord) → WellFormed a → Moves (some a) (step op (some a))
unfolding step enqueue_refund create_or_keep
step-Moves_over (enqueues now input) a h = elim (Bool-cases (leb input.proof.amount_atomic 0)) [
  | inl bad ↦ rw bad (inl refl)
  | inr good ↦ rw good (inl refl)
]
step-Moves_over (leases now id) a h = stored-Moves a _ (lease_refund-Legal now id a)
step-Moves_over (completes now id u) a h =
    stored-Moves a _ (complete_refund-Legal now id u a h.shape)
step-Moves_over (unparks now reason) a h = stored-Moves a _ (unpark_refund-Legal now reason a)
step-Moves_over (requeues id tx) a h = stored-Moves a _ (requeue_malformed-Legal id tx a)

step-Moves :
    (op : Op) (ops : List Op) (o : Option RefundRecord) → WasEnqueued ops o → Moves o (step op o)
unfolding step enqueue_refund create_or_keep lease_refund complete_refund unpark_refund
    requeue_malformed created
step-Moves op ops (some a) (now, input, at, same, h) = step-Moves_over op a h
step-Moves (enqueues now input) ops none h = elim (Bool-cases (leb input.proof.amount_atomic 0)) [
  | inl bad ↦ rw bad tt
  | inr good ↦ rw good refl
]
step-Moves (leases now id) ops none h = tt
step-Moves (completes now id u) ops none h = tt
step-Moves (unparks now reason) ops none h = tt
step-Moves (requeues id tx) ops none h = tt

Among-append : (op : Op) (ops qs : List Op) → Among op ops ⊎ Among op qs → Among op (ops ++ qs)
Among-append op [] qs (inl h) = absurd h
Among-append op [] qs (inr h) = h
Among-append op (o ∷ ops) qs (inl (inl e)) = inl e
Among-append op (o ∷ ops) qs (inl (inr h)) = inr (Among-append op ops qs (inl h))
Among-append op (o ∷ ops) qs (inr h) = inr (Among-append op ops qs (inr h))

-- A later record of an enqueued one is of the same enqueue.
Later-WasEnqueued :
    (ops : List Op) (op : Op) (a : RefundRecord) (o : Option RefundRecord)
    → WasEnqueued ops (some a)
    → IsLater a o
    → WasEnqueued (ops ++ op ∷ []) o
Later-WasEnqueued ops op a none h l = tt
Later-WasEnqueued ops op a (some b) (now, input, at, same, h) l = (
  now,
  input,
  Among-append (enqueues now input) ops (op ∷ []) (inl at),
  same ∙ l.same_claim,
  l.well_formed,
)

step-WasEnqueued :
    (op : Op) (ops : List Op) (o : Option RefundRecord)
    → WasEnqueued ops o
    → WasEnqueued (ops ++ op ∷ []) (step op o)
unfolding step enqueue_refund create_or_keep lease_refund complete_refund unpark_refund
    requeue_malformed
step-WasEnqueued op ops (some a) (now, input, at, same, h) =
    Later-WasEnqueued ops op a _ (now, input, at, same, h) (step-IsLater op a a (Later-refl a h))
step-WasEnqueued (enqueues now input) ops none h =
    elim (Bool-cases (leb input.proof.amount_atomic 0)) [
      | inl bad ↦ rw bad tt
      | inr good ↦
          let positive : 0 < input.proof.amount_atomic = ground (arith, good) in
          rw good (
            now,
            input,
            Among-append (enqueues now input) ops (enqueues now input ∷ []) (inr (inl refl)),
            refl,
            created-WellFormed now input positive,
          )
    ]
step-WasEnqueued (leases now id) ops none h = tt
step-WasEnqueued (completes now id u) ops none h = tt
step-WasEnqueued (unparks now reason) ops none h = tt
step-WasEnqueued (requeues id tx) ops none h = tt

steps-WasEnqueued :
    (ops done : List Op) (o : Option RefundRecord)
    → WasEnqueued done o
    → WasEnqueued (done ++ ops) (steps ops o)
unfolding steps
steps-WasEnqueued [] done o h = subst (λ os. WasEnqueued os o) (sym (append_nil done)) h
steps-WasEnqueued (op ∷ ops) done o h =
    subst (λ os. WasEnqueued os (steps ops (step op o))) (append_step done op ops)
      (steps-WasEnqueued ops (done ++ op ∷ []) (step op o) (step-WasEnqueued op done o h))

-- Whatever calls are made on a key that held nothing, a record that stands there is of one of the
-- enqueues among them: its payment, merchant, order and ids are those of that enqueue, and it is
-- well-formed, so that the amount to return is the positive amount paid. One more call keeps it or
-- makes one transition of the machine, which changes none of these.
pub steps_empty-WasEnqueued :
    (ops : List Op) (op : Op)
    → WasEnqueued ops (steps ops none) × Moves (steps ops none) (step op (steps ops none))
steps_empty-WasEnqueued ops op =
    let h = steps-WasEnqueued ops [] none tt in (h, step-Moves op ops (steps ops none) h)
