-- ===== src/Refund/Machine/Legal.antt =====
-- The writes of src/refund/refund.ts over a refund job, as transitions of its state machine.
use rozo_mpprouter.Base.{
  ℕ, String, ◌≡◌, refl, inl, inr, ◌⊎◌, true, not, ◌||◌, Option, none, some, arith, is_some,
  Bool-cases,
}
use rozo_mpprouter.Refund.{
  RefundRecord, RefundState, pending, leased, submitted, confirmed, manual_review, Completion,
  Update, Lease, is_confirmed, first_of, to_submitted, to_confirmed, to_manual_review, lease_after,
  identical, holds_lease, has_text, lease_refund, complete_refund, unpark_refund, requeue_malformed,
  same_text,
}
use rozo_mpprouter.Refund.Machine.{
  Edge, leasing, releasing, submitting, confirming, parking, parking_submitted, parking_again,
  unparking, requeueing, Shape, claim, Advances, Legal,
}

State-cases :
    (s : RefundState)
    → (s ≡ pending) ⊎ (s ≡ leased) ⊎ (s ≡ submitted) ⊎ (s ≡ confirmed) ⊎ (s ≡ manual_review)
State-cases pending = inl refl
State-cases leased = inr (inl refl)
State-cases submitted = inr (inr (inl refl))
State-cases confirmed = inr (inr (inr (inl refl)))
State-cases manual_review = inr (inr (inr (inr refl)))

advance :
    (a b : RefundRecord) → Edge a.state b.state → claim a ≡ claim b → Shape b.state b → Advances a b
advance a b e c s = record { edge = e; same_claim = c; shape = s }

pub lease_refund-Legal :
    (now : ℕ) (lease_id : String) (rec : RefundRecord)
    → Legal rec (lease_refund now lease_id (some rec))
unfolding lease_refund
lease_refund-Legal now lease_id rec = elim (State-cases rec.state) [
  | inl e ↦ rw (e, lease_refund) (advance _ _ leasing refl refl)
  | inr (inl e) ↦ elim (Bool-cases (lease_after now rec.lease)) [
    | inl active ↦ rw (e, lease_refund, active) tt
    | inr lapsed ↦ rw (e, lease_refund, lapsed) (advance _ _ releasing refl refl)
  ]
  | inr (inr (inl e)) ↦ rw (e, lease_refund) tt
  | inr (inr (inr (inl e))) ↦ rw (e, lease_refund) tt
  | inr (inr (inr (inr e))) ↦ rw (e, lease_refund) tt
]

pub unpark_refund-Legal :
    (now : ℕ) (reason : Option String) (rec : RefundRecord)
    → Legal rec (unpark_refund now reason (some rec))
unfolding unpark_refund
unpark_refund-Legal now reason rec = elim (State-cases rec.state) [
  | inl e ↦ rw (e, unpark_refund) tt
  | inr (inl e) ↦ rw (e, unpark_refund) tt
  | inr (inr (inl e)) ↦ rw (e, unpark_refund) tt
  | inr (inr (inr (inl e))) ↦ rw (e, unpark_refund) tt
  | inr (inr (inr (inr e))) ↦ rw (e, unpark_refund) (advance _ _ unparking refl (refl, refl, refl))
]

pub requeue_malformed-Legal :
    (lease_id tx : String) (rec : RefundRecord)
    → Legal rec (requeue_malformed lease_id tx (some rec))
unfolding requeue_malformed
requeue_malformed-Legal lease_id tx rec = elim (State-cases rec.state) [
  | inl e ↦ rw (e, requeue_malformed) tt
  | inr (inl e) ↦ rw (e, requeue_malformed) tt
  | inr (inr (inl e)) ↦ elim (Bool-cases (holds_lease lease_id rec.lease)) [
    | inl held ↦
        elim (Bool-cases
          (not (same_text rec.refund_tx (some tx)) || not (has_text rec.signed_xdr))) [
            | inl other ↦ rw (e, requeue_malformed, held, other) tt
            | inr same ↦
                rw (e, requeue_malformed, held, same)
                  (advance _ _ requeueing refl (refl, refl, refl))
          ]
    | inr lost ↦ rw (e, requeue_malformed, lost) tt
  ]
  | inr (inr (inr (inl e))) ↦ rw (e, requeue_malformed) tt
  | inr (inr (inr (inr e))) ↦ rw (e, requeue_malformed) tt
]

Update-cases : (u : Update) → (u ≡ to_submitted) ⊎ (u ≡ to_confirmed) ⊎ (u ≡ to_manual_review)
Update-cases to_submitted = inl refl
Update-cases to_confirmed = inr (inl refl)
Update-cases to_manual_review = inr (inr refl)

holds_lease-is_some :
    (lease_id : String) (l : Option Lease) → holds_lease lease_id l ≡ true → is_some l ≡ true
holds_lease-is_some lease_id none h = h
holds_lease-is_some lease_id (some lease) h = refl

has_text-first_of : (a b : Option String) → has_text a ≡ true → has_text (first_of a b) ≡ true
has_text-first_of none b h = absurd (ground (arith, h))
has_text-first_of (some s) b h = h

-- Each of the four states below is that of a job whose lease the caller holds.
module _ (now : ℕ) (lease_id : String) (u : Completion) (rec : RefundRecord)
    (held : holds_lease lease_id rec.lease ≡ true) where
  complete_pending-Legal :
      rec.state ≡ pending → rec.lease ≡ none → Legal rec (complete_refund now lease_id u (some rec))
  complete_pending-Legal e free = absurd (ground (arith, rw free at held))

  complete_leased-Legal : rec.state ≡ leased → Legal rec (complete_refund now lease_id u (some rec))
  unfolding complete_refund
  complete_leased-Legal e = elim (Update-cases u.state) [
    | inl up ↦ elim (Bool-cases (has_text u.signed_xdr)) [
      | inl signed ↦
          rw (e, complete_refund, held, up, signed)
            (advance _ _ submitting refl (
              holds_lease-is_some lease_id rec.lease held,
              refl,
              has_text-first_of u.signed_xdr rec.signed_xdr signed,
            ))
      | inr unsigned ↦ rw (e, complete_refund, held, up, unsigned) tt
    ]
    | inr (inl up) ↦ rw (e, complete_refund, held, up) tt
    | inr (inr up) ↦
        rw (e, complete_refund, held, up)
          (advance _ _ parking refl (holds_lease-is_some lease_id rec.lease held, refl))
  ]

  complete_submitted-Legal :
      rec.state ≡ submitted
      → is_some rec.refund_tx ≡ true
      → Legal rec (complete_refund now lease_id u (some rec))
  unfolding complete_refund
  complete_submitted-Legal e sent = elim (Update-cases u.state) [
    | inl up ↦ rw (e, complete_refund, held, up) tt
    | inr (inl up) ↦ rw (e, complete_refund, held, up) (advance _ _ confirming refl (refl, refl))
    | inr (inr up) ↦ elim (Bool-cases (identical rec u)) [
      | inl same ↦
          rw (e, complete_refund, held, up, same)
            (advance _ _ parking_submitted refl (holds_lease-is_some lease_id rec.lease held, sent))
      | inr other ↦ rw (e, complete_refund, held, up, other) tt
    ]
  ]

  complete_manual-Legal :
      rec.state ≡ manual_review → Legal rec (complete_refund now lease_id u (some rec))
  unfolding complete_refund
  complete_manual-Legal e = elim (Update-cases u.state) [
    | inl up ↦ elim (Bool-cases (has_text u.signed_xdr)) [
      | inl signed ↦ rw (e, complete_refund, held, up, signed) tt
      | inr unsigned ↦ rw (e, complete_refund, held, up, unsigned) tt
    ]
    | inr (inl up) ↦ rw (e, complete_refund, held, up) tt
    | inr (inr up) ↦
        rw (e, complete_refund, held, up)
          (advance _ _ parking_again refl (holds_lease-is_some lease_id rec.lease held, refl))
  ]

pub complete_refund-Legal :
    (now : ℕ) (lease_id : String) (u : Completion) (rec : RefundRecord)
    → Shape rec.state rec
    → Legal rec (complete_refund now lease_id u (some rec))
unfolding complete_refund
complete_refund-Legal now lease_id u rec shape = elim (Bool-cases (is_confirmed rec.state)) [
  | inl final ↦ rw (complete_refund, final) tt
  | inr live ↦ elim (Bool-cases (holds_lease lease_id rec.lease)) [
    | inr lost ↦ rw (complete_refund, live, lost) tt
    | inl held ↦ elim (State-cases rec.state) [
      | inl e ↦ complete_pending-Legal now lease_id u rec held e (rw e at shape).0
      | inr (inl e) ↦ complete_leased-Legal now lease_id u rec held e
      | inr (inr (inl e)) ↦ complete_submitted-Legal now lease_id u rec held e (rw e at shape).1
      | inr (inr (inr (inl e))) ↦ absurd (ground (arith, rw e at live))
      | inr (inr (inr (inr e))) ↦ complete_manual-Legal now lease_id u rec held e
    ]
  ]
]
