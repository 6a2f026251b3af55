-- ===== src/Refund/Machine/Retries.antt =====
-- Repeated completions of a refund job of src/refund/refund.ts, as a worker whose reply was lost
-- makes them.
use text.Mathlib.Text.{◌==◌ as str_eq}
use rozo_mpprouter.Base.{
  ℕ, String, ◌≡◌, refl, inl, inr, ◌⊎◌, true, not, ◌||◌, Option, none, some, is_some,
}
use rozo_mpprouter.Base.Keys.{string_eq, beq_refl}
use rozo_mpprouter.AtomicStore.Client.{noop}
use rozo_mpprouter.Refund.{
  RefundRecord, Completion, to_submitted, to_confirmed, holds_lease, completed, identical,
  same_text, first_of, complete_refund,
}

str_eq_refl : (s : String) → str_eq s s ≡ true
str_eq_refl s = beq_refl s

identical-completed :
    (now : ℕ) (u : Completion) (rec : RefundRecord) → identical (completed now u rec) u ≡ true
identical-completed now u rec = rw (str_eq_refl u.refund_tx) (envelope u.signed_xdr)
  where
    envelope :
        (x : Option String) → (not (is_some x) || same_text (first_of x rec.signed_xdr) x) ≡ true
    envelope none = refl
    envelope (some s) = str_eq_refl s

-- Once a completion by the lease's holder has submitted or confirmed the refund, the same completion
-- again, at any later time, returns the stored record and writes nothing.
pub complete_again :
    (now later : ℕ) (lease_id : String) (u : Completion) (rec : RefundRecord)
    → holds_lease lease_id rec.lease ≡ true
    → (u.state ≡ to_submitted) ⊎ (u.state ≡ to_confirmed)
    → complete_refund later lease_id u (some (completed now u rec))
      ≡ noop (some (completed now u rec))
unfolding complete_refund
complete_again now later lease_id u rec held (inl e) =
    let same = identical-completed now u rec in rw (e, held, same) refl
complete_again now later lease_id u rec held (inr e) = rw e refl
