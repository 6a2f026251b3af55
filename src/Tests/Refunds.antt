-- ===== src/Tests/Refunds.antt =====
-- Runs of the refund jobs of src/refund/refund.ts.
use rozo_mpprouter.Base.{◌≡◌, refl, inl, none, some, List, [], ◌∷◌}
use rozo_mpprouter.AtomicStore.Client.{noop}
use rozo_mpprouter.Refund.{
  RefundRecord, leased, confirmed, timeout, charge, PaymentProof, EnqueueInput, Completion,
  to_submitted, to_confirmed, created, completed, create_or_keep, enqueue_refund, lease_refund,
  complete_refund, unpark_refund,
}
use rozo_mpprouter.Refund.Machine.{Op, enqueues, leases, completes, unparks, requeues, step, steps}
use rozo_mpprouter.Refund.Machine.Runs.{steps_confirmed, live_lease_excludes}
use rozo_mpprouter.Refund.Machine.Enqueued.{WasEnqueued, Moves, steps_empty-WasEnqueued}
use rozo_mpprouter.Refund.Machine.Retries.{complete_again}

abbrev proof : PaymentProof
proof = record {
  payment_id = "pay";
  payment_tx = "tx";
  payer = "GA";
  recipient = "GB";
  asset = "USDC";
  amount_atomic = 2500000;
  mode = charge;
}

abbrev input : EnqueueInput
input = record {
  refund_id = "hash";
  public_id = "public";
  proof = proof;
  reason = timeout;
  merchant = "shop";
  route_id = "route";
  order_id = some "order";
}

abbrev send : Completion
send = record {
  state = to_submitted;
  refund_tx = "return";
  signed_xdr = some "AAAA";
  confirmed_ledger = none;
}

abbrev include : Completion
include = record {
  state = to_confirmed;
  refund_tx = "return";
  signed_xdr = none;
  confirmed_ledger = some 99;
}

abbrev life : List Op
life =
    enqueues 10 input
    ∷ leases 20 "worker"
    ∷ leases 30 "thief"
    ∷ completes 40 "worker" send
    ∷ completes 50 "worker" include
    ∷ unparks 60 none
    ∷ []

abbrev base : RefundRecord
base = record {
  refund_id = "hash";
  public_id = "public";
  state = leased;
  reason = timeout;
  payment = proof;
  merchant = "shop";
  route_id = "route";
  order_id = some "order";
  refund_amount = 2500000;
  created_at = 10;
  events = [];
  lease = some (record { id = "worker"; until = 60020 });
  refund_tx = none;
  signed_xdr = none;
  confirmed_ledger = none;
  confirmed_at = none;
}

abbrev final : RefundRecord
final = record base {
  state = confirmed;
  refund_tx = some "return";
  signed_xdr = some "AAAA";
  confirmed_ledger = some 99;
  confirmed_at = some 50;
}

life_confirms : steps life none ≡ some final
unfolding steps step enqueue_refund create_or_keep created lease_refund complete_refund
    unpark_refund
life_confirms = refl

steps_empty-WasEnqueued_example :
    WasEnqueued life (steps life none)
    × Moves (steps life none) (step (leases 900000 "late") (steps life none))
steps_empty-WasEnqueued_example = steps_empty-WasEnqueued life (leases 900000 "late")

steps_confirmed_example : steps life (some final) ≡ some final
steps_confirmed_example = steps_confirmed life final refl

abbrev intruders : List Op
intruders =
    leases 60000 "thief"
    ∷ completes 60001 "thief" send
    ∷ unparks 60002 none
    ∷ requeues "thief" "return"
    ∷ []

live_lease_excludes_example : steps intruders (some base) ≡ some base
live_lease_excludes_example = live_lease_excludes intruders base refl (refl, (refl, (tt, (tt, tt))))

complete_again_example :
    complete_refund 70000 "worker" send (some (completed 40 send base))
    ≡ noop (some (completed 40 send base))
complete_again_example = complete_again 40 70000 "worker" send base refl (inl refl)
