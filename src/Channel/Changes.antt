-- ===== src/Channel/Changes.antt =====
-- What a transform of src/playground/channel-voucher-store.ts or src/mpp/stellar-channel-dispatch.ts
-- leaves under its key, and its result.
use rozo_mpprouter.Base.{Option, none, some}
use rozo_mpprouter.AtomicStore.{set, delete}
use rozo_mpprouter.AtomicStore.Client.{Change, noop, change}

abbrev pub result : {V R : Type 0} → Change V R → R
result (noop r) = r
result (change op r) = r

abbrev pub stored : {V R : Type 0} → Change V R → Option V → Option V
stored (noop r) o = o
stored (change (set v) r) o = some v
stored (change delete r) o = none
