-- ===== src/Channel.antt =====
-- One playground payment channel: src/playground/channel-voucher-store.ts and the voucher rollback
-- and delivery lock of src/mpp/stellar-channel-dispatch.ts. Every write is the transform handed to
-- the atomic store's `update`. Base-unit amounts are the ℕ of the stored decimal strings, instants
-- are milliseconds.
pub mod Changes
pub mod Locks
pub mod Vouchers
pub mod Writeoffs
pub mod Settle
use text.Mathlib.Text.{◌==◌ as str_eq}
use rozo_mpprouter.Base.{
  ℕ, suc, ◌+◌, String, Bool, true, false, not, ◌&&◌, ◌||◌, Option, none, some, List, [], ◌∷◌, ltb,
  leb, is_some, or_else, if◌then◌else◌,
}
use rozo_mpprouter.Base.Keys.{string_eq}
use rozo_mpprouter.Base.Dict.{Dict, lookup, insert}
use rozo_mpprouter.AtomicStore.{set, delete}
use rozo_mpprouter.AtomicStore.Client.{Change, noop, change}

pub record LatestVoucher : Type 0 where
  pub amount_decimal : String
  pub cumulative : ℕ
  pub signature : String
  pub last_settled : ℕ
  pub updated_at : ℕ

-- The argument `v` of `putLatestVoucher`.
pub record Voucher : Type 0 where
  pub amount_decimal : String
  pub cumulative : ℕ
  pub signature : String

abbrev pub voucher_row : ℕ → Voucher → ℕ → LatestVoucher
voucher_row now v settled = record {
  amount_decimal = v.amount_decimal;
  cumulative = v.cumulative;
  signature = v.signature;
  last_settled = settled;
  updated_at = now;
}

unfoldable pub put_latest_voucher : ℕ → Voucher → Option LatestVoucher → Change LatestVoucher Bool
put_latest_voucher now v none = change (set (voucher_row now v 0)) true
put_latest_voucher now v (some current) =
    if leb v.cumulative current.cumulative
    then noop true
    else change (set (voucher_row now v current.last_settled)) true

unfoldable pub mark_voucher_settled : ℕ → ℕ → Option LatestVoucher → Change LatestVoucher Bool
mark_voucher_settled now settled none = noop false
mark_voucher_settled now settled (some current) =
    if leb settled current.last_settled
    then noop false
    else change (set (record current { last_settled = settled; updated_at = now })) true

-- `markChannelClosed`, and one attempt of `fenceChannelPersistent`: the instant is stored.
unfoldable pub mark_now : ℕ → Option ℕ → Change ℕ Bool
mark_now now current = change (set now) true

-- `isChannelBlocked`, of the closed marker and the fence.
unfoldable pub is_channel_blocked : Option ℕ → Option ℕ → Bool
is_channel_blocked closed fenced = is_some closed || is_some fenced

-- `incrSupersededAbort`
unfoldable pub incr_superseded_abort : Option ℕ → Change ℕ Bool
incr_superseded_abort current = change (set (or_else current 0 + 1)) true

pub record VoucherWriteoff : Type 0 where
  pub cumulative : ℕ
  pub reason : String
  pub at : ℕ

-- The aggregate of all write-offs.
pub record Recon : Type 0 where
  pub count : ℕ
  pub total : ℕ
  pub channels : Dict String ℕ

abbrev pub no_writeoffs : Recon
no_writeoffs = record { count = 0; total = 0; channels = [] }

-- The two transforms of `markVoucherWrittenOff`.
unfoldable pub write_off : ℕ → ℕ → String → Option VoucherWriteoff → Change VoucherWriteoff Bool
write_off now cumulative reason none =
    change (set (record { cumulative = cumulative; reason = reason; at = now })) true
write_off now cumulative reason (some old) = noop false

abbrev pub counted_off : String → ℕ → Recon → Recon
counted_off c cumulative r = record {
  count = r.count + 1;
  total = r.total + cumulative;
  channels = insert c cumulative r.channels;
}

unfoldable pub count_writeoff : String → ℕ → Option Recon → Change Recon Bool
count_writeoff c cumulative current =
    let r = or_else current no_writeoffs in
    if is_some (lookup c r.channels)
    then noop false
    else change (set (counted_off c cumulative r)) true

-- The cumulative watermark of the payment library: `settling` blocks a rollback.
pub record Cumulative : Type 0 where
  pub amount : String
  pub settling : Bool

-- The transform of `rollbackFailedChannelVoucher`.
unfoldable pub rollback : String → String → Option Cumulative → Change Cumulative Bool
rollback accepted previous none = noop false
rollback accepted previous (some current) =
    if not (str_eq current.amount accepted) || current.settling
    then noop false
    else (if str_eq previous "0"
        then change delete true
        else change (set (record { amount = previous; settling = false })) true)

abbrev pub amount_of : Option Cumulative → String
amount_of none = "0"
amount_of (some current) = current.amount

abbrev pub delivery_lock_ttl_ms : ℕ
delivery_lock_ttl_ms = 300000

-- A lock written before there was a time to live has no `expires_at`.
pub record Lock : Type 0 where
  pub id : String
  pub acquired_at : Option ℕ
  pub expires_at : Option ℕ

abbrev pub new_lock : ℕ → String → ℕ → Lock
new_lock now lock_id since = record {
  id = lock_id;
  acquired_at = some since;
  expires_at = some (now + delivery_lock_ttl_ms);
}

abbrev pub is_live : ℕ → Option ℕ → Bool
is_live now none = false
is_live now (some until) = ltb now until

unfoldable pub acquire_lock : ℕ → String → Option Lock → Change Lock Bool
acquire_lock now lock_id none = change (set (new_lock now lock_id now)) true
acquire_lock now lock_id (some current) =
    if is_live now current.expires_at
    then noop false
    else change (set (new_lock now lock_id now)) true

unfoldable pub revalidate_lock : ℕ → String → Option Lock → Change Lock Bool
revalidate_lock now lock_id none = noop false
revalidate_lock now lock_id (some current) =
    if str_eq current.id lock_id
    then change (set (new_lock now lock_id (or_else current.acquired_at now))) true
    else noop false

unfoldable pub release_lock : String → Option Lock → Change Lock Bool
release_lock lock_id none = noop false
release_lock lock_id (some current) =
    if str_eq current.id lock_id then change delete true else noop false
