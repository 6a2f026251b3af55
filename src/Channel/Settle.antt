-- ===== src/Channel/Settle.antt =====
-- src/playground/channel-settle.ts: one channel's settlement, `settleOneChannel`. The chain's reply,
-- the answer to the close, the decoding of a signature, what other callers do while the chain is read
-- and before the close, and which calls to the store throw from the markers on, are arguments.
pub mod Outcome
use rozo_mpprouter.Base.{
  ℕ, zero, suc, ◌-◌, String, Bool, true, false, not, ◌&&◌, Option, none, some, List, [], ◌∷◌, ltb,
  leb, is_some, if◌then◌else◌,
}
use rozo_mpprouter.AtomicStore.Client.{Change}
use rozo_mpprouter.Channel.{
  LatestVoucher, VoucherWriteoff, Recon, Lock, mark_voucher_settled, mark_now, write_off,
  count_writeoff, acquire_lock, revalidate_lock, release_lock,
}
use rozo_mpprouter.Channel.Changes.{result, stored}

-- The keys of one channel, and the aggregate of the write-offs of all.
pub record Channel : Type 0 where
  pub voucher : Option LatestVoucher
  pub closed : Option ℕ
  pub fenced : Option ℕ
  pub lock : Option Lock
  pub writeoff : Option VoucherWriteoff
  pub recon : Option Recon

-- `SETTLE_THRESHOLD_RAW`: 0.2 USDC.
abbrev pub settle_threshold : ℕ
settle_threshold = 2000000

-- What `getChannelState` replies.
pub record ChainState : Type 0 where
  pub close_effective_at : Option ℕ
  pub balance : Option ℕ

-- How the submitted close ends: its hash, "balance is not sufficient", or another exception.
pub data CloseAnswer : Type 0 where
  landed : String → CloseAnswer
  insufficient : CloseAnswer
  failed : CloseAnswer

-- `settled` is a returned hash, `nothing` a returned null, `throws` an exception.
pub data Settled : Type 0 where
  settled : String → Settled
  nothing : Settled
  throws : Settled

-- How a call to the store that may throw ends: it returns, or throws without its write or behind it.
pub data StoreCall : Type 0 where
  replied not_made no_reply : StoreCall

abbrev pub call_store : StoreCall → (Channel → Channel) → Channel → Bool × Channel
call_store replied write ch = (true, write ch)
call_store not_made write ch = (false, ch)
call_store no_reply write ch = (false, write ch)

abbrev pub then_write : (Channel → Bool × Channel) → Bool × Channel → Bool × Channel
then_write next (true, ch) = next ch
then_write next (false, ch) = (false, ch)

-- A close submitted to the chain, and the channel's keys as they stand when it is.
pub record Submission (Sig : Type 0) : Type 0 where
  pub amount : ℕ
  pub sig : Sig
  pub seen : Channel

-- The answer, the close that was submitted, and the state.
abbrev pub Run : Type 0 → Type 0
Run Sig = Settled × Option (Submission Sig) × Channel

abbrev pub ended : {Sig : Type 0} → Settled → Option (Submission Sig) → Bool × Channel → Run Sig
ended r close (true, ch) = (r, close, ch)
ended r close (false, ch) = (throws, close, ch)

-- What the run depends on: instants of its steps, and the outside.
pub record Outside (Sig : Type 0) : Type 0 where
  pub lock_id : String
  pub acquired_at : ℕ
  pub revalidated_at : ℕ
  pub closed_at : ℕ
  pub contract : String
  -- `none` when the read throws.
  pub chain : Option ChainState
  -- What others do to the channel while the chain is read.
  pub meanwhile : Channel → Channel
  -- What others do between the markers and the close.
  pub before_close : Channel → Channel
  -- How `markChannelClosed`, the two writes of `markVoucherWrittenOff` and `markVoucherSettled` end.
  pub marking : StoreCall
  pub writing_off : StoreCall
  pub tallying : StoreCall
  pub settling : StoreCall
  -- Whether each of the three attempts of the two fences is written.
  pub first_fence : List Bool
  pub second_fence : List Bool
  -- `none` when the signature is not 64 bytes.
  pub decode : String → Option Sig
  pub close : ℕ → Sig → CloseAnswer

abbrev pub fence_attempts : ℕ
fence_attempts = 3

-- The loop of `fenceChannelPersistent`: the attempts left, until one is written.
unfoldable pub fence : ℕ → ℕ → List Bool → Channel → Channel
fence zero now written ch = ch
fence (suc n) now [] ch = ch
fence (suc n) now (ok ∷ rest) ch =
    let later = fence n now rest ch in
    if ok then record ch { fenced = stored (mark_now now ch.fenced) ch.fenced } else later

unfoldable pub settle_voucher : ℕ → ℕ → Channel → Channel
settle_voucher now amount ch = record ch {
  voucher = stored (mark_voucher_settled now amount ch.voucher) ch.voucher;
}

unfoldable pub record_writeoff : ℕ → ℕ → Channel → Channel
record_writeoff now amount ch = record ch {
  writeoff =
      stored (write_off now amount "funder refunded before collection" ch.writeoff) ch.writeoff;
}

unfoldable pub tally_writeoff : String → ℕ → Channel → Channel
tally_writeoff contract amount ch = record ch {
  recon = stored (count_writeoff contract amount ch.recon) ch.recon;
}

unfoldable pub mark_closed : ℕ → Channel → Channel
mark_closed now ch = record ch { closed = stored (mark_now now ch.closed) ch.closed }

-- `channelBalanceIsZero`
abbrev pub balance_is_zero : Option ℕ → Bool
balance_is_zero none = false
balance_is_zero (some balance) = leb balance 0

module _ {Sig : Type 0} (out : Outside Sig) where
  abbrev pub write_off_refunded : ℕ → Channel → Bool × Channel
  write_off_refunded amount ch =
      then_write (call_store out.settling (settle_voucher out.closed_at amount)) (
        then_write (call_store out.tallying (tally_writeoff out.contract amount))
          (call_store out.writing_off (record_writeoff out.closed_at amount) ch))

  -- From the decoded signature to the end.
  abbrev pub submit : LatestVoucher → Sig → Channel → Run Sig
  submit row sig ch =
      let c : Submission Sig = record { amount = row.cumulative; sig = sig; seen = ch } in
      elim (out.close row.cumulative sig) [
        | landed tx ↦
            ended (settled tx) (some c)
              (call_store out.settling (settle_voucher out.closed_at row.cumulative) ch)
        | insufficient ↦ ended nothing (some c) (write_off_refunded row.cumulative ch)
        | failed ↦ (throws, some c, ch)
      ]

  -- The step after the markers are set.
  abbrev pub collect : LatestVoucher → ChainState → Channel → Run Sig
  collect row chain ch =
      if is_some chain.close_effective_at && balance_is_zero chain.balance
      then ended nothing none (write_off_refunded row.cumulative ch)
      else elim (out.decode row.signature) [
        | none ↦ (throws, none, ch)
        | some sig ↦ submit row sig (out.before_close ch)
      ]

  abbrev pub revalidated : Channel → Bool × Channel
  revalidated ch =
      let c = revalidate_lock out.revalidated_at out.lock_id ch.lock in
      (result c, record ch { lock = stored c ch.lock })

  -- Nothing is due, or it is too little to settle before a close.
  abbrev pub is_not_due : LatestVoucher → ChainState → Bool
  is_not_due row chain =
      if leb row.cumulative row.last_settled
      then true
      else not (is_some chain.close_effective_at)
        && ltb (row.cumulative - row.last_settled) settle_threshold

  abbrev pub after_mark : LatestVoucher → ChainState → Bool × Channel → Run Sig
  after_mark row chain (true, ch) =
      collect row chain (fence fence_attempts out.closed_at out.second_fence ch)
  after_mark row chain (false, ch) = (throws, none, ch)

  abbrev pub close_channel : LatestVoucher → ChainState → Channel → Run Sig
  close_channel row chain ch =
      let (ours, held) = revalidated ch in
      if ours
      then after_mark row chain (call_store out.marking (mark_closed out.closed_at) held)
      else (nothing, none, held)

  -- A close that has started fences the channel at once.
  abbrev pub observe : ChainState → Channel → Channel
  observe chain ch =
      if is_some chain.close_effective_at
      then fence fence_attempts out.acquired_at out.first_fence ch
      else ch

  abbrev pub settle_due : LatestVoucher → ChainState → Channel → Run Sig
  settle_due row chain ch =
      if is_not_due row chain
      then (nothing, none, observe chain ch)
      else close_channel row chain (observe chain ch)

  -- The body of the `try`, on the voucher read under the lock and the chain's reply.
  abbrev pub settle_locked : Option LatestVoucher → Option ChainState → Channel → Run Sig
  settle_locked none chain ch = (nothing, none, ch)
  settle_locked (some row) none ch = (throws, none, out.meanwhile ch)
  settle_locked (some row) (some chain) ch = settle_due row chain (out.meanwhile ch)

  abbrev pub release : Run Sig → Run Sig
  release (r, close, ch) =
      (r, close, record ch { lock = stored (release_lock out.lock_id ch.lock) ch.lock })

  unfoldable pub settle_one_channel : Channel → Run Sig
  settle_one_channel ch =
      let c = acquire_lock out.acquired_at out.lock_id ch.lock in
      let locked = record ch { lock = stored c ch.lock } in
      if result c
      then release (settle_locked locked.voucher out.chain locked)
      else (nothing, none, ch)
