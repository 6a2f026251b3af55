-- ===== src/Tests/Channels.antt =====
-- Runs of the playground channels: vouchers, locks, write-offs and the settlement.
use rozo_mpprouter.Base.{
  Option, ℕ, ◌*◌, String, ◌≡◌, refl, true, false, none, some, List, [], ◌∷◌, arith, All,
}
use rozo_mpprouter.Base.Dict.{lookup, insert}
use rozo_mpprouter.Channel.{
  LatestVoucher, Voucher, Lock, mark_voucher_settled, mark_now, acquire_lock, revalidate_lock,
  release_lock, count_writeoff,
}
use rozo_mpprouter.Channel.Locks.{
  LockOp, acquires, revalidates, releases, lock_change, lock_ops, lock_ops-foreign,
}
use rozo_mpprouter.Channel.Vouchers.{VoucherOp, puts, settles, voucher_steps, Grown, put_kept}
use rozo_mpprouter.Channel.Writeoffs.{count_writeoffs, IsTallied, count_writeoffs-IsTallied}
use rozo_mpprouter.Channel.Settle.{
  Channel, landed, settled, replied, Submission, Outside, fence, settle_voucher, mark_closed,
  settle_one_channel,
}
use rozo_mpprouter.Channel.Settle.Outcome.{Justified, locked, settle_one_channel-Justified}

abbrev cents : ℕ → Voucher
cents n = record { amount_decimal = "0.01"; cumulative = n * 100000; signature = "sig" }

abbrev calls : List VoucherOp
calls = settles 2 200000 ∷ puts 3 (cents 2) ∷ puts 4 (cents 4) ∷ settles 5 100000 ∷ []

put_kept_example :
    Grown (λ v. v.signature ≡ "sig") 300000 0 (voucher_steps (puts 1 (cents 3) ∷ calls) none)
put_kept_example =
    put_kept (λ v. v.signature ≡ "sig") 1 (cents 3) none calls (refl, (refl, (refl, tt))) tt

abbrev lock : Lock
lock = record { id = "call"; acquired_at = some 5; expires_at = some 300005 }

abbrev strangers : List LockOp
strangers = acquires 300004 "cron" ∷ revalidates 9 "cron" ∷ releases "cron" ∷ []

lock_ops-foreign_example :
    (All (λ r. r ≡ false) (lock_ops strangers (some lock)).0)
    × ((lock_ops strangers (some lock)).1 ≡ some lock)
lock_ops-foreign_example =
    lock_ops-foreign strangers "call" 300005 (some 5) ((refl, omega arith), (refl, (refl, tt)))

-- Once expired the lock is taken over.
take_over :
    (lock_ops (acquires 300005 "cron" ∷ revalidates 300006 "call" ∷ []) (some lock)).0
    ≡ true ∷ false ∷ []
unfolding lock_ops lock_change acquire_lock revalidate_lock
take_over = refl

abbrev losses : List (String × ℕ)
losses = ("c1", 5) ∷ ("c2", 7) ∷ ("c1", 9) ∷ []

count_losses :
    count_writeoffs losses none
    ≡ some (record { count = 2; total = 12; channels = ("c1", 5) ∷ ("c2", 7) ∷ [] })
unfolding count_writeoffs count_writeoff lookup insert
count_losses = refl

count_writeoffs-IsTallied_example : IsTallied (count_writeoffs losses none)
count_writeoffs-IsTallied_example = count_writeoffs-IsTallied losses

abbrev row : LatestVoucher
row = record {
  amount_decimal = "0.30";
  cumulative = 3000000;
  signature = "sig";
  last_settled = 1000000;
  updated_at = 1;
}

abbrev open_channel : Channel
open_channel = record {
  voucher = some row;
  closed = none;
  fenced = none;
  lock = none;
  writeoff = none;
  recon = none;
}

-- The close started; the first attempt of a fence fails.
abbrev outside : Outside ℕ
outside = record {
  lock_id = "cron";
  acquired_at = 10;
  revalidated_at = 20;
  closed_at = 30;
  contract = "c1";
  chain = some (record { close_effective_at = some 77; balance = some 9000000 });
  meanwhile = λ ch. ch;
  before_close = λ ch. record ch { recon = none };
  marking = replied;
  writing_off = replied;
  tallying = replied;
  settling = replied;
  first_fence = false ∷ true ∷ [];
  second_fence = true ∷ [];
  decode = λ s. some 64;
  close = λ n sig. landed "hash";
}

abbrev submitted_amount : Option (Submission ℕ) → Option ℕ
submitted_amount none = none
submitted_amount (some c) = some c.amount

settle_closes :
    let run = settle_one_channel outside open_channel in
    (run.0 ≡ settled "hash") × (submitted_amount run.1 ≡ some 3000000) × (run.2.lock ≡ none)
unfolding settle_one_channel acquire_lock revalidate_lock release_lock fence mark_now mark_closed
    settle_voucher mark_voucher_settled
settle_closes = (refl, refl, refl)

settle_one_channel-Justified_example :
    Justified outside open_channel.voucher
      (locked outside open_channel).lock
      (settle_one_channel outside open_channel)
settle_one_channel-Justified_example = settle_one_channel-Justified outside (λ ch h. h) open_channel
