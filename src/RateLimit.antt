-- ===== src/RateLimit.antt =====
-- src/mpp/rate-limit-do.ts: fixed-window counters before payment, kept in the atomic store by its
-- compare-and-set loop. A window is named by a string: the UTC day, or the number of a short window.
pub mod Counts
pub mod Clock
use rozo_mpprouter.Base.{
  ℕ, suc, ◌+◌, ◌-◌, ◌*◌, ◌/◌, ◌%◌, String, Bool, true, false, Option, none, some, List, ltb, leb,
  if◌then◌else◌,
}
use rozo_mpprouter.AtomicStore.{Store, value, set, CounterCodec, parse_gate_count, Request}
use rozo_mpprouter.AtomicStore.Client.{Change, noop, change, update}

-- `DailyLimitResult`
pub record LimitResult : Type 0 where
  pub ok : Bool
  pub used : ℕ
  pub limit : ℕ

abbrev pub max_cas_retries : ℕ
max_cas_retries = 25

-- `parseCounter` and the test of the window: an absent or foreign counter counts as zero.
abbrev pub used_in : {V : Type 0} → CounterCodec V → Option V → String → ℕ
used_in codec raw window = parse_gate_count codec raw window

-- `peekDailyLimit`
unfoldable pub peek_limit :
    {V : Type 0} → CounterCodec V → String → String → ℕ → Store V → LimitResult
peek_limit codec k window limit s =
    let used = used_in codec (value k s) window in
    record { ok = ltb used limit; used = used; limit = limit }

-- One attempt of `checkAndBumpDailyLimit` and `checkAndBumpWindowLimit`.
unfoldable pub bump_within :
    {V : Type 0} → CounterCodec V → String → ℕ → Option V → Change V LimitResult
bump_within codec window limit raw =
    let used = used_in codec raw window in
    if leb limit used
    then noop (record { ok = false; used = used; limit = limit })
    else change (set (codec.encode (used + 1) window))
        (record { ok = true; used = used + 1; limit = limit })

-- `checkAndBumpDailyLimit` and `checkAndBumpWindowLimit`, which differ in the window's name; `none`
-- is the exception when the attempts are exhausted.
unfoldable pub check_and_bump :
    {V : Type 0}
    → CounterCodec V
    → String
    → String
    → ℕ
    → List (List (Request V))
    → Store V
    → Option LimitResult × Store V
check_and_bump codec k window limit others s =
    update codec k (bump_within codec window limit) max_cas_retries others s

abbrev pub window_index : ℕ → ℕ → ℕ
window_index window_ms now = now / window_ms

-- `Math.max(1, Math.ceil(ms / 1000))`
abbrev pub whole_seconds : ℕ → ℕ
whole_seconds ms = let s = (ms + 999) / 1000 in if leb s 1 then 1 else s

abbrev pub day_ms : ℕ
day_ms = 86400000

-- The instant of the next UTC midnight, and the seconds until then.
unfoldable pub next_midnight : ℕ → ℕ
next_midnight now = (now / day_ms + 1) * day_ms

unfoldable pub seconds_until_utc_midnight : ℕ → ℕ
unfolding next_midnight
seconds_until_utc_midnight now = whole_seconds (next_midnight now - now)
