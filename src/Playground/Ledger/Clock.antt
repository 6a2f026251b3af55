-- ===== src/Playground/Ledger/Clock.antt =====
-- The wait that src/playground/ledger-do.ts announces with `rate_limited`.
use rozo_mpprouter.Base.{ℕ, ◌+◌, ◌*◌, ◌≤◌, ◌<◌, arith}
use rozo_mpprouter.Playground.Ledger.Types.{utc_hour_key, seconds_until_next_hour}

-- The announced wait is between one second and an hour; after it the next hour's window has begun,
-- less than a second ago.
pub seconds_until_next_hour-wait :
    (now : ℕ)
    → (1 ≤ seconds_until_next_hour now)
      × (seconds_until_next_hour now ≤ 3600)
      × ((utc_hour_key now + 1) * 3600000 ≤ now + 1000 * seconds_until_next_hour now)
      × (now + 1000 * seconds_until_next_hour now < (utc_hour_key now + 1) * 3600000 + 1000)
unfolding seconds_until_next_hour
seconds_until_next_hour-wait now = ground arith
