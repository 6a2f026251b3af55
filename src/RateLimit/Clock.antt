-- ===== src/RateLimit/Clock.antt =====
-- The waits that src/mpp/rate-limit-do.ts announces.
use rozo_mpprouter.Base.{ℕ, ◌+◌, ◌*◌, ◌≤◌, ◌<◌, arith}
use rozo_mpprouter.RateLimit.{next_midnight, seconds_until_utc_midnight}

-- The announced wait is between one second and a day; after it the next UTC midnight has passed, by
-- less than a second.
pub seconds_until_utc_midnight-wait :
    (now : ℕ)
    → (1 ≤ seconds_until_utc_midnight now)
      × (seconds_until_utc_midnight now ≤ 86400)
      × (next_midnight now ≤ now + 1000 * seconds_until_utc_midnight now)
      × (now + 1000 * seconds_until_utc_midnight now < next_midnight now + 1000)
unfolding seconds_until_utc_midnight next_midnight
seconds_until_utc_midnight-wait now = ground arith
