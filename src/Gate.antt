-- ===== src/Gate.antt =====
-- src/routes/create-invoice-gate.ts: the hourly limits of a public route, over the `/gate` request of
-- the atomic store. The keys of the two counters, which are built from a prefix, the address and the
-- hour, are arguments; so is the outcome of the request.
pub mod Admits
use rozo_mpprouter.Base.{
  ℕ, suc, ◌+◌, ◌-◌, ◌%◌, String, Bool, true, false, Option, none, some, ltb, ◌==◌, ◌&&◌,
  if◌then◌else◌,
}
use rozo_mpprouter.AtomicStore.{Store, CounterCodec, gate}
use rozo_mpprouter.RateLimit.{whole_seconds}

pub record GateLimits : Type 0 where
  pub ip_per_hour : ℕ
  pub global_per_hour : ℕ

-- A rejection has its limit and the seconds to wait.
pub data GateDecision : Type 0 where
  allowed : GateDecision
  ip_rate_limited : ℕ → ℕ → GateDecision
  global_circuit_open : ℕ → ℕ → GateDecision

abbrev pub window_ms : ℕ
window_ms = 3600000

unfoldable pub seconds_until_window_reset : ℕ → ℕ
seconds_until_window_reset now = whole_seconds (window_ms - now % window_ms)

-- `checkCreateInvoiceGate` on the store's answer. No answer, and one without the second counter, is
-- an exception, which lets the request pass.
unfoldable pub gate_decision : GateLimits → ℕ → Option (ℕ × Option ℕ) → GateDecision
gate_decision limits now none = allowed
gate_decision limits now (some (global_count, none)) =
    if ltb limits.global_per_hour global_count
    then global_circuit_open limits.global_per_hour (seconds_until_window_reset now)
    else allowed
gate_decision limits now (some (global_count, some ip_count)) =
    if ltb limits.global_per_hour global_count
    then global_circuit_open limits.global_per_hour (seconds_until_window_reset now)
    else (if ltb limits.ip_per_hour ip_count
        then ip_rate_limited limits.ip_per_hour (seconds_until_window_reset now)
        else allowed)

-- The breaker's alert is sent at the crossing only.
unfoldable pub sends_alert : GateLimits → ℕ → Bool
sends_alert limits global_count = global_count == limits.global_per_hour + 1

-- How the request to the store ends: with its answer, or in an exception, before the store has served
-- it or after; a malformed answer counts as the last.
pub data Delivery : Type 0 where
  answered unreached unanswered : Delivery

-- The whole call; an exception lets the request pass, counted or not.
unfoldable pub check_gate :
    {V : Type 0}
    → CounterCodec V
    → String
    → String
    → String
    → GateLimits
    → ℕ
    → Delivery
    → Store V
    → GateDecision × Store V
check_gate codec global_key ip_key bucket limits now delivery s =
    let (reply, t) = gate codec global_key ip_key bucket limits.global_per_hour s in
    elim delivery [
      | answered ↦ (gate_decision limits now (some reply), t)
      | unreached ↦ (gate_decision limits now none, s)
      | unanswered ↦ (gate_decision limits now none, t)
    ]
