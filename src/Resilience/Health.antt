-- ===== src/Resilience/Health.antt =====
-- `BrokerHealthMonitor` of brokers/common/resilience/broker_health_monitor.py. Each method is one step
-- under the lock; the reading of the clock is an argument. A latency that is not positive counts for
-- nothing, so it is zero here. The deque of a window is a list from its right end.
pub mod Summary
pub mod Kept
mod Tests
use inc_trade.Prelude.{
  ℕ, zero, suc, ◌+◌, ◌-◌, ◌*◌, ◌/◌, ◌%◌, Bool, true, false, Option, none, some, List, [], ◌∷◌, leb,
  ◌==◌, if◌then◌else◌, length, take, filter, map, ltb, not,
}
use inc_trade.Prelude.Int.{ℤ, pos, pos_part, leb_ℤ}
use inc_trade.Prelude.Dict.{Dict, keys, lookup, insert, erase}
use inc_trade.Prelude.Result.{Result, ok, err}
use inc_trade.Historical.Merge.{sort_by}

pub data HealthState : Type 0 where
  healthy unhealthy : HealthState

-- `failures / n`
pub record ErrorRate : Type 0 where
  pub failures : ℕ
  pub calls : ℕ

-- The median is in half milliseconds.
pub record BrokerHealthStatus : Type 0 where
  pub last_successful_call : Option ℕ
  pub consecutive_failures : ℕ
  pub circuit_state : HealthState
  pub last_health_check : ℕ
  pub error_rate : ErrorRate
  pub latency_p50 : ℕ
  pub total_calls : ℕ
  pub total_failures : ℕ

pub record OutcomeRecord : Type 0 where
  pub success : Bool
  pub latency_ms : ℕ
  pub timestamp : ℕ

pub record BrokerHealthMonitor (K : Type 0) : Type 0 where
  pub failure_threshold : ℕ
  pub window_size : ℕ
  pub health : Dict K BrokerHealthStatus
  pub windows : Dict K (List OutcomeRecord)

-- The `ValueError` of `__init__`.
pub data MonitorError : Type 0 where
  bad_threshold : MonitorError

unfoldable pub new_monitor : {K : Type 0} → ℤ → ℕ → Result MonitorError (BrokerHealthMonitor K)
new_monitor failure_threshold window_size =
    if leb_ℤ failure_threshold (pos 0)
    then err bad_threshold
    else ok (record {
      failure_threshold = pos_part failure_threshold;
      window_size = window_size;
      health = [];
      windows = [];
    })

abbrev pub no_rate : ErrorRate
no_rate = record { failures = 0; calls = 1 }

-- `BrokerHealthStatus()`
abbrev pub new_status : BrokerHealthStatus
new_status = record {
  last_successful_call = none;
  consecutive_failures = 0;
  circuit_state = healthy;
  last_health_check = 0;
  error_rate = no_rate;
  latency_p50 = 0;
  total_calls = 0;
  total_failures = 0;
}

abbrev pub failures_of : List OutcomeRecord → ℕ
failures_of rs = length (filter (λ r. not r.success) rs)

-- The item at an index that there is.
abbrev pub item : ℕ → List ℕ → ℕ
item n [] = 0
item zero (x ∷ xs) = x
item (suc n) (x ∷ xs) = item n xs

abbrev pub latencies : List OutcomeRecord → List ℕ
latencies rs = sort_by (λ x. x) (filter (λ x. ltb 0 x) (map (λ r. r.latency_ms) rs))

-- Twice the median of sorted numbers.
unfoldable pub median : List ℕ → ℕ
median [] = 0
median (x ∷ xs) =
    let n = length (x ∷ xs) in
    let mid = n / 2 in
    if n % 2 == 0 then item (mid - 1) (x ∷ xs) + item mid (x ∷ xs) else 2 * item mid (x ∷ xs)

unfoldable pub recompute_stats : List OutcomeRecord → BrokerHealthStatus → BrokerHealthStatus
unfolding median
recompute_stats [] s = s
recompute_stats (r ∷ rs) s = record s {
  error_rate = record { failures = failures_of (r ∷ rs); calls = length (r ∷ rs) };
  latency_p50 = median (latencies (r ∷ rs));
}

module _ {K : Type 0} (dec : Discrete K) where
  abbrev pub ensure : K → BrokerHealthMonitor K → BrokerHealthStatus
  ensure broker m = elim (lookup dec broker m.health) [ none ↦ new_status | some s ↦ s ]

  abbrev pub ensure_window : K → BrokerHealthMonitor K → List OutcomeRecord
  ensure_window broker m = elim (lookup dec broker m.windows) [ none ↦ [] | some w ↦ w ]

  -- The outcome goes into the window, and the oldest one out of a full one.
  unfoldable pub record_outcome :
      K → OutcomeRecord → BrokerHealthStatus → BrokerHealthMonitor K → BrokerHealthMonitor K
  unfolding recompute_stats
  record_outcome broker r status m =
      let window = take m.window_size (r ∷ ensure_window broker m) in
      record m {
        health = insert dec broker (recompute_stats window status) m.health;
        windows = insert dec broker window m.windows;
      }

  unfoldable pub record_success : ℕ → K → ℕ → BrokerHealthMonitor K → BrokerHealthMonitor K
  unfolding record_outcome
  record_success now broker latency m =
      let s = ensure broker m in
      record_outcome broker (record { success = true; latency_ms = latency; timestamp = now })
        (record s {
          last_successful_call = some now;
          consecutive_failures = 0;
          circuit_state = healthy;
          last_health_check = now;
          total_calls = s.total_calls + 1;
        })
        m

  unfoldable pub record_failure : ℕ → K → ℕ → BrokerHealthMonitor K → BrokerHealthMonitor K
  unfolding record_outcome
  record_failure now broker latency m =
      let s = ensure broker m in
      record_outcome broker (record { success = false; latency_ms = latency; timestamp = now })
        (record s {
          consecutive_failures = s.consecutive_failures + 1;
          last_health_check = now;
          total_calls = s.total_calls + 1;
          total_failures = s.total_failures + 1;
          circuit_state =
              if leb m.failure_threshold (s.consecutive_failures + 1)
              then unhealthy
              else s.circuit_state;
        })
        m

  abbrev pub is_state_healthy : HealthState → Bool
  is_state_healthy healthy = true
  is_state_healthy unhealthy = false

  unfoldable pub is_healthy : K → BrokerHealthMonitor K → Bool
  is_healthy broker m = elim (lookup dec broker m.health) [
    | none ↦ true
    | some s ↦ is_state_healthy s.circuit_state
  ]

  unfoldable pub any_of : List K → BrokerHealthMonitor K → Bool
  unfolding is_healthy
  any_of [] m = false
  any_of (b ∷ bs) m = if is_healthy b m then true else any_of bs m

  unfoldable pub any_healthy : Option (List K) → BrokerHealthMonitor K → Bool
  unfolding any_of
  any_healthy none m = any_of (keys m.health) m
  any_healthy (some brokers) m = any_of brokers m

  unfoldable pub reset : Option K → BrokerHealthMonitor K → BrokerHealthMonitor K
  reset none m = record m { health = []; windows = [] }
  reset (some broker) m = record m {
    health = erase dec broker m.health;
    windows = erase dec broker m.windows;
  }
