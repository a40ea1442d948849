-- ===== src/Resilience/Health/Tests.antt =====
-- The monitor on small inputs, and its theorem there.
use inc_trade.Prelude.{ℕ, ◌≡◌, refl, some, List, [], ◌∷◌, ltb, arith, ℕ_discrete, take}
use inc_trade.Prelude.Dict.{lookup}
use inc_trade.Historical.Merge.{sort_by, insert_by}
use inc_trade.Resilience.Health.{
  BrokerHealthMonitor, BrokerHealthStatus, unhealthy, median, is_healthy,
}
use inc_trade.Resilience.Health.Summary.{
  Call, succeeds, fails, resets, history, run, summary, state_of, if_called, failures_in_row,
}
use inc_trade.Resilience.Health.Kept.{run-summarises}

-- Broker 1 is reset once, and fails twice after a success; broker 2 only succeeds.
abbrev calls : List (Call ℕ)
calls =
    fails 1 1 0
    ∷ resets (some 1)
    ∷ succeeds 2 1 40
    ∷ succeeds 3 2 10
    ∷ fails 4 1 0
    ∷ fails 5 1 70
    ∷ []

abbrev monitor : BrokerHealthMonitor ℕ
monitor = record { failure_threshold = 2; window_size = 3; health = []; windows = [] }

abbrev status : BrokerHealthStatus
status = record {
  last_successful_call = some 2;
  consecutive_failures = 2;
  circuit_state = unhealthy;
  last_health_check = 5;
  error_rate = record { failures = 2; calls = 3 };
  latency_p50 = 110;
  total_calls = 3;
  total_failures = 2;
}

status_summary : summary 2 3 (history ℕ_discrete calls (λ k. []) 1) ≡ status
unfolding ℕ_discrete state_of median sort_by insert_by
status_summary = refl

run-summarises_example :
    let m = run ℕ_discrete calls monitor in
    let h = history ℕ_discrete calls (λ k. []) 1 in
    (lookup ℕ_discrete 1 m.health ≡ if_called (summary 2 3) h)
    × (lookup ℕ_discrete 1 m.windows ≡ if_called (take 3) h)
    × (is_healthy ℕ_discrete 1 m ≡ ltb (failures_in_row h) 2)
run-summarises_example = run-summarises ℕ_discrete 2 3 (omega arith) calls 1
