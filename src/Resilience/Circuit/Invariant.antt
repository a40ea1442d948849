-- ===== src/Resilience/Circuit/Invariant.antt =====
-- What holds of a circuit breaker between two calls, whatever the calls are.
use inc_trade.Prelude.{◌<◌, ◌≡◌, List, [], ◌∷◌, arith}
use inc_trade.Prelude.Int.{ℤ}
use inc_trade.Prelude.Result.{ok}
use inc_trade.Resilience.Circuit.{
  closed, half_open, CircuitBreakerConfig, CircuitBreaker, make_config, new, Call, step, run,
}

-- While requests pass, the failures stay below the threshold that trips the breaker; while it
-- probes, the successes stay below the threshold that closes it.
pub record IsValid (b : CircuitBreaker) : Type 0 where
  pub failures_positive : 0 < b.config.failure_threshold
  pub successes_positive : 0 < b.config.success_threshold
  pub closed_below : b.state ≡ closed → b.failure_count < b.config.failure_threshold
  pub probing_below : b.state ≡ half_open → b.success_count < b.config.success_threshold

pub new-IsValid :
    (failures successes duration : ℤ) {c : CircuitBreakerConfig}
    → make_config failures successes duration ≡ ok c
    → IsValid (new c)
unfolding make_config new
new-IsValid failures successes duration h = ground arith

pub step-IsValid : (c : Call) {b : CircuitBreaker} → IsValid b → IsValid (step c b)
unfolding step
step-IsValid (Call.allows now) v = ground arith
step-IsValid (Call.succeeds now) v = ground arith
step-IsValid (Call.fails now) v = ground arith
step-IsValid (Call.resets now) v = ground arith

run-IsValid_from : (cs : List Call) (b : CircuitBreaker) → IsValid b → IsValid (run cs b)
unfolding run
run-IsValid_from [] b v = v
run-IsValid_from (c ∷ cs) b v = run-IsValid_from cs (step c b) (step-IsValid c v)

-- From an accepted configuration, after any calls at any clock readings, the breaker is valid: a
-- closed one has seen fewer failures than the failure threshold, and a half-open one fewer
-- successes than the success threshold.
pub run-IsValid :
    (failures successes duration : ℤ) {c : CircuitBreakerConfig} (cs : List Call)
    → make_config failures successes duration ≡ ok c
    → IsValid (run cs (new c))
run-IsValid failures successes duration {c} cs h =
    run-IsValid_from cs (new c) (new-IsValid failures successes duration h)
