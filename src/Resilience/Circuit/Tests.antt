-- ===== src/Resilience/Circuit/Tests.antt =====
-- Runs of the circuit breaker on concrete calls, and the theorems at concrete inputs.
use inc_trade.Prelude.{◌≡◌, refl, false, [], ◌∷◌, arith}
use inc_trade.Prelude.Int.{pos, negsuc}
use inc_trade.Prelude.Result.{ok, err}
use inc_trade.Resilience.Circuit.{
  CircuitBreakerConfig, CircuitBreaker, opened, half_open, closed, bad_success_threshold, Call,
  make_config, new, step, run, allow_request,
}
use inc_trade.Resilience.Circuit.Invariant.{IsValid, run-IsValid}
use inc_trade.Resilience.Circuit.Phases.{Phase, phase, phase-run}
use inc_trade.Resilience.Circuit.Trips.{allow_request_within}

abbrev config : CircuitBreakerConfig
config = record { failure_threshold = 3; success_threshold = 2; open_duration_ms = 1 }

abbrev fresh : CircuitBreaker
fresh = record {
  config = config;
  state = closed;
  failure_count = 0;
  success_count = 0;
  opened_at_ns = 0;
  state_change_count = 0;
  total_calls = 0;
}

abbrev tripped : CircuitBreaker
tripped = record fresh {
  state = opened;
  failure_count = 3;
  opened_at_ns = 30;
  state_change_count = 1;
  total_calls = 3;
}

abbrev probing : CircuitBreaker
probing = record tripped { state = half_open; state_change_count = 2 }

make_config_test :
    (make_config (pos 3) (pos 2) (pos 1) ≡ ok config)
    × (make_config (pos 3) (negsuc 0) (pos 0) ≡ err bad_success_threshold)
unfolding make_config
make_config_test = (refl, refl)

run_test :
    (run (Call.fails 10 ∷ Call.fails 20 ∷ Call.fails 30 ∷ []) (new config) ≡ tripped)
    × (run (Call.allows 1_000_029 ∷ []) tripped ≡ tripped)
    × (run (Call.allows 1_000_030 ∷ []) tripped ≡ probing)
    × ((run (Call.succeeds 5 ∷ Call.succeeds 6 ∷ []) probing).state ≡ closed)
    × ((run (Call.succeeds 5 ∷ Call.fails 6 ∷ []) probing).state ≡ opened)
unfolding run step new
run_test = (refl, refl, refl, refl, refl)

run-IsValid_example : IsValid (run (Call.fails 10 ∷ Call.fails 20 ∷ []) (new config))
run-IsValid_example =
    run-IsValid (pos 3) (pos 2) (pos 1) (Call.fails 10 ∷ Call.fails 20 ∷ []) make_config_test.0

phase-run_example : phase (run (Call.fails 10 ∷ []) (new config)) ≡ Phase.passing 1
phase-run_example = phase-run config (Call.fails 10 ∷ [])

allow_request_within_example :
    (allow_request 1_000_000 (run (Call.fails 40 ∷ Call.allows 50 ∷ []) tripped)).1 ≡ false
allow_request_within_example =
    allow_request_within (Call.fails 40 ∷ Call.allows 50 ∷ []) tripped 1_000_000 refl (omega arith)
      (omega arith)
