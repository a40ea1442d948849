-- ===== src/Resilience/Circuit.antt =====
-- brokers/common/resilience/circuit_breaker.py. Each method holds the lock from its first read to
-- its last write, so it is one step of the state; the reading of the monotonic clock that it makes
-- is its argument `now`, in nanoseconds.
pub mod Invariant
pub mod Phases
pub mod Trips
mod Tests
use inc_trade.Prelude.{ℕ, ◌+◌, ◌*◌, Bool, true, false, ◌&&◌, not, List, [], ◌∷◌, leb, if◌then◌else◌}
use inc_trade.Prelude.Int.{ℤ, pos, pos_part, leb_ℤ}
use inc_trade.Prelude.Result.{Result, ok, err}

-- The source's OPEN is `opened`: `open` is a reserved word here.
pub data CircuitState : Type 0 where
  closed opened half_open : CircuitState

abbrev pub state_eq : CircuitState → CircuitState → Bool
state_eq closed closed = true
state_eq opened opened = true
state_eq half_open half_open = true
state_eq _ _ = false

pub record CircuitBreakerConfig : Type 0 where
  pub failure_threshold : ℕ
  pub success_threshold : ℕ
  pub open_duration_ms : ℕ

-- The `ValueError`s of `__post_init__`, by the field that is refused.
pub data ConfigError : Type 0 where
  bad_failure_threshold bad_success_threshold bad_open_duration : ConfigError

-- `CircuitBreakerConfig(...)` with its `__post_init__`.
unfoldable pub make_config : ℤ → ℤ → ℤ → Result ConfigError CircuitBreakerConfig
make_config failures successes duration =
    if leb_ℤ failures (pos 0)
    then err bad_failure_threshold
    else if leb_ℤ successes (pos 0)
    then err bad_success_threshold
    else if leb_ℤ duration (pos 0)
    then err bad_open_duration
    else ok (record {
      failure_threshold = pos_part failures;
      success_threshold = pos_part successes;
      open_duration_ms = pos_part duration;
    })

pub record CircuitBreaker : Type 0 where
  pub config : CircuitBreakerConfig
  pub state : CircuitState
  pub failure_count : ℕ
  pub success_count : ℕ
  pub opened_at_ns : ℕ
  pub state_change_count : ℕ
  pub total_calls : ℕ

-- `CircuitBreaker.__init__`
unfoldable pub new : CircuitBreakerConfig → CircuitBreaker
new config = record {
  config = config;
  state = closed;
  failure_count = 0;
  success_count = 0;
  opened_at_ns = 0;
  state_change_count = 0;
  total_calls = 0;
}

-- What `_transition_to` writes once it knows that the state changes.
abbrev enter : ℕ → CircuitState → CircuitBreaker → CircuitBreaker
enter now opened b = record b {
  state = opened;
  state_change_count = b.state_change_count + 1;
  opened_at_ns = now;
}
enter now half_open b = record b {
  state = half_open;
  state_change_count = b.state_change_count + 1;
  success_count = 0;
}
enter now closed b = record b {
  state = closed;
  state_change_count = b.state_change_count + 1;
  failure_count = 0;
  success_count = 0;
}

transition_to : ℕ → CircuitState → CircuitBreaker → CircuitBreaker
transition_to now new_state b = if state_eq b.state new_state then b else enter now new_state b

-- `now - opened_at >= duration` over the integers, with the subtraction moved over.
abbrev pub has_expired : ℕ → CircuitBreaker → Bool
has_expired now b = leb (b.opened_at_ns + b.config.open_duration_ms * 1_000_000) now

-- The property `state`: the breaker after the read, whose field `state` is what is returned.
unfoldable pub read_state : ℕ → CircuitBreaker → CircuitBreaker
unfolding transition_to
read_state now b =
    if state_eq b.state opened && has_expired now b then transition_to now half_open b else b

unfoldable pub allow_request : ℕ → CircuitBreaker → CircuitBreaker × Bool
unfolding read_state
allow_request now b = let after = read_state now b in (after, not (state_eq after.state opened))

on_success_in : CircuitState → ℕ → CircuitBreaker → CircuitBreaker
unfolding transition_to
on_success_in half_open now b =
    let counted = record b { success_count = b.success_count + 1 } in
    if leb counted.config.success_threshold counted.success_count
    then transition_to now closed counted
    else counted
on_success_in closed now b = record b { success_count = b.success_count + 1; failure_count = 0 }
on_success_in opened now b = b

unfoldable pub on_success : ℕ → CircuitBreaker → CircuitBreaker
unfolding on_success_in
on_success now b = on_success_in b.state now (record b { total_calls = b.total_calls + 1 })

unfoldable pub on_failure : ℕ → CircuitBreaker → CircuitBreaker
unfolding transition_to
on_failure now b =
    let counted = record b {
      total_calls = b.total_calls + 1;
      failure_count = b.failure_count + 1;
    } in
    if state_eq counted.state half_open
    then transition_to now opened counted
    else if state_eq counted.state closed
        && leb counted.config.failure_threshold counted.failure_count
    then transition_to now opened counted
    else counted

unfoldable pub reset : ℕ → CircuitBreaker → CircuitBreaker
unfolding transition_to
reset now b = record (transition_to now closed b) {
  failure_count = 0;
  success_count = 0;
  total_calls = 0;
}

-- A call of one of the methods that change the state, with its reading of the clock.
pub data Call : Type 0 where
  allows succeeds fails resets : ℕ → Call

abbrev pub clock : Call → ℕ
clock (allows now) = now
clock (succeeds now) = now
clock (fails now) = now
clock (resets now) = now

pub step : Call → CircuitBreaker → CircuitBreaker
unfolding allow_request on_success on_failure reset
step (allows now) b = (allow_request now b).0
step (succeeds now) b = on_success now b
step (fails now) b = on_failure now b
step (resets now) b = reset now b

unfoldable pub run : List Call → CircuitBreaker → CircuitBreaker
run [] b = b
run (c ∷ cs) b = run cs (step c b)
