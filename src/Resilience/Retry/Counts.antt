-- ===== src/Resilience/Retry/Counts.antt =====
-- The circuit breaker counts each call of the given function once.
use inc_trade.Prelude.{ℕ, zero, suc, ◌+◌, ◌≡◌, ◌≢◌, inl, inr, Option, none, some, arith}
use inc_trade.Prelude.Result.{err}
use inc_trade.Resilience.Circuit.{CircuitBreaker, allow_request, on_success, on_failure}
use inc_trade.Resilience.Retry.{
  Exception, circuit_breaker_open, RetryConfig, Attempt, World, attempt_once, execute_from, execute,
}
use inc_trade.Resilience.Retry.Attempts.{calls, Verdict-cases}

total-allow_request :
    (now : ℕ) (b : CircuitBreaker) → (allow_request now b).0.total_calls ≡ b.total_calls
unfolding allow_request
total-allow_request now b = ground arith

total-on_success :
    (now : ℕ) (b : CircuitBreaker) → (on_success now b).total_calls ≡ suc b.total_calls
unfolding on_success
total-on_success now b = ground arith

total-on_failure :
    (now : ℕ) (b : CircuitBreaker) → (on_failure now b).total_calls ≡ suc b.total_calls
unfolding on_failure
total-on_failure now b = ground arith

-- The calls that the circuit breaker has counted.
abbrev total_of : Option CircuitBreaker → ℕ
total_of none = 0
total_of (some b) = b.total_calls

abbrev pub counted : {K : Type 0} → World K → ℕ
counted w = total_of w.circuit_breaker

module _ {K A : Type 0} (dec : Discrete K) (c : RetryConfig) (delay : ℕ → ℕ) where
  counted-attempt_once :
      (attempt : ℕ) (a : Attempt A) (last : Option Exception) (w : World K)
      → w.circuit_breaker ≢ none
      → w.rate_limiter ≡ none
      → a.outcome ≢ err circuit_breaker_open
      → let after = (attempt_once dec c delay attempt a last w).0 in
        (counted after + calls w.effects ≡ counted w + calls after.effects)
        × (after.circuit_breaker ≢ none)
        × (after.rate_limiter ≡ none)
  unfolding attempt_once
  counted-attempt_once attempt a last w has nl fair =
      grind (arith, total-allow_request, total-on_success, total-on_failure)

  counted-execute_from :
      (env : ℕ → Attempt A) (left attempt : ℕ) (last : Option Exception) (w : World K)
      → w.circuit_breaker ≢ none
      → w.rate_limiter ≡ none
      → ((i : ℕ) → (env i).outcome ≢ err circuit_breaker_open)
      → let after = (execute_from dec c delay env left attempt last w).0 in
        counted after + calls w.effects ≡ counted w + calls after.effects
  unfolding execute_from
  counted-execute_from env zero attempt last w has nl fair = omega arith
  counted-execute_from env (suc left) attempt last w has nl fair =
      let (n, has', nl') =
        counted-attempt_once attempt (env attempt) last w has nl (fair attempt) in
      elim (Verdict-cases (attempt_once dec c delay attempt (env attempt) last w).1) [
        | inl (e, goes_on) ↦
            rw (goes_on, execute_from)
              (omega (
                arith,
                n,
                counted-execute_from env left (suc attempt) (some e)
                    (attempt_once dec c delay attempt (env attempt) last w).0 has' nl' fair,
              ))
        | inr (x, stops) ↦ rw (stops, execute_from) n
      ]

  -- With a circuit breaker and no rate limiter, if the given function never raises
  -- `CircuitBreakerOpenError` itself, the breaker's count of calls grows by exactly the number of
  -- calls that the executor makes.
  pub counted-execute :
      (env : ℕ → Attempt A) (w : World K)
      → w.circuit_breaker ≢ none
      → w.rate_limiter ≡ none
      → ((i : ℕ) → (env i).outcome ≢ err circuit_breaker_open)
      → let after = (execute dec c delay env w).0 in
        counted after + calls w.effects ≡ counted w + calls after.effects
  unfolding execute
  counted-execute env w has nl fair = counted-execute_from env c.max_attempts 0 none w has nl fair
