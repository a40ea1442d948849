-- ===== src/Resilience/Retry/Accounts.antt =====
-- The executor and its circuit breaker and callbacks.
use inc_trade.Prelude.{
  ℕ, zero, suc, ◌-◌, ◌<◌, ◌≡◌, ap, ◌∙◌, true, false, Option, none, some, List, ◌∷◌, arith, ltb,
}
use inc_trade.Prelude.Result.{err}
use inc_trade.Resilience.Circuit.{CircuitBreaker, opened, has_expired, allow_request}
use inc_trade.Resilience.Retry.{
  Exception, circuit_breaker_open, non_retryable_error, retryable_error, RetryConfig, Effect,
  called, failed, Answer, raised, Attempt, World, attempt_once, execute_from, execute, again, ends,
}

module _ {K A : Type 0} (dec : Discrete K) (c : RetryConfig) (delay : ℕ → ℕ) where
  execute_from-ends :
      (env : ℕ → Attempt A) (left attempt : ℕ) (last : Option Exception) (w : World K)
      {w' : World K} {x : Answer A}
      → 0 < left
      → attempt_once dec c delay attempt (env attempt) last w ≡ (w', ends x)
      → execute_from dec c delay env left attempt last w ≡ (w', x)
  unfolding execute_from
  execute_from-ends env zero attempt last w positive e = absurd (omega arith)
  execute_from-ends env (suc left) attempt last w positive e = ground arith

  execute_from-again :
      (env : ℕ → Attempt A) (left attempt : ℕ) (last : Option Exception) (w : World K)
      {w' : World K} {e : Exception}
      → 0 < left
      → attempt_once dec c delay attempt (env attempt) last w ≡ (w', again e)
      → execute_from dec c delay env left attempt last w
        ≡ execute_from dec c delay env (left - 1) (suc attempt) (some e) w'
  unfolding execute_from
  execute_from-again env zero attempt last w positive e = absurd (omega arith)
  execute_from-again env (suc left) attempt last w positive e =
      let less : suc left - 1 ≡ left = omega arith in rw less (ground arith)

  attempt_once-opened :
      (attempt : ℕ) (a : Attempt A) (last : Option Exception) (w : World K) (b : CircuitBreaker)
      → w.circuit_breaker ≡ some b
      → b.state ≡ opened
      → has_expired a.allow_at b ≡ false
      → attempt_once dec c delay attempt a last w ≡ (w, ends (raised circuit_breaker_open))
  unfolding attempt_once allow_request
  attempt_once-opened attempt a last w b has is_open early = ground arith

  -- While the circuit breaker is open and its open duration is not over at the first attempt, the
  -- executor raises `CircuitBreakerOpenError` at once: nothing is called, slept, counted or notified.
  pub execute-opened :
      (env : ℕ → Attempt A) (w : World K) (b : CircuitBreaker)
      → 0 < c.max_attempts
      → w.circuit_breaker ≡ some b
      → b.state ≡ opened
      → has_expired (env 0).allow_at b ≡ false
      → execute dec c delay env w ≡ (w, raised circuit_breaker_open)
  unfolding execute
  execute-opened env w b positive has is_open early =
      execute_from-ends env c.max_attempts 0 none w positive
        (attempt_once-opened 0 (env 0) none w b has is_open early)

  attempt_once-retryable :
      (attempt k : ℕ) (a : Attempt A) (last : Option Exception) (w : World K)
      → ltb attempt (c.max_attempts - 1) ≡ true
      → w.circuit_breaker ≡ none
      → w.rate_limiter ≡ none
      → a.outcome ≡ err (retryable_error k)
      → let (after, verdict) = attempt_once dec c delay attempt a last w in
        (verdict ≡ again (retryable_error k))
        × (after.circuit_breaker ≡ none)
        × (after.rate_limiter ≡ none)
        × (after.has_on_failure ≡ w.has_on_failure)
  unfolding attempt_once
  attempt_once-retryable attempt k a last w more nb nl fails = ground arith

  attempt_once-non_retryable :
      (attempt n : ℕ) (a : Attempt A) (e : Exception) (w : World K)
      → w.circuit_breaker ≡ none
      → w.rate_limiter ≡ none
      → w.has_on_failure ≡ true
      → a.outcome ≡ err (non_retryable_error n)
      → let (after, verdict) = attempt_once dec c delay attempt a (some e) w in
        (verdict ≡ ends (raised (non_retryable_error n)))
        × (after.effects ≡ failed e ∷ called ∷ w.effects)
  unfolding attempt_once
  attempt_once-non_retryable attempt n a e w nb nl tells fails = ground arith

  -- An exception of a call that is retried, followed by one that is not: the executor raises the
  -- second, and tells the failure callback the first.
  pub execute-tells_earlier :
      (env : ℕ → Attempt A) (w : World K) (k n : ℕ)
      → 1 < c.max_attempts
      → w.circuit_breaker ≡ none
      → w.rate_limiter ≡ none
      → w.has_on_failure ≡ true
      → (env 0).outcome ≡ err (retryable_error k)
      → (env 1).outcome ≡ err (non_retryable_error n)
      → let (after, answer) = execute dec c delay env w in
        (answer ≡ raised (non_retryable_error n))
        × (es : List Effect) × (after.effects ≡ failed (retryable_error k) ∷ es)
  unfolding execute
  execute-tells_earlier env w k n many nb nl tells first second =
      let (v, nb', nl', same) =
        attempt_once-retryable 0 k (env 0) none w (ground arith) nb nl first in
      let after = (attempt_once dec c delay 0 (env 0) none w).0 in
      let (x, told) =
        attempt_once-non_retryable 1 n (env 1) (retryable_error k) after nb' nl' (same ∙ tells)
          second in
      let last = (attempt_once dec c delay 1 (env 1) (some (retryable_error k)) after).0 in
      let whole =
        execute_from-again env c.max_attempts 0 none w (omega arith) (ap (λ v'. (after, v')) v)
        ∙ execute_from-ends env (c.max_attempts - 1) 1 (some (retryable_error k)) after
            (omega arith) (ap (λ v'. (last, v')) x) in
      (ap (λ r. r.1) whole, called ∷ after.effects, ap (λ r. (r.0).effects) whole ∙ told)
