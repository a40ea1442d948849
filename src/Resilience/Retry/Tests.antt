-- ===== src/Resilience/Retry/Tests.antt =====
-- Runs of the retry executor, and the theorems at concrete inputs.
use inc_trade.Prelude.{
  ℕ, zero, suc, ◌+◌, ◌≤◌, ◌<◌, ◌≡◌, refl, true, false, none, some, [], ◌∷◌, arith, ℕ_discrete,
}
use inc_trade.Prelude.Int.{pos}
use inc_trade.Prelude.Result.{Result, ok, err}
use inc_trade.Resilience.Circuit.{CircuitBreaker, opened, closed, on_failure, allow_request}
use inc_trade.Resilience.Retry.{
  Exception, circuit_breaker_open, non_retryable_error, retryable_error, RetryConfig,
  bad_max_attempts, make_config, called, slept, retried, returned, raised, Attempt, World,
  attempt_once, execute_from, execute,
}
use inc_trade.Resilience.Retry.Attempts.{
  calls, sleeps, is_transient, calls-execute, execute-returns, execute-exhausts,
}
use inc_trade.Resilience.Retry.Counts.{counted, counted-execute}

abbrev config : RetryConfig
config = record { max_attempts = 3; listed = λ e. false }

abbrev attempt : Result Exception ℕ → Attempt ℕ
attempt r = record { allow_at = 50; acquire_at = 50; rounds = []; outcome = r; record_at = 60 }

-- The first two attempts fail, and the others return 7.
abbrev recovering : ℕ → Attempt ℕ
recovering zero = attempt (err (retryable_error 1))
recovering (suc zero) = attempt (err (retryable_error 2))
recovering (suc (suc _)) = attempt (ok 7)

abbrev failing : ℕ → Attempt ℕ
failing n = attempt (err (retryable_error n))

abbrev stopping : ℕ → Attempt ℕ
stopping zero = attempt (err (retryable_error 1))
stopping (suc n) = attempt (err (non_retryable_error 2))

abbrev delays : ℕ → ℕ
delays n = n + 10

abbrev plain : World ℕ
plain = record {
  circuit_breaker = none;
  rate_limiter = none;
  has_on_retry = true;
  has_on_failure = true;
  effects = [];
}

abbrev breaker : CircuitBreaker
breaker = record {
  config = record { failure_threshold = 2; success_threshold = 1; open_duration_ms = 1 };
  state = closed;
  failure_count = 0;
  success_count = 0;
  opened_at_ns = 0;
  state_change_count = 0;
  total_calls = 0;
}

abbrev guarded : World ℕ
guarded = record plain { circuit_breaker = some breaker }

abbrev open_breaker : CircuitBreaker
open_breaker = record breaker { state = opened }

abbrev refused : World ℕ
refused = record plain { circuit_breaker = some open_breaker }

execute_test :
    (execute ℕ_discrete config delays recovering plain ≡ (
      record plain {
        effects =
            called
            ∷ retried 1 (retryable_error 2)
            ∷ slept 11
            ∷ called
            ∷ retried 0 (retryable_error 1)
            ∷ slept 10
            ∷ called
            ∷ [];
      },
      returned 7,
    ))
    × ((execute ℕ_discrete config delays failing guarded).1 ≡ raised circuit_breaker_open)
    × (make_config (pos 0) (λ e. false) ≡ err bad_max_attempts)
unfolding execute execute_from attempt_once make_config on_failure allow_request
execute_test = (refl, refl, refl)

calls-execute_example : calls (execute ℕ_discrete config delays failing guarded).0.effects ≤ 3
calls-execute_example = calls-execute ℕ_discrete config delays failing guarded

execute-returns_example :
    let (after, answer) = execute ℕ_discrete config delays recovering plain in
    (answer ≡ returned 7) × (calls after.effects ≡ 3) × (sleeps after.effects ≡ 11 ∷ 10 ∷ [])
execute-returns_example =
    execute-returns ℕ_discrete config delays recovering 2 7 plain refl refl (omega arith) fails refl
  where
    fails :
        (i : ℕ)
        → 0 ≤ i
        → i < 2
        → (e : Exception) × ((recovering i).outcome ≡ err e) × (is_transient config e ≡ true)
    fails zero lo hi = (retryable_error 1, refl, refl)
    fails (suc zero) lo hi = (retryable_error 2, refl, refl)
    fails (suc (suc i)) lo hi = absurd (omega arith)

execute-exhausts_example :
    let (after, answer) = execute ℕ_discrete config delays failing plain in
    ((e : Exception) × ((failing 2).outcome ≡ err e) × (answer ≡ raised e))
    × (calls after.effects ≡ 3)
    × (sleeps after.effects ≡ 11 ∷ 10 ∷ [])
execute-exhausts_example =
    execute-exhausts ℕ_discrete config delays failing plain refl refl (omega arith)
      (λ i lo hi. (retryable_error i, refl, refl))

counted-execute_example :
    let after = (execute ℕ_discrete config delays failing guarded).0 in
    counted after + 0 ≡ 0 + calls after.effects
counted-execute_example =
    counted-execute ℕ_discrete config delays failing guarded (λ e. cc) refl (λ i e. cc)
