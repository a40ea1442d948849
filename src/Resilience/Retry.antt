-- ===== src/Resilience/Retry.antt =====
-- brokers/common/resilience/retry.py. What the outside does in an attempt (readings of the clock,
-- and how the given function ends) is a record for each attempt; what the executor does to the
-- outside is a list of effects, the latest first.
pub mod Attempts
pub mod Accounts
pub mod Counts
mod Tests
use inc_trade.Prelude.{
  ℕ, zero, suc, ◌+◌, ◌-◌, Bool, true, false, Option, none, some, List, [], ◌∷◌, ltb, if◌then◌else◌,
}
use inc_trade.Prelude.Int.{ℤ, pos, pos_part, leb_ℤ}
use inc_trade.Prelude.Result.{Result, ok, err}
use inc_trade.Resilience.Circuit.{CircuitBreaker, allow_request, on_success, on_failure}
use inc_trade.Resilience.Bucket.{Round}
use inc_trade.Resilience.Buckets.{MultiBucket, acquire_in}

-- The exceptions, by the `except` clause that catches them; the number tells the instances apart.
-- `value_error` is the limiter's, for an unknown category; `blank_error` is `NonRetryableError("")`.
pub data Exception : Type 0 where
  circuit_breaker_open : Exception
  non_retryable_error retryable_error other_error : ℕ → Exception
  value_error blank_error : Exception

-- `RetryConfig`; `listed` is the test `isinstance(e, retryable_exceptions)`.
pub record RetryConfig : Type 0 where
  pub max_attempts : ℕ
  pub listed : Exception → Bool

pub data ConfigError : Type 0 where
  bad_max_attempts : ConfigError

-- `RetryConfig(...)` with its `__post_init__`.
pub make_config : ℤ → (Exception → Bool) → Result ConfigError RetryConfig
make_config attempts listed =
    if leb_ℤ attempts (pos 0)
    then err bad_max_attempts
    else ok (record { max_attempts = pos_part attempts; listed = listed })

pub data Effect : Type 0 where
  called : Effect
  slept : ℕ → Effect
  retried : ℕ → Exception → Effect
  failed : Exception → Effect

-- How an attempt ends, and how `execute` ends. `blocked` waits for the limiter's clock for ever;
-- `fell_through` is the implicit `return None` under the loop.
pub data Answer (A : Type 0) : Type 0 where
  returned : A → Answer A
  raised : Exception → Answer A
  blocked fell_through : Answer A

pub record Attempt (A : Type 0) : Type 0 where
  pub allow_at : ℕ
  pub acquire_at : ℕ
  pub rounds : List Round
  pub outcome : Result Exception A
  pub record_at : ℕ

-- The executor's collaborators and what it has done. The callbacks are optional.
pub record World (K : Type 0) : Type 0 where
  pub circuit_breaker : Option CircuitBreaker
  pub rate_limiter : Option (MultiBucket K × K)
  pub has_on_retry : Bool
  pub has_on_failure : Bool
  pub effects : List Effect

module _ {K : Type 0} where
  abbrev pub emit : Effect → World K → World K
  emit x w = record w { effects = x ∷ w.effects }

  -- `if self._on_failure: self._on_failure(e)`
  unfoldable pub notify_failure : Exception → World K → World K
  notify_failure e w = if w.has_on_failure then emit (failed e) w else w

  unfoldable pub notify_retry : ℕ → Exception → World K → World K
  notify_retry attempt e w = if w.has_on_retry then emit (retried attempt e) w else w

  -- `if self.circuit_breaker: self.circuit_breaker.on_success()`, and so for a failure.
  unfoldable pub record_success : ℕ → World K → World K
  record_success now w = elim w.circuit_breaker [
    | none ↦ w
    | some b ↦ record w { circuit_breaker = some (on_success now b) }
  ]

  unfoldable pub record_failure : ℕ → World K → World K
  record_failure now w = elim w.circuit_breaker [
    | none ↦ w
    | some b ↦ record w { circuit_breaker = some (on_failure now b) }
  ]

  -- Step 1, the circuit breaker check.
  unfoldable pub check_circuit : ℕ → World K → World K × Bool
  check_circuit now w = elim w.circuit_breaker [
    | none ↦ (w, true)
    | some b ↦
        let (after, allowed) = allow_request now b in
        (record w { circuit_breaker = some after }, allowed)
  ]

abbrev pub last_or : Option Exception → Exception → Exception
last_or none e = e
last_or (some last) e = last

abbrev pub raise_last : {A : Type 0} → Option Exception → Answer A
raise_last none = fell_through
raise_last (some e) = raised e

-- Whether the loop goes on, or ends with an answer.
pub data Verdict (A : Type 0) : Type 0 where
  again : Exception → Verdict A
  ends : Answer A → Verdict A

module _ {K : Type 0} (dec : Discrete K) where
  -- Step 2, the rate limit. The answer of `acquire` is dropped, and it never times out.
  unfoldable pub take_token : ℕ → List Round → World K → World K × Answer (Unit {0})
  take_token start rounds w = elim w.rate_limiter [
    | none ↦ (w, returned tt)
    | some (m, category) ↦ elim (acquire_in dec category start rounds 1 none m) [
      | err _ ↦ (w, raised value_error)
      | ok (m', some _) ↦ (record w { rate_limiter = some (m', category) }, returned tt)
      | ok (m', none) ↦ (record w { rate_limiter = some (m', category) }, blocked)
    ]
  ]

module _ {K A : Type 0} where
  -- Steps 3 and 4: the function, and the success.
  unfoldable pub call_function : Attempt A → World K → World K × Answer A
  unfolding record_success
  call_function a w = elim a.outcome [
    | ok value ↦ (record_success a.record_at (emit called w), returned value)
    | err e ↦ (emit called w, raised e)
  ]

  -- A retryable exception: wait and go on, or give up in the last attempt.
  unfoldable pub on_retryable :
      RetryConfig → (ℕ → ℕ) → ℕ → ℕ → Exception → World K → World K × Verdict A
  unfolding record_failure notify_retry notify_failure
  on_retryable c delay attempt now e w =
      let counted = record_failure now w in
      if ltb attempt (c.max_attempts - 1)
      then (notify_retry attempt e (emit (slept (delay attempt)) counted), again e)
      else (notify_failure e counted, ends (raised e))

  -- An exception that ends the loop; the callback is told `told`.
  unfoldable pub on_fatal : ℕ → Exception → Exception → World K → World K × Verdict A
  unfolding record_failure notify_failure
  on_fatal now told e w = (notify_failure told (record_failure now w), ends (raised e))

  -- The `except` clauses; `last` is `last_exception`.
  unfoldable pub handle :
      RetryConfig → (ℕ → ℕ) → ℕ → ℕ → Option Exception → Exception → World K → World K × Verdict A
  unfolding on_retryable on_fatal
  handle c delay attempt now last circuit_breaker_open w = (w, ends (raised circuit_breaker_open))
  handle c delay attempt now last (non_retryable_error k) w =
      on_fatal now (last_or last blank_error) (non_retryable_error k) w
  handle c delay attempt now last blank_error w =
      on_fatal now (last_or last blank_error) blank_error w
  handle c delay attempt now last (retryable_error k) w =
      on_retryable c delay attempt now (retryable_error k) w
  handle c delay attempt now last (other_error k) w =
      if c.listed (other_error k)
      then on_retryable c delay attempt now (other_error k) w
      else on_fatal now (other_error k) (other_error k) w
  handle c delay attempt now last value_error w =
      if c.listed value_error
      then on_retryable c delay attempt now value_error w
      else on_fatal now value_error value_error w

module _ {K A : Type 0} (dec : Discrete K) where
  -- The body of the `try`.
  unfoldable pub try_once : Attempt A → World K → World K × Answer A
  unfolding check_circuit take_token call_function
  try_once a w =
      let (checked, allowed) = check_circuit a.allow_at w in
      if allowed
      then (let (taken, token) = take_token dec a.acquire_at a.rounds checked in
          elim token [
            | returned _ ↦ call_function a taken
            | raised e ↦ (taken, raised e)
            | blocked ↦ (taken, blocked)
            | fell_through ↦ (taken, fell_through)
          ])
      else (checked, raised circuit_breaker_open)

  -- The body of the loop.
  unfoldable pub attempt_once :
      RetryConfig → (ℕ → ℕ) → ℕ → Attempt A → Option Exception → World K → World K × Verdict A
  unfolding try_once handle
  attempt_once c delay attempt a last w =
      let (after, answer) = try_once a w in
      elim answer [
        | raised e ↦ handle c delay attempt a.record_at last e after
        | returned value ↦ (after, ends (returned value))
        | blocked ↦ (after, ends blocked)
        | fell_through ↦ (after, ends fell_through)
      ]

  -- `for attempt in range(max_attempts)`, with so many attempts left.
  unfoldable pub execute_from :
      RetryConfig
      → (ℕ → ℕ)
      → (ℕ → Attempt A)
      → (left attempt : ℕ) → Option Exception
      → World K
      → World K × Answer A
  execute_from c delay env zero attempt last w = (w, raise_last last)
  execute_from c delay env (suc left) attempt last w =
      let (after, verdict) = attempt_once c delay attempt (env attempt) last w in
      elim verdict [
        | ends answer ↦ (after, answer)
        | again e ↦ execute_from c delay env left (suc attempt) (some e) after
      ]

  unfoldable pub execute : RetryConfig → (ℕ → ℕ) → (ℕ → Attempt A) → World K → World K × Answer A
  execute c delay env w = execute_from c delay env c.max_attempts 0 none w
