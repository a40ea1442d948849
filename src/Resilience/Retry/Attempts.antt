-- ===== src/Resilience/Retry/Attempts.antt =====
-- How many attempts the executor makes, how long it waits between them, and how it ends.
use inc_trade.Prelude.{
  ℕ, zero, suc, ◌+◌, ◌-◌, ◌≤◌, ◌<◌, ◌≡◌, refl, ap, ◌∙◌, Bool, true, false, Option, none, some, List,
  [], ◌∷◌, ◌⊎◌, inl, inr, arith, ltb, if◌then◌else◌,
}
use inc_trade.Prelude.Result.{ok, err}
use inc_trade.Resilience.Retry.{
  Exception, retryable_error, other_error, value_error, RetryConfig, Effect, called, slept, Answer,
  returned, raised, Attempt, World, attempt_once, execute_from, execute, again, ends, Verdict,
}

abbrev pub calls : List Effect → ℕ
calls [] = 0
calls (called ∷ es) = suc (calls es)
calls (_ ∷ es) = calls es

abbrev pub sleeps : List Effect → List ℕ
sleeps [] = []
sleeps (slept d ∷ es) = d ∷ sleeps es
sleeps (_ ∷ es) = sleeps es

-- The exceptions after which the executor tries again.
abbrev pub is_transient : RetryConfig → Exception → Bool
is_transient c (retryable_error k) = true
is_transient c (other_error k) = c.listed (other_error k)
is_transient c value_error = c.listed value_error
is_transient c _ = false

pub Verdict-cases :
    {A : Type 0} (v : Verdict A)
    → ((e : Exception) × (v ≡ again e)) ⊎ ((x : Answer A) × (v ≡ ends x))
Verdict-cases (again e) = inl (e, refl)
Verdict-cases (ends x) = inr (x, refl)

-- `acc` behind the delays of so many attempts from `attempt` on, the latest first.
abbrev pub slept_from : (ℕ → ℕ) → ℕ → ℕ → List ℕ → List ℕ
slept_from delay attempt zero acc = acc
slept_from delay attempt (suc n) acc = slept_from delay (suc attempt) n (delay attempt ∷ acc)

module _ {K A : Type 0} (dec : Discrete K) (c : RetryConfig) (delay : ℕ → ℕ) where
  calls-attempt_once :
      (attempt : ℕ) (a : Attempt A) (last : Option Exception) (w : World K)
      → calls (attempt_once dec c delay attempt a last w).0.effects ≤ calls w.effects + 1
  unfolding attempt_once
  calls-attempt_once attempt a last w = ground arith

  calls-execute_from :
      (env : ℕ → Attempt A) (left attempt : ℕ) (last : Option Exception) (w : World K)
      → calls (execute_from dec c delay env left attempt last w).0.effects ≤ calls w.effects + left
  unfolding execute_from
  calls-execute_from env zero attempt last w = omega arith
  calls-execute_from env (suc left) attempt last w =
      let bound = calls-attempt_once attempt (env attempt) last w in
      elim (Verdict-cases (attempt_once dec c delay attempt (env attempt) last w).1) [
        | inl (e, goes_on) ↦
            rw (goes_on, execute_from)
              (omega (
                arith,
                calls-execute_from env left (suc attempt) (some e)
                    (attempt_once dec c delay attempt (env attempt) last w).0,
              ))
        | inr (x, stops) ↦ rw (stops, execute_from) (omega arith)
      ]

  -- The given function is called at most `max_attempts` times, however its calls, the circuit
  -- breaker and the rate limiter turn out.
  pub calls-execute :
      (env : ℕ → Attempt A) (w : World K)
      → calls (execute dec c delay env w).0.effects ≤ calls w.effects + c.max_attempts
  unfolding execute
  calls-execute env w = calls-execute_from env c.max_attempts 0 none w

  -- After an exception that the loop retries, it goes on exactly if an attempt is left.
  attempt_once-transient :
      (attempt : ℕ) (a : Attempt A) (last : Option Exception) (w : World K) (e : Exception)
      → w.circuit_breaker ≡ none
      → w.rate_limiter ≡ none
      → a.outcome ≡ err e
      → is_transient c e ≡ true
      → let (after, verdict) = attempt_once dec c delay attempt a last w in
        let more = ltb attempt (c.max_attempts - 1) in
        (verdict ≡ (if more then again e else ends (raised e)))
        × (after.circuit_breaker ≡ none)
        × (after.rate_limiter ≡ none)
        × (calls after.effects ≡ suc (calls w.effects))
        × (sleeps after.effects
            ≡ (if more then delay attempt ∷ sleeps w.effects else sleeps w.effects))
  unfolding attempt_once
  attempt_once-transient attempt a last w e no_breaker no_limiter fails transient = ground arith

  attempt_once-returned :
      (attempt : ℕ) (a : Attempt A) (last : Option Exception) (w : World K) (value : A)
      → w.circuit_breaker ≡ none
      → w.rate_limiter ≡ none
      → a.outcome ≡ ok value
      → let (after, verdict) = attempt_once dec c delay attempt a last w in
        (verdict ≡ ends (returned value))
        × (calls after.effects ≡ suc (calls w.effects))
        × (sleeps after.effects ≡ sleeps w.effects)
  unfolding attempt_once
  attempt_once-returned attempt a last w value no_breaker no_limiter works = ground arith

  -- Every attempt from `attempt` up to, not including, `until` fails with an exception that is
  -- retried.
  abbrev pub AllTransient : (ℕ → Attempt A) → ℕ → ℕ → Type 0
  AllTransient env attempt until =
      (i : ℕ)
      → attempt ≤ i
      → i < until
      → (e : Exception) × ((env i).outcome ≡ err e) × (is_transient c e ≡ true)

  execute_from-returns :
      (env : ℕ → Attempt A) (d left attempt : ℕ) (last : Option Exception) (value : A) (w : World K)
      → w.circuit_breaker ≡ none
      → w.rate_limiter ≡ none
      → attempt + left ≡ c.max_attempts
      → d < left
      → AllTransient env attempt (attempt + d)
      → (env (attempt + d)).outcome ≡ ok value
      → let (after, answer) = execute_from dec c delay env left attempt last w in
        (answer ≡ returned value)
        × (calls after.effects ≡ calls w.effects + suc d)
        × (sleeps after.effects ≡ slept_from delay attempt d (sleeps w.effects))
  unfolding execute_from
  execute_from-returns env d zero attempt last value w nb nl total lt fails works =
      absurd (omega arith)
  execute_from-returns env zero (suc left) attempt last value w nb nl total lt fails works =
      let here : attempt + 0 ≡ attempt = omega arith in
      let (v, n, s) =
        attempt_once-returned attempt (env attempt) last w value nb nl (rw here at works) in
      rw (v, execute_from) (refl, omega (arith, n), s)
  execute_from-returns env (suc d) (suc left) attempt last value w nb nl total lt fails works =
      let (e, raises, transient) = fails attempt (omega arith) (omega arith) in
      let (v, nb', nl', n, s) =
        attempt_once-transient attempt (env attempt) last w e nb nl raises transient in
      let more : ltb attempt (c.max_attempts - 1) ≡ true = ground arith in
      let after = (attempt_once dec c delay attempt (env attempt) last w).0 in
      let waited : sleeps after.effects ≡ delay attempt ∷ sleeps w.effects = rw more at s in
      let next : attempt + suc d ≡ suc attempt + d = omega arith in
      let (v', n', s') =
        execute_from-returns env d left (suc attempt) (some e) value after nb' nl' (omega arith)
          (omega arith) (λ i lo hi. fails i (omega arith) (omega arith)) (rw next at works) in
      rw (v, more, execute_from)
        (v', omega (arith, n, n'), s' ∙ ap (slept_from delay (suc attempt) d) waited)

  -- Without a circuit breaker and a rate limiter: if the attempts before number `k` fail with
  -- exceptions that are retried and attempt `k` returns, with `k` below `max_attempts`, the executor
  -- returns that value after `k + 1` calls, having slept the backoff delays of attempts 0 to `k - 1`
  -- in that order.
  pub execute-returns :
      (env : ℕ → Attempt A) (k : ℕ) (value : A) (w : World K)
      → w.circuit_breaker ≡ none
      → w.rate_limiter ≡ none
      → k < c.max_attempts
      → AllTransient env 0 k
      → (env k).outcome ≡ ok value
      → let (after, answer) = execute dec c delay env w in
        (answer ≡ returned value)
        × (calls after.effects ≡ calls w.effects + suc k)
        × (sleeps after.effects ≡ slept_from delay 0 k (sleeps w.effects))
  unfolding execute
  execute-returns env k value w nb nl lt fails works =
      let here : 0 + k ≡ k = omega arith in
      execute_from-returns env k c.max_attempts 0 none value w nb nl (omega arith) lt
        (rw here fails) (rw here works)

  execute_from-exhausts :
      (env : ℕ → Attempt A) (left attempt : ℕ) (last : Option Exception) (w : World K)
      → w.circuit_breaker ≡ none
      → w.rate_limiter ≡ none
      → attempt + suc left ≡ c.max_attempts
      → AllTransient env attempt c.max_attempts
      → let (after, answer) = execute_from dec c delay env (suc left) attempt last w in
        ((e : Exception) × ((env (c.max_attempts - 1)).outcome ≡ err e) × (answer ≡ raised e))
        × (calls after.effects ≡ calls w.effects + suc left)
        × (sleeps after.effects ≡ slept_from delay attempt left (sleeps w.effects))
  unfolding execute_from
  execute_from-exhausts env zero attempt last w nb nl total fails =
      let (e, raises, transient) = fails attempt (omega arith) (omega arith) in
      let (v, nb', nl', n, s) =
        attempt_once-transient attempt (env attempt) last w e nb nl raises transient in
      let done : ltb attempt (c.max_attempts - 1) ≡ false = ground arith in
      let is_last : c.max_attempts - 1 ≡ attempt = omega arith in
      rw (v, done, execute_from) ((e, rw is_last raises, refl), omega (arith, n), rw done at s)
  execute_from-exhausts env (suc left) attempt last w nb nl total fails =
      let (e, raises, transient) = fails attempt (omega arith) (omega arith) in
      let (v, nb', nl', n, s) =
        attempt_once-transient attempt (env attempt) last w e nb nl raises transient in
      let more : ltb attempt (c.max_attempts - 1) ≡ true = ground arith in
      let after = (attempt_once dec c delay attempt (env attempt) last w).0 in
      let waited : sleeps after.effects ≡ delay attempt ∷ sleeps w.effects = rw more at s in
      let (x, n', s') =
        execute_from-exhausts env left (suc attempt) (some e) after nb' nl' (omega arith)
          (λ i lo hi. fails i (omega arith) hi) in
      rw (v, more, execute_from)
        (x, omega (arith, n, n'), s' ∙ ap (slept_from delay (suc attempt) left) waited)

  -- Without a circuit breaker and a rate limiter: if every attempt fails with an exception that is
  -- retried, the executor calls `max_attempts` times, sleeps the backoff delays of all attempts but
  -- the last, in order, and raises the exception of the last attempt.
  pub execute-exhausts :
      (env : ℕ → Attempt A) (w : World K)
      → w.circuit_breaker ≡ none
      → w.rate_limiter ≡ none
      → 0 < c.max_attempts
      → AllTransient env 0 c.max_attempts
      → let (after, answer) = execute dec c delay env w in
        ((e : Exception) × ((env (c.max_attempts - 1)).outcome ≡ err e) × (answer ≡ raised e))
        × (calls after.effects ≡ calls w.effects + c.max_attempts)
        × (sleeps after.effects ≡ slept_from delay 0 (c.max_attempts - 1) (sleeps w.effects))
  unfolding execute
  execute-exhausts env w nb nl positive fails =
      let e : c.max_attempts ≡ suc (c.max_attempts - 1) = omega arith in
      let whole =
        execute_from-exhausts env (c.max_attempts - 1) 0 none w nb nl (omega arith) fails in
      rw (← e) at whole
