-- ===== src/Resilience/Backoff.antt =====
-- brokers/common/resilience/backoff.py. Delays are exact: an amount is a multiple of 10^-8 ms, the
-- jitter factor is in percent and the random number in millionths, so that no product is rounded.
-- The multiplier is a whole number, as the default of the source is.
pub mod Bounds
mod Tests
use inc_trade.Prelude.{ℕ, ◌+◌, ◌-◌, ◌*◌, ◌^◌, min}

-- One millisecond.
abbrev pub ms : ℕ
ms = 100_000_000

-- `random.random()` is less than this.
abbrev pub one : ℕ
one = 1_000_000

pub data BackoffStrategy : Type 0 where
  no_backoff : BackoffStrategy
  fixed_backoff : ℕ → BackoffStrategy
  exponential_backoff : (base max multiplier jitter : ℕ) → BackoffStrategy

-- `capped_delay`, in milliseconds.
unfoldable pub capped_delay : ℕ → ℕ → ℕ → ℕ → ℕ
capped_delay base limit multiplier attempt = min (base * multiplier ^ attempt) limit

-- `capped + capped * jitter * (2 * random - 1)`; the subtraction stops at 0, as `max(…, 0.0)` does.
unfoldable pub with_jitter : ℕ → ℕ → ℕ → ℕ
with_jitter capped jitter random =
    capped * ms + capped * (jitter * (2 * random)) - capped * (jitter * one)

-- The method `delay` of each strategy.
unfoldable pub delay : BackoffStrategy → ℕ → ℕ → ℕ
unfolding capped_delay with_jitter
delay no_backoff random attempt = 0
delay (fixed_backoff delay_ms) random attempt = delay_ms * ms
delay (exponential_backoff base limit multiplier jitter) random attempt =
    min (with_jitter (capped_delay base limit multiplier attempt) jitter random) (limit * ms)
