-- ===== src/Resilience/Bucket.antt =====
-- `TokenBucketRateLimiter` of brokers/common/resilience/rate_limiter.py.
-- Its floats are exact scaled integers here: times are nanoseconds, a rate is thousandths of a
-- token per second, and an amount of tokens is a multiple of 10^-12 token, so that the tokens that
-- come in are the nanoseconds times the rate, with no rounding. The lock makes each round of
-- `acquire` one step; what the clock says in each round is a list of readings.
pub mod Conserves
pub mod Waits
mod Tests
use inc_trade.Prelude.{
  ℕ, ◌+◌, ◌-◌, ◌*◌, ◌/◌, min, max, Bool, true, false, Option, none, some, List, [], ◌∷◌, leb, ltb,
  if◌then◌else◌,
}
use inc_trade.Prelude.Int.{ℤ, pos, pos_part, leb_ℤ}
use inc_trade.Prelude.Result.{Result, ok, err}

-- One token, in the unit of the amounts.
abbrev pub token : ℕ
token = 1_000_000_000_000

pub record RateLimitConfig : Type 0 where
  pub rate_per_second : ℕ
  pub capacity : ℕ

pub data ConfigError : Type 0 where
  bad_rate bad_capacity : ConfigError

-- `RateLimitConfig(...)` with its `__post_init__`.
pub make_config : ℤ → ℤ → Result ConfigError RateLimitConfig
make_config rate capacity =
    if leb_ℤ rate (pos 0)
    then err bad_rate
    else if leb_ℤ capacity (pos 0)
    then err bad_capacity
    else ok (record { rate_per_second = pos_part rate; capacity = pos_part capacity })

pub record TokenBucket : Type 0 where
  pub config : RateLimitConfig
  pub tokens : ℕ
  pub last_refill_nanos : ℕ

-- `_capacity`, which no method changes.
abbrev pub full : RateLimitConfig → ℕ
full c = c.capacity * token

-- `__init__`, at a reading of the clock.
unfoldable pub new : RateLimitConfig → ℕ → TokenBucket
new c now = record { config = c; tokens = full c; last_refill_nanos = now }

unfoldable pub refill : ℕ → TokenBucket → TokenBucket
refill now b =
    if ltb b.last_refill_nanos now
    then record b {
      tokens =
          min (full b.config) (b.tokens + (now - b.last_refill_nanos) * b.config.rate_per_second);
      last_refill_nanos = now;
    }
    else b

-- The property `available_tokens`: an estimate that writes nothing.
pub available_tokens : ℕ → TokenBucket → ℕ
available_tokens now b =
    min (full b.config) (b.tokens + (now - b.last_refill_nanos) * b.config.rate_per_second)

-- The setter of `rate`.
unfoldable pub set_rate : ℕ → TokenBucket → TokenBucket
set_rate value b = record b { config = record (b.config) { rate_per_second = value } }

pub reset : ℕ → TokenBucket → TokenBucket
reset now b = record b { tokens = full b.config; last_refill_nanos = now }

-- What `acquire` does under the lock.
unfoldable pub try_take : ℕ → ℕ → TokenBucket → TokenBucket × Bool
unfolding refill
try_take now wanted b =
    let filled = refill now b in
    if leb (wanted * token) filled.tokens
    then (record filled { tokens = filled.tokens - wanted * token }, true)
    else (filled, false)

-- The two readings of the clock in a round: by `_refill`, and against the deadline.
pub record Round : Type 0 where
  pub refilled_at : ℕ
  pub checked_at : ℕ

abbrev pub is_over : Option ℕ → ℕ → Bool
is_over none now = false
is_over (some deadline) now = leb deadline now

-- How long a round sleeps: the lesser of the timeout (1 ms without one) and the time in which one
-- token comes in, and never less than 1 ms.
abbrev longest : Option ℕ → ℕ
longest none = 1_000_000
longest (some timeout) = timeout

abbrev pause : ℕ → ℕ
pause rate = if ltb 0 rate then token / rate else 1_000_000

pub sleep_time : Option ℕ → TokenBucket → ℕ
sleep_time timeout b = max (min (longest timeout) (pause b.config.rate_per_second)) 1_000_000

-- The `while True` of `acquire`; `none` means that it still waits when the readings end.
unfoldable pub acquire_loop : List Round → Option ℕ → ℕ → TokenBucket → TokenBucket × Option Bool
unfolding try_take
acquire_loop [] deadline wanted b = (b, none)
acquire_loop (r ∷ rs) deadline wanted b =
    let (after, taken) = try_take r.refilled_at wanted b in
    let rest = acquire_loop rs deadline wanted after in
    if taken
    then (after, some true)
    else if is_over deadline r.checked_at
    then (after, some false)
    else rest

abbrev pub deadline_of : ℕ → Option ℕ → Option ℕ
deadline_of start none = none
deadline_of start (some timeout) = some (start + timeout)

-- `acquire(tokens, timeout)`, called at `start`. `acquire_async` differs from it only in how it
-- sleeps.
unfoldable pub acquire : ℕ → List Round → ℕ → Option ℕ → TokenBucket → TokenBucket × Option Bool
unfolding acquire_loop
acquire start rounds wanted timeout b =
    if ltb (full b.config) (wanted * token)
    then (b, some false)
    else acquire_loop rounds (deadline_of start timeout) wanted b
