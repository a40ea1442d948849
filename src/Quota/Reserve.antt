-- ===== src/Quota/Reserve.antt =====
-- `PriorityClass` and `_TokenBucket` of brokers/common/quota_scheduler.py, in the units of
-- Resilience/Bucket.antt: nanoseconds, thousandths of a token per second, 10^-12 token. The
-- reserved headroom is in percent, and a capacity is in thousandths of a token, so that the reserve
-- is exact.
pub mod Starvation
use inc_trade.Prelude.{ℕ, ◌+◌, ◌-◌, ◌*◌, ◌/◌, min, Bool, true, false, leb, if◌then◌else◌}
use inc_trade.Resilience.Bucket.{token}

pub data PriorityClass : Type 0 where
  execution_critical live_stream_control portfolio_read historical_backfill enrichment :
      PriorityClass

abbrev pub is_critical : PriorityClass → Bool
is_critical execution_critical = true
is_critical _ = false

pub record ReservedBucket : Type 0 where
  pub rate : ℕ
  pub capacity : ℕ
  pub reserved_headroom : ℕ
  pub tokens : ℕ
  pub last_refill : ℕ

-- One thousandth of a token.
abbrev pub milli : ℕ
milli = 1_000_000_000

abbrev pub limit : ReservedBucket → ℕ
limit b = b.capacity * milli

-- The property `_reserved_tokens`.
abbrev pub reserved_tokens : ReservedBucket → ℕ
reserved_tokens b = b.capacity * b.reserved_headroom * 10_000_000

-- `__init__`, at a reading of the clock.
unfoldable pub new : (rate capacity headroom now : ℕ) → ReservedBucket
new rate capacity headroom now = record {
  rate = rate;
  capacity = capacity;
  reserved_headroom = headroom;
  tokens = capacity * milli;
  last_refill = now;
}

unfoldable pub refill : ℕ → ReservedBucket → ReservedBucket
refill now b = record b {
  tokens = min (limit b) (b.tokens + (now - b.last_refill) * b.rate);
  last_refill = now;
}

-- `try_acquire`: the reserve is for critical calls alone.
unfoldable pub try_acquire : ℕ → PriorityClass → ReservedBucket → ReservedBucket × Bool
unfolding refill
try_acquire now priority b =
    let filled = refill now b in
    let taken = record filled { tokens = filled.tokens - token } in
    if is_critical priority
    then (if leb token filled.tokens then (taken, true) else (filled, false))
    else (if leb token (filled.tokens - reserved_tokens filled)
        then (taken, true)
        else (filled, false))

unfoldable pub available_tokens : ℕ → PriorityClass → ReservedBucket → ReservedBucket × ℕ
unfolding refill
available_tokens now priority b =
    let filled = refill now b in
    (filled, if is_critical priority then filled.tokens else filled.tokens - reserved_tokens filled)
