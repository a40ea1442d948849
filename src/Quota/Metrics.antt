-- ===== src/Quota/Metrics.antt =====
-- `utilization_ratio`, `metrics_snapshot`, `release` and `borrow` of brokers/common/quota_scheduler.py. A
-- fraction is its numerator and its denominator.
pub mod Harmless
use inc_trade.Prelude.{ℕ, ◌-◌, Option, none, some, List, [], ◌∷◌, ltb, if◌then◌else◌}
use inc_trade.Prelude.Dict.{Dict}
use inc_trade.Prelude.Result.{Result, ok, err}
use inc_trade.Quota.Reserve.{
  PriorityClass, historical_backfill, ReservedBucket, limit, refill, available_tokens,
}
use inc_trade.Quota.Scheduler.{QuotaScheduler, QuotaToken, QuotaExhausted, Visit, acquire}

-- `QuotaBucketMetrics`
pub record QuotaBucketMetrics (K : Type 0) : Type 0 where
  pub broker_id : K
  pub endpoint_class : K
  pub tokens_available : ℕ
  pub capacity : ℕ
  pub utilization_ratio : ℕ × ℕ
  pub sustained_rate : ℕ

-- The share of the capacity that is used up; the read refills the bucket.
unfoldable pub utilization_ratio : ℕ → ReservedBucket → ReservedBucket × (ℕ × ℕ)
unfolding refill
utilization_ratio now b =
    let filled = refill now b in
    (filled, if ltb 0 filled.capacity then (limit filled - filled.tokens, limit filled) else (1, 1))

-- The two readings of the clock for a bucket.
pub record MetricsReadings : Type 0 where
  pub available_at : ℕ
  pub utilization_at : ℕ

unfoldable pub bucket_metrics :
    {K : Type 0} → K × K → MetricsReadings → ReservedBucket → ReservedBucket × QuotaBucketMetrics K
unfolding available_tokens utilization_ratio
bucket_metrics (broker, endpoint) r b =
    let (b1, available) = available_tokens r.available_at historical_backfill b in
    let (b2, ratio) = utilization_ratio r.utilization_at b1 in
    (
      b2,
      record {
        broker_id = broker;
        endpoint_class = endpoint;
        tokens_available = available;
        capacity = b.capacity;
        utilization_ratio = ratio;
        sustained_rate = b.rate;
      },
    )

module _ {K : Type 0} (readings : K × K → MetricsReadings) where
  -- The loop over the buckets, each of which it refills.
  unfoldable pub metrics_of :
      Dict (K × K) ReservedBucket → Dict (K × K) ReservedBucket × List (QuotaBucketMetrics K)
  unfolding bucket_metrics
  metrics_of [] = ([], [])
  metrics_of (e ∷ d) =
      let (b, m) = bucket_metrics e.0 (readings e.0) e.1 in
      let (d', ms) = metrics_of d in ((e.0, b) ∷ d', m ∷ ms)

  unfoldable pub metrics_snapshot :
      QuotaScheduler K → QuotaScheduler K × List (QuotaBucketMetrics K)
  unfolding metrics_of
  metrics_snapshot s =
      let (buckets, ms) = metrics_of s.buckets in (record s { buckets = buckets }, ms)

-- `release` does nothing.
abbrev pub release : {K : Type 0} → QuotaToken K → QuotaScheduler K → QuotaScheduler K
release t s = s

-- `async with scheduler.borrow(…) as token:` around a body, which may use the scheduler itself. Without a token
-- there is no body; `none` waits on.
unfoldable pub borrow :
    {K A : Type 0}
    → Discrete (K × K)
    → K
    → K
    → PriorityClass
    → Visit
    → (QuotaToken K → QuotaScheduler K → QuotaScheduler K × A)
    → QuotaScheduler K
    → QuotaScheduler K × Option (Result (QuotaExhausted K) A)
unfolding acquire
borrow dec broker endpoint priority v body s =
    let (after, answer) = acquire dec broker endpoint priority v s in
    elim answer [
      | none ↦ (after, none)
      | some (err e) ↦ (after, some (err e))
      | some (ok t) ↦ let (done, a) = body t after in (release t done, some (ok a))
    ]
