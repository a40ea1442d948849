-- ===== src/Quota/MetricsTests.antt =====
-- A snapshot of the metrics on a small input, and its theorem there.
use inc_trade.Prelude.{ℕ, ◌+◌, ◌-◌, ◌*◌, ◌≤◌, ◌≡◌, refl, some, [], ◌∷◌, arith, ℕ_discrete}
use inc_trade.Prelude.Dict.{lookup}
use inc_trade.Resilience.Bucket.{token}
use inc_trade.Quota.Reserve.{enrichment, ReservedBucket, available_tokens}
use inc_trade.Quota.Scheduler.{QuotaScheduler, Visit, acquire}
use inc_trade.Quota.Metrics.{
  QuotaBucketMetrics, MetricsReadings, utilization_ratio, bucket_metrics, metrics_of,
  metrics_snapshot,
}
use inc_trade.Quota.Metrics.Harmless.{metrics_snapshot-harmless}

pair_discrete : Discrete (ℕ × ℕ)
pair_discrete = hlevel ℕ_discrete

-- Ten of twenty tokens.
abbrev bucket : ReservedBucket
bucket = record {
  rate = 10_000;
  capacity = 20_000;
  reserved_headroom = 20;
  tokens = 10 * token;
  last_refill = 100;
}

abbrev scheduler : QuotaScheduler ℕ
scheduler = record { reserved_headroom = 20; buckets = ((1, 7), bucket) ∷ [] }

abbrev readings : ℕ × ℕ → MetricsReadings
readings k = record { available_at = 200; utilization_at = 300 }

abbrev visit : Visit
visit = record {
  start = 300;
  created_at = 300;
  rounds = record { refilled_at = 400; checked_at = 400 } ∷ [];
  token_id = 5;
}

abbrev metrics : QuotaBucketMetrics ℕ
metrics = record {
  broker_id = 1;
  endpoint_class = 7;
  tokens_available = 6 * token + 1_000_000;
  capacity = 20_000;
  utilization_ratio = (10 * token - 2_000_000, 20 * token);
  sustained_rate = 10_000;
}

metrics_test : (metrics_snapshot readings scheduler).1 ≡ metrics ∷ []
unfolding metrics_snapshot metrics_of bucket_metrics available_tokens utilization_ratio
metrics_test = refl

bucket_is_past :
    (b : ReservedBucket)
    → lookup pair_discrete (1, 7) scheduler.buckets ≡ some b
    → b.last_refill ≤ 200
unfolding pair_discrete ℕ_discrete
bucket_is_past b e = ground arith

metrics_snapshot-harmless_example :
    (acquire pair_discrete 1 7 enrichment visit (metrics_snapshot readings scheduler).0).1
    ≡ (acquire pair_discrete 1 7 enrichment visit scheduler).1
metrics_snapshot-harmless_example =
    metrics_snapshot-harmless pair_discrete readings 1 7 enrichment visit scheduler bucket_is_past
      (omega arith) (omega arith)
