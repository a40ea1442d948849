-- ===== src/Quota/Tests.antt =====
-- Runs of the quota scheduler, and the theorems at concrete inputs.
use inc_trade.Prelude.{ℕ, ◌*◌, ◌≡◌, ◌≢◌, refl, none, some, List, [], ◌∷◌, arith, ℕ_discrete}
use inc_trade.Prelude.Result.{ok}
use inc_trade.Resilience.Bucket.{token}
use inc_trade.Quota.Reserve.{
  execution_critical, live_stream_control, historical_backfill, enrichment, ReservedBucket,
  reserved_tokens, try_acquire, available_tokens,
}
use inc_trade.Quota.Scheduler.{
  RateLimitProfile, QuotaScheduler, Visit, max_wait, acquire_loop, acquire, headroom_for,
}
use inc_trade.Quota.Scheduler.Outcome.{acquire-answers}
use inc_trade.Quota.Scheduler.Priority.{Want, run, acquire-not_starved}

pair_discrete : Discrete (ℕ × ℕ)
pair_discrete = hlevel ℕ_discrete

-- Twenty tokens, four of them in reserve.
abbrev bucket : ReservedBucket
bucket = record {
  rate = 10_000;
  capacity = 20_000;
  reserved_headroom = 20;
  tokens = 20 * token;
  last_refill = 100;
}

reserve_test :
    (reserved_tokens bucket ≡ 4 * token)
    × ((available_tokens 100 historical_backfill bucket).1 ≡ 16 * token)
    × ((available_tokens 100 execution_critical bucket).1 ≡ 20 * token)
unfolding available_tokens try_acquire
reserve_test = (refl, refl, refl)

abbrev scheduler : QuotaScheduler ℕ
scheduler = record { reserved_headroom = 20; buckets = ((1, 7), bucket) ∷ [] }

abbrev visit : Visit
visit = record {
  start = 100;
  created_at = 100;
  rounds = record { refilled_at = 100; checked_at = 100 } ∷ [];
  token_id = 5;
}

abbrev profile : RateLimitProfile ℕ
profile = record { endpoint_class = 7; sustained_rps = 25_000; burst_rps = none }

scheduler_test :
    ((acquire pair_discrete 1 7 enrichment visit scheduler).1
      ≡ some (
          ok (record {
            broker_id = 1;
            endpoint_class = 7;
            priority_class = enrichment;
            token_id = 5;
          })))
    × ((headroom_for pair_discrete 9 9 100 scheduler).1 ≡ 1)
unfolding acquire acquire_loop try_acquire headroom_for pair_discrete ℕ_discrete
scheduler_test = (refl, refl)

acquire-answers_example : (acquire pair_discrete 1 7 live_stream_control visit scheduler).1 ≢ none
unfolding max_wait
acquire-answers_example =
    acquire-answers pair_discrete 1 7 live_stream_control visit scheduler
      (record { refilled_at = 100; checked_at = 100 }) [] refl (omega arith) (omega arith)

abbrev wants : List (Want ℕ)
wants =
    record { broker = 1; endpoint = 7; priority = enrichment; visit = visit }
    ∷ record { broker = 2; endpoint = 7; priority = execution_critical; visit = visit }
    ∷ []

acquire-not_starved_example :
    (acquire pair_discrete 1 7 execution_critical visit (run pair_discrete wants scheduler)).1
    ≡ some (
        ok (record {
          broker_id = 1;
          endpoint_class = 7;
          priority_class = execution_critical;
          token_id = 5;
        }))
unfolding pair_discrete ℕ_discrete
acquire-not_starved_example =
    acquire-not_starved pair_discrete 1 7 wants visit
      (record { refilled_at = 100; checked_at = 100 }) [] scheduler
      ((λ e. refl), ((λ e. absurd (cc)), tt))
      (bucket, refl, record { within = omega arith; whole = omega arith; kept = omega arith }) refl
