-- ===== src/Resilience/Buckets/Tests.antt =====
-- Runs of the limiters by category and by endpoint, and the theorems at concrete inputs.
use inc_trade.Prelude.{◌*◌, ◌≡◌, refl, true, none, some, List, [], ◌∷◌, ℕ, ℕ_discrete}
use inc_trade.Prelude.Dict.{insert}
use inc_trade.Prelude.Result.{ok, err}
use inc_trade.Resilience.Bucket.{token, RateLimitConfig, TokenBucket, Round, acquire}
use inc_trade.Resilience.Buckets.{MultiBucket, unknown_category, acquire_in}

abbrev config : RateLimitConfig
config = record { rate_per_second = 2000; capacity = 3 }

abbrev bucket : TokenBucket
bucket = record { config = config; tokens = 2 * token; last_refill_nanos = 100 }

abbrev empty_bucket : TokenBucket
empty_bucket = record bucket { tokens = 0 }

abbrev multi : MultiBucket ℕ
multi = record { buckets = (1, bucket) ∷ (2, empty_bucket) ∷ []; categories = 1 ∷ 2 ∷ [] }

abbrev rounds : List Round
rounds = record { refilled_at = 100; checked_at = 1_000_200 } ∷ []

acquire_in_test :
    (acquire_in ℕ_discrete 1 100 rounds 2 none multi
      ≡ ok (record multi { buckets = (1, empty_bucket) ∷ (2, empty_bucket) ∷ [] }, some true))
    × (acquire_in ℕ_discrete 3 100 rounds 2 none multi ≡ err (unknown_category 3))
unfolding acquire_in acquire insert ℕ_discrete
acquire_in_test = (refl, refl)
