-- ===== src/Resilience/Buckets.antt =====
-- `MultiBucketRateLimiter` and `EndpointRateLimiter` of brokers/common/resilience/rate_limiter.py,
-- over any type of category names with a decidable equality. A factor is in thousandths, and the
-- scaled rate is rounded down to a thousandth of a token per second.
pub mod Uniform
mod Tests
use inc_trade.Prelude.{
  ℕ, ◌*◌, ◌/◌, Bool, true, false, Option, none, some, List, [], ◌∷◌, if◌then◌else◌,
}
use inc_trade.Prelude.Dict.{Dict, keys, lookup, contains, insert}
use inc_trade.Prelude.Result.{Result, ok, err, ◌>>=◌}
use inc_trade.Resilience.Bucket.{RateLimitConfig, TokenBucket, new, set_rate, Round, acquire}

-- The `ValueError` of an unknown category.
pub data CategoryError {ℓ} (K : Type ℓ) : Type ℓ where
  unknown_category : K → CategoryError K

-- `MultiBucketRateLimiter`: `_buckets` and `_categories`.
pub record MultiBucket (K : Type 0) : Type 0 where
  pub buckets : Dict K TokenBucket
  pub categories : List K

module _ {K : Type 0} (dec : Discrete K) where
  -- The loop of `__init__`.
  pub fill_buckets : ℕ → Dict K RateLimitConfig → Dict K TokenBucket → Dict K TokenBucket
  fill_buckets now [] d = d
  fill_buckets now (e ∷ cs) d = fill_buckets now cs (insert dec e.0 (new e.1 now) d)

  pub new_multi : ℕ → Dict K RateLimitConfig → MultiBucket K
  new_multi now configs = record {
    buckets = fill_buckets now configs [];
    categories = keys configs;
  }

  unfoldable pub get_bucket : K → MultiBucket K → Result (CategoryError K) TokenBucket
  get_bucket category m = elim (lookup dec category m.buckets) [
    | none ↦ err (unknown_category category)
    | some bucket ↦ ok bucket
  ]

  -- The bucket is an object in the dictionary: what a call writes to it is seen there.
  abbrev put_back : K → TokenBucket → MultiBucket K → MultiBucket K
  put_back category b m = record m { buckets = insert dec category b m.buckets }

  -- `acquire`, and `acquire_async`, of a category.
  unfoldable pub acquire_in :
      K
      → ℕ
      → List Round
      → ℕ
      → Option ℕ
      → MultiBucket K
      → Result (CategoryError K) (MultiBucket K × Option Bool)
  acquire_in category start rounds wanted timeout m = elim (lookup dec category m.buckets) [
    | none ↦ err (unknown_category category)
    | some bucket ↦
        let (after, answer) = acquire start rounds wanted timeout bucket in
        ok (put_back category after m, answer)
  ]

  -- `reduce_rate`; `increase_rate` is the same function.
  unfoldable pub scale_rate : K → ℕ → MultiBucket K → Result (CategoryError K) (MultiBucket K)
  unfolding get_bucket
  scale_rate category factor m = do
    bucket ← get_bucket category m
    ok (put_back category (set_rate (bucket.config.rate_per_second * factor / 1000) bucket) m)

abbrev pub returned : Option Bool → Option (Unit {0})
returned none = none
returned (some _) = some tt

-- `EndpointRateLimiter`.
pub record Endpoints (K : Type 0) : Type 0 where
  pub multi : MultiBucket K
  pub rate_per_second : ℕ
  pub capacity : ℕ

module _ {K : Type 0} (dec : Discrete K) where
  -- `__init__`, with the name of the first bucket.
  pub new_endpoints : K → ℕ → ℕ → ℕ → Endpoints K
  new_endpoints default now rate capacity = record {
    multi =
        new_multi dec now ((default, record { rate_per_second = rate; capacity = capacity }) ∷ []);
    rate_per_second = rate;
    capacity = capacity;
  }

  -- The first lines of `acquire`: a bucket for an endpoint that has none.
  abbrev pub with_bucket : K → ℕ → Endpoints K → MultiBucket K
  with_bucket endpoint now e =
      if contains dec endpoint (e.multi).buckets
      then e.multi
      else put_back dec endpoint
          (new (record { rate_per_second = e.rate_per_second; capacity = e.capacity }) now) e.multi

  -- `acquire`, which drops the answer of the bucket; `none` means that it still waits.
  unfoldable pub acquire_endpoint :
      K
      → ℕ
      → List Round
      → Option ℕ
      → Endpoints K
      → Result (CategoryError K) (Endpoints K × Option (Unit {0}))
  acquire_endpoint endpoint now rounds timeout e = do
    (m, answer) ← acquire_in dec endpoint now rounds 1 timeout (with_bucket endpoint now e)
    ok (record e { multi = m }, returned answer)

  -- The setter of `rate`, which also sets the rate of every bucket.
  set_rates : ℕ → Dict K TokenBucket → Dict K TokenBucket
  set_rates value [] = []
  set_rates value (e ∷ d) = (e.0, set_rate value e.1) ∷ set_rates value d

  unfoldable pub set_endpoint_rate : ℕ → Endpoints K → Endpoints K
  unfolding set_rates
  set_endpoint_rate value e = record e {
    multi = record (e.multi) { buckets = set_rates value (e.multi).buckets };
    rate_per_second = value;
  }
