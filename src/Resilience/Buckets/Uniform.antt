-- ===== src/Resilience/Buckets/Uniform.antt =====
-- The limiter by endpoint keeps one rate and one capacity for all endpoints.
use inc_trade.Prelude.{
  ℕ, ◌≡◌, refl, ◌∙◌, false, Option, some, List, [], ◌∷◌, inl, inr, arith, Option-cases,
}
use inc_trade.Prelude.Dict.{Dict, lookup, insert, lookup-insert_self}
use inc_trade.Prelude.Result.{Result, ok, ◌>>=◌}
use inc_trade.Resilience.Bucket.{RateLimitConfig, TokenBucket, new, set_rate, Round, acquire}
use inc_trade.Resilience.Bucket.Conserves.{acquire-config}
use inc_trade.Resilience.Buckets.{
  MultiBucket, CategoryError, returned, acquire_in, with_bucket, Endpoints, new_endpoints,
  acquire_endpoint, set_rates, set_endpoint_rate, new_multi, fill_buckets,
}

-- Every bucket is configured so.
abbrev pub AllSet : {K : Type 0} → RateLimitConfig → Dict K TokenBucket → Type 0
AllSet c [] = Unit
AllSet c (e ∷ d) = ((e.1).config ≡ c) × AllSet c d

abbrev pub config_of : {K : Type 0} → Endpoints K → RateLimitConfig
config_of e = record { rate_per_second = e.rate_per_second; capacity = e.capacity }

abbrev pub IsUniform : {K : Type 0} → Endpoints K → Type 0
IsUniform e = AllSet (config_of e) (e.multi).buckets

module _ {K : Type 0} (dec : Discrete K) where
  AllSet-insert :
      (c : RateLimitConfig) (k : K) (b : TokenBucket) (d : Dict K TokenBucket)
      → b.config ≡ c
      → AllSet c d
      → AllSet c (insert dec k b d)
  unfolding insert
  AllSet-insert c k b [] h a = (h, tt)
  AllSet-insert c k b (e ∷ d) h a = ground (arith, AllSet-insert c k b d h a.1)

  AllSet-lookup :
      (c : RateLimitConfig) (k : K) (b : TokenBucket) (d : Dict K TokenBucket)
      → AllSet c d
      → lookup dec k d ≡ some b
      → b.config ≡ c
  AllSet-lookup c k b [] a h = absurd (cc)
  AllSet-lookup c k b (e ∷ d) a h = ground (arith, AllSet-lookup c k b d a.1)

  AllSet-set_rates :
      (value capacity rate : ℕ) (d : Dict K TokenBucket)
      → AllSet (record { rate_per_second = rate; capacity = capacity }) d
      → AllSet (record { rate_per_second = value; capacity = capacity }) (set_rates dec value d)
  unfolding set_rates set_rate
  AllSet-set_rates value capacity rate [] a = tt
  AllSet-set_rates value capacity rate (e ∷ d) a =
      (ground arith, AllSet-set_rates value capacity rate d a.1)

  new_endpoints-IsUniform :
      (default : K) (now rate capacity : ℕ)
      → IsUniform (new_endpoints dec default now rate capacity)
  unfolding new_endpoints new_multi fill_buckets insert new
  new_endpoints-IsUniform default now rate capacity = (refl, tt)

  with_bucket-AllSet :
      (endpoint : K) (now : ℕ) (e : Endpoints K)
      → IsUniform e
      → AllSet (config_of e) (with_bucket dec endpoint now e).buckets
  unfolding new
  with_bucket-AllSet endpoint now e u =
      ground (
        arith,
        AllSet-insert (config_of e) endpoint (new (config_of e) now) (e.multi).buckets refl u,
      )

  with_bucket-lookup :
      (endpoint : K) (now : ℕ) (e : Endpoints K)
      → (b : TokenBucket) × (lookup dec endpoint (with_bucket dec endpoint now e).buckets ≡ some b)
  with_bucket-lookup endpoint now e = elim (Option-cases (lookup dec endpoint (e.multi).buckets)) [
    | inl missing ↦ (
      new (config_of e) now,
      rw missing (lookup-insert_self dec endpoint (new (config_of e) now) (e.multi).buckets),
    )
    | inr (b, found) ↦ (b, rw found found)
  ]

  acquire_endpoint-IsUniform :
      (endpoint : K) (now : ℕ) (rounds : List Round) (timeout : Option ℕ) (e : Endpoints K)
      → IsUniform e
      → (e' : Endpoints K) × (answer : Option (Unit {0})) × (acquire_endpoint dec endpoint now
            rounds timeout e
          ≡ ok (e', answer))
        × IsUniform e'
  unfolding acquire_endpoint acquire_in
  acquire_endpoint-IsUniform endpoint now rounds timeout e u =
      let (b, found) = with_bucket-lookup endpoint now e in
      let before : MultiBucket K = with_bucket dec endpoint now e in
      let all = with_bucket-AllSet endpoint now e u in
      let (after, answer) = acquire now rounds 1 timeout b in
      (
        record e { multi = record before { buckets = insert dec endpoint after before.buckets } },
        returned answer,
        ground (arith, found),
        AllSet-insert (config_of e) endpoint after before.buckets
            (acquire-config now rounds 1 timeout b
              ∙ AllSet-lookup (config_of e) endpoint b before.buckets all found)
            all,
      )

  pub data Call : Type 0 where
    wants : K → ℕ → List Round → Option ℕ → Call
    sets_rate : ℕ → Call

  pub run : List Call → Endpoints K → Result (CategoryError K) (Endpoints K)
  run [] e = ok e
  run (wants endpoint now rounds timeout ∷ cs) e = do
    (e', answer) ← acquire_endpoint dec endpoint now rounds timeout e
    run cs e'
  run (sets_rate value ∷ cs) e = run cs (set_endpoint_rate dec value e)

  run-IsUniform_from :
      (cs : List Call) (e : Endpoints K)
      → IsUniform e
      → (e' : Endpoints K) × (run cs e ≡ ok e') × IsUniform e'
  unfolding run
  run-IsUniform_from [] e u = (e, refl, u)
  run-IsUniform_from (wants endpoint now rounds timeout ∷ cs) e u =
      let (e', answer, done, u') = acquire_endpoint-IsUniform endpoint now rounds timeout e u in
      rw done (run-IsUniform_from cs e' u')
  run-IsUniform_from (sets_rate value ∷ cs) e u =
      run-IsUniform_from cs (set_endpoint_rate dec value e) (
        unfold set_endpoint_rate in
        AllSet-set_rates value e.capacity e.rate_per_second (e.multi).buckets u)

  -- No call for an endpoint and no change of the rate raises, and after any of them the bucket of
  -- every endpoint has the limiter's rate and capacity.
  pub run-IsUniform :
      (default : K) (now rate capacity : ℕ) (cs : List Call)
      → (e' : Endpoints K) × (run cs (new_endpoints dec default now rate capacity) ≡ ok e')
        × IsUniform e'
  run-IsUniform default now rate capacity cs =
      run-IsUniform_from cs (new_endpoints dec default now rate capacity)
        (new_endpoints-IsUniform default now rate capacity)

  -- A call that the bucket refuses when its timeout is over returns as one that it grants: the
  -- caller of the limiter by endpoint cannot tell them apart.
  pub acquire_endpoint-refused :
      (endpoint : K) (now : ℕ) (rounds : List Round) (timeout : Option ℕ) (e : Endpoints K)
      (b : TokenBucket)
      → lookup dec endpoint (e.multi).buckets ≡ some b
      → (acquire now rounds 1 timeout b).1 ≡ some false
      → (e' : Endpoints K) × (acquire_endpoint dec endpoint now rounds timeout e ≡ ok (e', some tt))
  unfolding acquire_endpoint acquire_in
  acquire_endpoint-refused endpoint now rounds timeout e b found refused =
      let after = (acquire now rounds 1 timeout b).0 in
      (
        record e {
          multi = record (e.multi) { buckets = insert dec endpoint after (e.multi).buckets };
        },
        ground arith,
      )
