-- ===== src/Quota/Scheduler.antt =====
-- `QuotaScheduler` of brokers/common/quota_scheduler.py, over any type of names with a decidable
-- equality of the pairs (broker id, endpoint class). Logging and the audit event are left out.
pub mod Outcome
pub mod Priority
use inc_trade.Prelude.{
  ℕ, ◌+◌, ◌*◌, ◌/◌, Bool, true, false, ◌||◌, Option, none, some, List, [], ◌∷◌, leb, ltb, ◌==◌,
  if◌then◌else◌,
}
use inc_trade.Prelude.Dict.{Dict, lookup, insert}
use inc_trade.Prelude.Result.{Result, ok, err}
use inc_trade.Resilience.Bucket.{token, Round, is_over}
use inc_trade.Quota.Reserve.{
  PriorityClass, execution_critical, live_stream_control, portfolio_read, historical_backfill,
  enrichment, ReservedBucket, limit, new, try_acquire, available_tokens,
}

-- The part of `RateLimitProfile` that the scheduler reads; the rates are in thousandths.
pub record RateLimitProfile (K : Type 0) : Type 0 where
  pub endpoint_class : K
  pub sustained_rps : ℕ
  pub burst_rps : Option ℕ

pub record QuotaToken (K : Type 0) : Type 0 where
  pub broker_id : K
  pub endpoint_class : K
  pub priority_class : PriorityClass
  pub token_id : ℕ

-- `QuotaExhaustedError`; `retry_after` is the time for one token, in nanoseconds, rounded down.
pub record QuotaExhausted (K : Type 0) : Type 0 where
  pub broker_id : K
  pub endpoint_class : K
  pub priority_class : PriorityClass
  pub retry_after : Option ℕ

pub record QuotaScheduler (K : Type 0) : Type 0 where
  pub reserved_headroom : ℕ
  pub buckets : Dict (K × K) ReservedBucket

-- `_MAX_WAIT`, in nanoseconds.
unfoldable pub max_wait : PriorityClass → ℕ
max_wait execution_critical = 2_000_000_000
max_wait live_stream_control = 0
max_wait portfolio_read = 5_000_000_000
max_wait historical_backfill = 60_000_000_000
max_wait enrichment = 10_000_000_000

-- `profile.burst_rps or profile.sustained_rps * 2`: a burst of 0 counts as none.
unfoldable pub burst_of : {K : Type 0} → RateLimitProfile K → ℕ
burst_of p = elim p.burst_rps [
  | none ↦ p.sustained_rps * 2
  | some burst ↦ if burst == 0 then p.sustained_rps * 2 else burst
]

-- The `while True` of `acquire`: `some true` is a token, `some false` the error, `none` a wait that
-- goes on when the readings end.
unfoldable pub acquire_loop :
    List Round → ℕ → PriorityClass → ReservedBucket → ReservedBucket × Option Bool
acquire_loop [] deadline priority b = (b, none)
acquire_loop (r ∷ rs) deadline priority b =
    let (after, taken) = try_acquire r.refilled_at priority b in
    let rest = acquire_loop rs deadline priority after in
    if taken
    then (after, some true)
    else if leb deadline r.checked_at
    then (after, some false)
    else rest

unfoldable pub retry_after : ℕ → Option ℕ
retry_after rate = if ltb 0 rate then some (token / rate) else none

-- What a call of `acquire` sees of the outside: when it starts, when a missing bucket is created,
-- the readings of its rounds, and the identifier of the token.
pub record Visit : Type 0 where
  pub start : ℕ
  pub created_at : ℕ
  pub rounds : List Round
  pub token_id : ℕ

module _ {K : Type 0} (dec : Discrete (K × K)) where
  unfoldable pub register_profile : K → RateLimitProfile K → ℕ → QuotaScheduler K → QuotaScheduler K
  unfolding burst_of
  register_profile broker p now s = record s {
    buckets =
        insert dec (broker, p.endpoint_class)
          (new p.sustained_rps (burst_of p) s.reserved_headroom now) s.buckets;
  }

  -- `_get_or_default_bucket`: 10 tokens a second and 20 at most for what nobody registered. What a
  -- call then writes to the bucket is seen in the dictionary.
  unfoldable pub get_or_default_bucket : K → K → ℕ → QuotaScheduler K → ReservedBucket
  get_or_default_bucket broker endpoint now s = elim (lookup dec (broker, endpoint) s.buckets) [
    | none ↦ new 10_000 20_000 s.reserved_headroom now
    | some bucket ↦ bucket
  ]

  pub answer :
      K → K → PriorityClass → ℕ → ReservedBucket → Bool → Result (QuotaExhausted K) (QuotaToken K)
  unfolding retry_after
  answer broker endpoint priority token_id b true = ok (record {
    broker_id = broker;
    endpoint_class = endpoint;
    priority_class = priority;
    token_id = token_id;
  })
  answer broker endpoint priority token_id b false = err (record {
    broker_id = broker;
    endpoint_class = endpoint;
    priority_class = priority;
    retry_after = retry_after b.rate;
  })

  -- `acquire`; `acquire_async` differs from it only in how it sleeps, and `borrow` calls it.
  unfoldable pub acquire :
      K
      → K
      → PriorityClass
      → Visit
      → QuotaScheduler K
      → QuotaScheduler K × Option (Result (QuotaExhausted K) (QuotaToken K))
  unfolding get_or_default_bucket answer max_wait
  acquire broker endpoint priority v s =
      let bucket = get_or_default_bucket broker endpoint v.created_at s in
      let (after, granted) = acquire_loop v.rounds (v.start + max_wait priority) priority bucket in
      (
        record s { buckets = insert dec (broker, endpoint) after s.buckets },
        (elim granted [
          | none ↦ none
          | some taken ↦ some (answer broker endpoint priority v.token_id after taken)
        ]),
      )

  -- `headroom_for`: a fraction, as numerator and denominator; the read refills the bucket.
  unfoldable pub headroom_for : K → K → ℕ → QuotaScheduler K → QuotaScheduler K × ℕ × ℕ
  headroom_for broker endpoint now s = elim (lookup dec (broker, endpoint) s.buckets) [
    | none ↦ (s, 1, 1)
    | some bucket ↦
        let (after, available) = available_tokens now historical_backfill bucket in
        (
          record s { buckets = insert dec (broker, endpoint) after s.buckets },
          if ltb 0 bucket.capacity then available else 0,
          if ltb 0 bucket.capacity then limit bucket else 1,
        )
  ]
