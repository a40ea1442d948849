-- ===== src/Quota/Metrics/Harmless.antt =====
-- What the metrics of brokers/common/quota_scheduler.py leave alone.
use inc_trade.Prelude.{
  ℕ, ◌+◌, ◌-◌, ◌*◌, ◌≤◌, ◌≡◌, ◌∙◌, ap, subst, refl, min, Option, none, some, List, [], ◌∷◌, arith,
  inl, inr, Option-cases, List-cases, Bool, true, false, if◌then◌else◌, leb, ite,
}
use inc_trade.Prelude.Dict.{Dict, lookup}
use inc_trade.Resilience.Bucket.{token, Round}
use inc_trade.Quota.Reserve.{
  is_critical, reserved_tokens, PriorityClass, ReservedBucket, limit, refill, try_acquire,
  available_tokens,
}
use inc_trade.Quota.Scheduler.{
  QuotaScheduler, Visit, max_wait, answer, acquire_loop, get_or_default_bucket, acquire,
}
use inc_trade.Quota.Metrics.{
  MetricsReadings, utilization_ratio, bucket_metrics, metrics_of, metrics_snapshot,
}

min-min : (c x y : ℕ) → min c (min c x + y) ≡ min c (x + y)
min-min c x y = ground arith

elapsed-split :
    (last early late rate : ℕ)
    → last ≤ early
    → early ≤ late
    → (late - last) * rate ≡ (early - last) * rate + (late - early) * rate
elapsed-split last early late rate p q =
    let e : late - last ≡ (early - last) + (late - early) = omega arith in
    omega (arith, ap (λ (t : ℕ). t * rate) e)

-- A refill in between changes nothing.
refill-refill :
    (early late : ℕ) (b : ReservedBucket)
    → b.last_refill ≤ early
    → early ≤ late
    → refill late (refill early b) ≡ refill late b
unfolding refill
refill-refill early late b p q =
    let added = elapsed-split b.last_refill early late b.rate p q in
    let same : min (limit b)
          (min (limit b) (b.tokens + (early - b.last_refill) * b.rate) + (late - early) * b.rate)
        ≡ min (limit b) (b.tokens + (late - b.last_refill) * b.rate) =
      min-min (limit b) (b.tokens + (early - b.last_refill) * b.rate) ((late - early) * b.rate)
      ∙ ap (λ t. min (limit b) t) (omega (arith, added)) in
    ap (λ t. record b { tokens = t; last_refill = late }) same

-- The metrics leave a bucket as two refills do.
bucket_metrics-refill :
    {K : Type 0} (k : K × K) (r : MetricsReadings) (b : ReservedBucket) (now : ℕ)
    → b.last_refill ≤ r.available_at
    → r.available_at ≤ r.utilization_at
    → r.utilization_at ≤ now
    → refill now (bucket_metrics k r b).0 ≡ refill now b
unfolding bucket_metrics available_tokens utilization_ratio
bucket_metrics-refill k r b now p q u =
    refill-refill r.utilization_at now (refill r.available_at b) q u
    ∙ refill-refill r.available_at now b p (omega arith)

-- The bucket after the metrics.
abbrev metered :
    {K : Type 0} → (K × K → MetricsReadings) → K × K → Option ReservedBucket → Option ReservedBucket
metered readings k none = none
metered readings k (some b) = some (bucket_metrics k (readings k) b).0

metered-ite :
    {K : Type 0} (readings : K × K → MetricsReadings) (j k : K × K) (b : ReservedBucket)
    (o o' : Option ReservedBucket)
    → o' ≡ metered readings k o
    → (x : Dec (j ≡ k))
    → ite x (some (bucket_metrics j (readings j) b).0) o' ≡ metered readings k (ite x (some b) o)
metered-ite readings j k b o o' e (yes y) = ap (λ i. some (bucket_metrics i (readings i) b).0) y
metered-ite readings j k b o o' e (no n) = e

lookup-metrics_of :
    {K : Type 0} (dec : Discrete (K × K)) (readings : K × K → MetricsReadings) (k : K × K)
    (d : Dict (K × K) ReservedBucket)
    → lookup dec k (metrics_of readings d).0 ≡ metered readings k (lookup dec k d)
unfolding metrics_of
lookup-metrics_of dec readings k [] = refl
lookup-metrics_of dec readings k (e ∷ d) =
    metered-ite readings e.0 k e.1 (lookup dec k d) (lookup dec k (metrics_of readings d).0)
      (lookup-metrics_of dec readings k d) (dec e.0 k)

-- The first round comes no earlier.
abbrev pub IsLater : ℕ → List Round → Type 0
IsLater t [] = Unit
IsLater t (r ∷ rs) = t ≤ r.refilled_at

abbrev take_filled : PriorityClass → ReservedBucket → ReservedBucket × Bool
take_filled priority filled =
    let taken = record filled { tokens = filled.tokens - token } in
    if is_critical priority
    then (if leb token filled.tokens then (taken, true) else (filled, false))
    else (if leb token (filled.tokens - reserved_tokens filled)
        then (taken, true)
        else (filled, false))

try_acquire-refill :
    (now : ℕ) (priority : PriorityClass) (b b' : ReservedBucket)
    → refill now b' ≡ refill now b
    → try_acquire now priority b' ≡ try_acquire now priority b
unfolding try_acquire
try_acquire-refill now priority b b' e = ap (take_filled priority) e

acquire_loop-refill :
    (r : Round) (rs : List Round) (t deadline : ℕ) (priority : PriorityClass)
    (b b' : ReservedBucket)
    → t ≤ r.refilled_at
    → ((now : ℕ) → t ≤ now → refill now b' ≡ refill now b)
    → acquire_loop (r ∷ rs) deadline priority b' ≡ acquire_loop (r ∷ rs) deadline priority b
unfolding acquire_loop
acquire_loop-refill r rs t deadline priority b b' later same =
    rw (try_acquire-refill r.refilled_at priority b b' (same r.refilled_at later)) refl

module _ {K : Type 0} (dec : Discrete (K × K)) (readings : K × K → MetricsReadings)
    (broker endpoint : K) where
  -- The bucket that a call finds behind the metrics.
  found-refill :
      (created : ℕ) (s : QuotaScheduler K)
      → let r = readings (broker, endpoint) in
        ((b : ReservedBucket)
          → lookup dec (broker, endpoint) s.buckets ≡ some b
          → b.last_refill ≤ r.available_at)
        → r.available_at ≤ r.utilization_at
        → (now : ℕ) → r.utilization_at ≤ now
        → refill now
            (get_or_default_bucket dec broker endpoint created (metrics_snapshot readings s).0)
          ≡ refill now (get_or_default_bucket dec broker endpoint created s)
  unfolding get_or_default_bucket metrics_snapshot
  found-refill created s past order now later =
      let met = lookup-metrics_of dec readings (broker, endpoint) s.buckets in
      elim (Option-cases (lookup dec (broker, endpoint) s.buckets)) [
        | inl e ↦ rw (get_or_default_bucket, met, e) refl
        | inr (b, e) ↦
            rw (get_or_default_bucket, met, e)
              (bucket_metrics-refill (broker, endpoint) (readings (broker, endpoint)) b now
                (past b e) order later)
      ]

  acquire-found :
      (priority : PriorityClass) (v : Visit) (t : ℕ) (s s' : QuotaScheduler K)
      → IsLater t v.rounds
      → ((now : ℕ)
          → t ≤ now
          → refill now (get_or_default_bucket dec broker endpoint v.created_at s')
            ≡ refill now (get_or_default_bucket dec broker endpoint v.created_at s))
      → (acquire dec broker endpoint priority v s').1 ≡ (acquire dec broker endpoint priority v s).1
  unfolding acquire acquire_loop
  acquire-found priority v t s s' later same = elim (List-cases v.rounds) [
    | inl e ↦ rw (acquire, e) refl
    | inr (r, rs, e) ↦
        let deadline = v.start + max_wait priority in
        let found = get_or_default_bucket dec broker endpoint v.created_at s in
        let found' = get_or_default_bucket dec broker endpoint v.created_at s' in
        let loop : acquire_loop v.rounds deadline priority found'
            ≡ acquire_loop v.rounds deadline priority found =
          rw e (
            acquire_loop-refill r rs t deadline priority found found' (subst (IsLater t) e later)
              same) in
        ap
          (λ x. elim x.1 [
            | none ↦ none
            | some taken ↦ some (answer dec broker endpoint priority v.token_id x.0 taken)
          ])
          loop
  ]

  -- A snapshot of the metrics before a call of `acquire` leaves the answer of the call as it is, if the
  -- clock does not go back.
  pub metrics_snapshot-harmless :
      (priority : PriorityClass) (v : Visit) (s : QuotaScheduler K)
      → let r = readings (broker, endpoint) in
        ((b : ReservedBucket)
          → lookup dec (broker, endpoint) s.buckets ≡ some b
          → b.last_refill ≤ r.available_at)
        → r.available_at ≤ r.utilization_at
        → IsLater r.utilization_at v.rounds
        → (acquire dec broker endpoint priority v (metrics_snapshot readings s).0).1
          ≡ (acquire dec broker endpoint priority v s).1
  metrics_snapshot-harmless priority v s past order later =
      acquire-found priority v (readings (broker, endpoint)).utilization_at s
        (metrics_snapshot readings s).0 later (found-refill v.created_at s past order)
