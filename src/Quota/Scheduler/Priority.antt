-- ===== src/Quota/Scheduler/Priority.antt =====
-- Through the scheduler, execution-critical calls find their reserve whatever the others do.
use inc_trade.Prelude.{ℕ, ◌+◌, ◌≤◌, ◌≡◌, true, false, some, List, [], ◌∷◌, arith, if_pos, if_neg}
use inc_trade.Prelude.Dict.{lookup, lookup-insert}
use inc_trade.Prelude.Result.{ok}
use inc_trade.Resilience.Bucket.{token, Round}
use inc_trade.Quota.Reserve.{
  PriorityClass, execution_critical, is_critical, ReservedBucket, reserved_tokens, try_acquire,
}
use inc_trade.Quota.Reserve.Starvation.{try_acquire-reserved, reserved-le-limit}
use inc_trade.Quota.Scheduler.{
  QuotaScheduler, max_wait, acquire_loop, Visit, get_or_default_bucket, acquire,
}

-- The bucket holds its reserve, which is a token at least.
pub record HoldsReserve (b : ReservedBucket) : Type 0 where
  pub within : b.reserved_headroom ≤ 100
  pub whole : token ≤ reserved_tokens b
  pub kept : reserved_tokens b ≤ b.tokens

try_acquire-HoldsReserve :
    (now : ℕ) (priority : PriorityClass) (b : ReservedBucket)
    → is_critical priority ≡ false
    → HoldsReserve b
    → HoldsReserve (try_acquire now priority b).0
try_acquire-HoldsReserve now priority b low h =
    let (k, c, r) = try_acquire-reserved now priority b low h.kept (reserved-le-limit b h.within) in
    record { within = rw r h.within; whole = rw (c, r) h.whole; kept = rw (c, r) k }

acquire_loop-HoldsReserve :
    (rs : List Round) (deadline : ℕ) (priority : PriorityClass) (b : ReservedBucket)
    → is_critical priority ≡ false
    → HoldsReserve b
    → HoldsReserve (acquire_loop rs deadline priority b).0
unfolding acquire_loop
acquire_loop-HoldsReserve [] deadline priority b low h = h
acquire_loop-HoldsReserve (r ∷ rs) deadline priority b low h =
    let h' = try_acquire-HoldsReserve r.refilled_at priority b low h in
    ground (
      arith,
      h',
      acquire_loop-HoldsReserve rs deadline priority (try_acquire r.refilled_at priority b).0 low
          h',
    )

try_acquire-critical :
    (now : ℕ) (b : ReservedBucket)
    → HoldsReserve b
    → (try_acquire now execution_critical b).1 ≡ true
unfolding try_acquire
try_acquire-critical now b h = ground (arith, h, reserved-le-limit b h.within)

-- A call of `acquire`.
pub record Want (K : Type 0) : Type 0 where
  pub broker : K
  pub endpoint : K
  pub priority : PriorityClass
  pub visit : Visit

module _ {K : Type 0} (dec : Discrete (K × K)) where
  pub run : List (Want K) → QuotaScheduler K → QuotaScheduler K
  run [] s = s
  run (q ∷ qs) s = run qs (acquire dec q.broker q.endpoint q.priority q.visit s).0

  -- The bucket of the pair is there and holds its reserve.
  abbrev pub Holds : K × K → QuotaScheduler K → Type 0
  Holds k s = (b : ReservedBucket) × (lookup dec k s.buckets ≡ some b) × HoldsReserve b

  -- The calls for the pair are of lower priority; those for other pairs are of any.
  abbrev pub AllLowAt : K × K → List (Want K) → Type 0
  AllLowAt k [] = Unit
  AllLowAt k (q ∷ qs) =
      ((q.broker, q.endpoint) ≡ k → is_critical q.priority ≡ false) × AllLowAt k qs

  get_or_default_bucket_known :
      (q : Want K) (s : QuotaScheduler K) {b : ReservedBucket}
      → lookup dec (q.broker, q.endpoint) s.buckets ≡ some b
      → get_or_default_bucket dec q.broker q.endpoint q.visit.created_at s ≡ b
  unfolding get_or_default_bucket
  get_or_default_bucket_known q s found = ground arith

  acquire-Holds :
      (k : K × K) (q : Want K) (s : QuotaScheduler K)
      → ((q.broker, q.endpoint) ≡ k → is_critical q.priority ≡ false)
      → Holds k s
      → Holds k (acquire dec q.broker q.endpoint q.priority q.visit s).0
  unfolding acquire
  acquire-Holds k q s low (b, found, h) = elim (dec (q.broker, q.endpoint) k) [
    | yes same ↦
        let at_pair : lookup dec (q.broker, q.endpoint) s.buckets ≡ some b = rw same found in
        let current = get_or_default_bucket dec q.broker q.endpoint q.visit.created_at s in
        let deadline = q.visit.start + max_wait q.priority in
        let holds : HoldsReserve current = rw (get_or_default_bucket_known q s at_pair) h in
        (
          (acquire_loop q.visit.rounds deadline q.priority current).0,
          rw (lookup-insert dec k (q.broker, q.endpoint))
              (if_pos (dec (q.broker, q.endpoint) k) same _ (lookup dec k s.buckets)),
          acquire_loop-HoldsReserve q.visit.rounds deadline q.priority current (low same) holds,
        )
    | no other ↦ (b, rw (lookup-insert dec k (q.broker, q.endpoint)) (rw (if_neg _ other) found), h)
  ]

  run-Holds :
      (k : K × K) (qs : List (Want K)) (s : QuotaScheduler K)
      → AllLowAt k qs
      → Holds k s
      → Holds k (run qs s)
  unfolding run
  run-Holds k [] s low h = h
  run-Holds k (q ∷ qs) s low h =
      run-Holds k qs (acquire dec q.broker q.endpoint q.priority q.visit s).0 low.1
        (acquire-Holds k q s low.0 h)

  -- Backfill and enrichment cannot starve execution. Let the bucket of a pair hold its reserve, of
  -- one token at least. After any calls of `acquire`, where those for the pair are of lower
  -- priority, a critical call for the pair is given its token in its first round.
  pub acquire-not_starved :
      (broker endpoint : K) (qs : List (Want K)) (v : Visit) (r : Round) (rs : List Round)
      (s : QuotaScheduler K)
      → AllLowAt (broker, endpoint) qs
      → Holds (broker, endpoint) s
      → v.rounds ≡ r ∷ rs
      → (acquire dec broker endpoint execution_critical v (run qs s)).1
        ≡ some (
            ok (record {
              broker_id = broker;
              endpoint_class = endpoint;
              priority_class = execution_critical;
              token_id = v.token_id;
            }))
  unfolding acquire acquire_loop
  acquire-not_starved broker endpoint qs v r rs s low h e =
      let (b, found, holds) = run-Holds (broker, endpoint) qs s low h in
      ground (
        arith,
        found,
        get_or_default_bucket_known
            (record {
              broker = broker;
              endpoint = endpoint;
              priority = execution_critical;
              visit = v;
            })
            (run qs s) found,
        try_acquire-critical r.refilled_at b holds,
      )
