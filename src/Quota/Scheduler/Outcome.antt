-- ===== src/Quota/Scheduler/Outcome.antt =====
-- How a call of the scheduler ends, and what it touches.
use inc_trade.Prelude.{ℕ, ◌+◌, ◌*◌, ◌≤◌, min, ◌≡◌, ◌≢◌, none, List, [], ◌∷◌, length, arith}
use inc_trade.Resilience.Bucket.{Round}
use inc_trade.Quota.Reserve.{PriorityClass, ReservedBucket, try_acquire}
use inc_trade.Quota.Scheduler.{
  QuotaScheduler, max_wait, acquire_loop, Visit, get_or_default_bucket, acquire,
}

-- `_WAIT_INTERVALS_S`, in nanoseconds.
abbrev pub wait_interval : ℕ
wait_interval = 50_000_000

-- Each round reads the clock against the deadline no earlier than the sleep of the round before it
-- ends: the interval, or what remains up to the deadline if that is less.
abbrev pub IsPaced : ℕ → ℕ → List Round → Type 0
IsPaced deadline start [] = Unit
IsPaced deadline start (r ∷ rs) =
    (start ≤ r.checked_at) × IsPaced deadline (min (r.checked_at + wait_interval) deadline) rs

acquire_loop-ends :
    (r : Round) (rs : List Round) (start deadline : ℕ) (priority : PriorityClass)
    (b : ReservedBucket)
    → IsPaced deadline start (r ∷ rs)
    → deadline ≤ start + length rs * wait_interval
    → (acquire_loop (r ∷ rs) deadline priority b).1 ≢ none
unfolding acquire_loop
acquire_loop-ends r [] start deadline priority b paced long = ground arith
acquire_loop-ends r (q ∷ rs) start deadline priority b paced long = ground (
  arith,
  acquire_loop-ends q rs (min (r.checked_at + wait_interval) deadline) deadline priority
      (try_acquire r.refilled_at priority b).0 paced.1 (omega arith),
)

module _ {K : Type 0} (dec : Discrete (K × K)) where
  -- `acquire` answers, with a token or the error, after as many waits as fit into the longest wait
  -- of the priority and one round more, so for live stream control in its first round.
  pub acquire-answers :
      (broker endpoint : K) (priority : PriorityClass) (v : Visit) (s : QuotaScheduler K)
      (r : Round) (rs : List Round)
      → v.rounds ≡ r ∷ rs
      → IsPaced (v.start + max_wait priority) v.start (r ∷ rs)
      → max_wait priority ≤ length rs * wait_interval
      → (acquire dec broker endpoint priority v s).1 ≢ none
  unfolding acquire
  acquire-answers broker endpoint priority v s r rs e paced long = ground (
    arith,
    acquire_loop-ends r rs v.start (v.start + max_wait priority) priority
        (get_or_default_bucket dec broker endpoint v.created_at s) paced (omega arith),
  )
