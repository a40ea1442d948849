-- ===== src/Resilience/Bucket/Waits.antt =====
-- How the waiting of `acquire` ends.
use inc_trade.Prelude.{
  ℕ, ◌+◌, ◌*◌, ◌≤◌, ◌<◌, ◌≡◌, ◌≢◌, refl, true, false, Option, none, some, List, [], ◌∷◌, All,
  length, arith, inl, inr, Bool-cases,
}
use inc_trade.Resilience.Bucket.{
  token, TokenBucket, full, refill, try_take, Round, is_over, sleep_time, deadline_of, acquire_loop,
  acquire,
}
use inc_trade.Resilience.Bucket.Conserves.{sub-mul}

-- The readings by `_refill` do not go back, from `last` on.
abbrev pub IsInOrder : ℕ → List Round → Type 0
IsInOrder last [] = Unit
IsInOrder last (r ∷ rs) = (last ≤ r.refilled_at) × IsInOrder r.refilled_at rs

abbrev pub last_reading : ℕ → List Round → ℕ
last_reading last [] = last
last_reading last (r ∷ rs) = last_reading r.refilled_at rs

-- A round that fails has added all that came in.
try_take_fails :
    (now wanted : ℕ) (b : TokenBucket)
    → b.last_refill_nanos ≤ now
    → wanted * token ≤ full b.config
    → (try_take now wanted b).1 ≡ false
    → let after = (try_take now wanted b).0 in
      (after.tokens + b.last_refill_nanos * b.config.rate_per_second
        ≡ b.tokens + now * b.config.rate_per_second)
      × (after.tokens < wanted * token)
      × (after.last_refill_nanos ≡ now)
      × (after.config ≡ b.config)
unfolding try_take refill
try_take_fails now wanted b le fits h =
    ground (arith, sub-mul now b.last_refill_nanos b.config.rate_per_second)

acquire_loop-succeeds_from :
    (r : Round) (rs : List Round) (deadline : Option ℕ) (wanted : ℕ) (b : TokenBucket)
    → IsInOrder b.last_refill_nanos (r ∷ rs)
    → All (λ q. is_over deadline q.checked_at ≡ false) (r ∷ rs)
    → wanted * token ≤ full b.config
    → wanted * token + b.last_refill_nanos * b.config.rate_per_second
      ≤ b.tokens + last_reading b.last_refill_nanos (r ∷ rs) * b.config.rate_per_second
    → (acquire_loop (r ∷ rs) deadline wanted b).1 ≡ some true
unfolding acquire_loop
acquire_loop-succeeds_from r [] deadline wanted b order early fits enough =
    ground (arith, try_take_fails r.refilled_at wanted b order.0 fits)
acquire_loop-succeeds_from r (q ∷ rs) deadline wanted b order early fits enough =
    elim (Bool-cases (try_take r.refilled_at wanted b).1) [
      | inl taken ↦ ground arith
      | inr failed ↦
          let (added, short, at, same) =
            try_take_fails r.refilled_at wanted b order.0 fits failed in
          ground (
            arith,
            acquire_loop-succeeds_from q rs deadline wanted (try_take r.refilled_at wanted b).0
                (rw at order.1) early.1 (rw same fits) (rw (at, same) (omega arith)),
          )
    ]

-- `acquire` is granted no later than the round whose reading of the clock shows that enough has
-- come in, if the readings do not go back, the deadline has not passed and the capacity allows it.
pub acquire-succeeds :
    (start : ℕ) (r : Round) (rs : List Round) (wanted : ℕ) (timeout : Option ℕ) (b : TokenBucket)
    → IsInOrder b.last_refill_nanos (r ∷ rs)
    → All (λ q. is_over (deadline_of start timeout) q.checked_at ≡ false) (r ∷ rs)
    → wanted ≤ b.config.capacity
    → wanted * token + b.last_refill_nanos * b.config.rate_per_second
      ≤ b.tokens + last_reading b.last_refill_nanos (r ∷ rs) * b.config.rate_per_second
    → (acquire start (r ∷ rs) wanted timeout b).1 ≡ some true
unfolding acquire
acquire-succeeds start r rs wanted timeout b order early fits enough = ground (
  arith,
  acquire_loop-succeeds_from r rs (deadline_of start timeout) wanted b order early (omega arith)
      enough,
)

-- Each round reads the clock no earlier than the sleep of the round before it ends.
abbrev pub IsPaced : ℕ → ℕ → List Round → Type 0
IsPaced pause start [] = Unit
IsPaced pause start (r ∷ rs) = (start ≤ r.checked_at) × IsPaced pause (r.checked_at + pause) rs

pub le-sleep_time : (timeout : Option ℕ) (b : TokenBucket) → 1_000_000 ≤ sleep_time timeout b
unfolding sleep_time
le-sleep_time timeout b = omega arith

acquire_loop-ends :
    (rs : List Round) (pause start deadline wanted : ℕ) (b : TokenBucket)
    → 1_000_000 ≤ pause
    → IsPaced pause start rs
    → deadline + 1_000_000 ≤ start + length rs * 1_000_000
    → rs ≢ []
    → (acquire_loop rs (some deadline) wanted b).1 ≢ none
unfolding acquire_loop
acquire_loop-ends [] pause start deadline wanted b wide paced long some_round =
    absurd (some_round refl)
acquire_loop-ends (r ∷ []) pause start deadline wanted b wide paced long some_round = ground arith
acquire_loop-ends (r ∷ q ∷ rs) pause start deadline wanted b wide paced long some_round = ground (
  arith,
  acquire_loop-ends (q ∷ rs) pause (r.checked_at + pause) deadline wanted
      (try_take r.refilled_at wanted b).0 wide paced.1 (omega arith) (λ e. cc),
)

-- With a timeout `acquire` ends: one round more than the milliseconds of the timeout is enough, if
-- every sleep lasts as long as it is asked to.
pub acquire-ends :
    (start timeout wanted : ℕ) (r : Round) (rs : List Round) (b : TokenBucket)
    → IsPaced (sleep_time (some timeout) b) start (r ∷ rs)
    → timeout ≤ length rs * 1_000_000
    → (acquire start (r ∷ rs) wanted (some timeout) b).1 ≢ none
unfolding acquire
acquire-ends start timeout wanted r rs b paced long = ground (
  arith,
  acquire_loop-ends (r ∷ rs) (sleep_time (some timeout) b) start (start + timeout) wanted b
      (le-sleep_time (some timeout) b) paced (omega arith) (λ e. cc),
)
