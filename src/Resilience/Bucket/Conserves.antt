-- ===== src/Resilience/Bucket/Conserves.antt =====
-- A token bucket grants no more than it held and what came in.
use inc_trade.Prelude.{
  ℕ, ◌+◌, ◌-◌, ◌*◌, ◌≤◌, ◌<◌, ◌≡◌, refl, ap, Bool, Option, none, some, List, [], ◌∷◌, arith,
  if◌then◌else◌,
}
use inc_trade.Resilience.Bucket.{
  token, RateLimitConfig, TokenBucket, full, new, refill, try_take, Round, deadline_of,
  acquire_loop, acquire,
}

abbrev pub IsValid : TokenBucket → Type 0
IsValid b = b.tokens ≤ full b.config

-- A call of `acquire`: when it starts, the readings of its rounds, what it wants, its timeout.
pub record Request : Type 0 where
  pub start : ℕ
  pub rounds : List Round
  pub wanted : ℕ
  pub timeout : Option ℕ

pub serve : Request → TokenBucket → TokenBucket × Option Bool
serve q = acquire q.start q.rounds q.wanted q.timeout

abbrev pub granted : ℕ → Option Bool → ℕ
granted wanted none = 0
granted wanted (some taken) = if taken then wanted else 0

-- Calls one after the other: the bucket afterwards, and how many tokens were granted.
pub serve_all : List Request → TokenBucket → TokenBucket × ℕ
serve_all [] b = (b, 0)
serve_all (q ∷ qs) b =
    let (after, answer) = serve q b in
    let (final, more) = serve_all qs after in (final, granted q.wanted answer + more)

pub sub-mul : (now last rate : ℕ) → last < now → (now - last) * rate + last * rate ≡ now * rate
sub-mul now last rate h =
    let e : now ≡ now - last + last = omega arith in omega (arith, ap (λ (t : ℕ). t * rate) e)

refill_adds :
    (now : ℕ) (b : TokenBucket)
    → let after = refill now b in
      (after.tokens + b.last_refill_nanos * b.config.rate_per_second
        ≤ b.tokens + after.last_refill_nanos * b.config.rate_per_second)
      × (after.config ≡ b.config)
unfolding refill
refill_adds now b = ground (arith, sub-mul now b.last_refill_nanos b.config.rate_per_second)

try_take-adds :
    (now wanted : ℕ) (b : TokenBucket)
    → let (after, taken) = try_take now wanted b in
      ((if taken then wanted else 0) * token
          + after.tokens
          + b.last_refill_nanos * b.config.rate_per_second
        ≤ b.tokens + after.last_refill_nanos * b.config.rate_per_second)
      × (after.config ≡ b.config)
unfolding try_take
try_take-adds now wanted b = ground (arith, refill_adds now b)

acquire_loop-adds :
    (rs : List Round) (deadline : Option ℕ) (wanted : ℕ) (b : TokenBucket)
    → let (after, answer) = acquire_loop rs deadline wanted b in
      (granted wanted answer * token + after.tokens + b.last_refill_nanos * b.config.rate_per_second
        ≤ b.tokens + after.last_refill_nanos * b.config.rate_per_second)
      × (after.config ≡ b.config)
unfolding acquire_loop
acquire_loop-adds [] deadline wanted b = (omega arith, refl)
acquire_loop-adds (r ∷ rs) deadline wanted b =
    let (after, taken) = try_take r.refilled_at wanted b in
    ground (arith, try_take-adds r.refilled_at wanted b, acquire_loop-adds rs deadline wanted after)

serve-adds :
    (q : Request) (b : TokenBucket)
    → let (after, answer) = serve q b in
      (granted q.wanted answer * token
          + after.tokens
          + b.last_refill_nanos * b.config.rate_per_second
        ≤ b.tokens + after.last_refill_nanos * b.config.rate_per_second)
      × (after.config ≡ b.config)
unfolding serve acquire
serve-adds q b =
    ground (arith, acquire_loop-adds q.rounds (deadline_of q.start q.timeout) q.wanted b)

serve_all-adds :
    (qs : List Request) (b : TokenBucket)
    → let (after, total) = serve_all qs b in
      (total * token + after.tokens + b.last_refill_nanos * b.config.rate_per_second
        ≤ b.tokens + after.last_refill_nanos * b.config.rate_per_second)
      × (after.config ≡ b.config)
unfolding serve_all
serve_all-adds [] b = (omega arith, refl)
serve_all-adds (q ∷ qs) b = ground (arith, serve-adds q b, serve_all-adds qs (serve q b).0)

-- The rate limit: of a fresh bucket, any calls of `acquire`, at any readings of the clock, are
-- granted in all no more than the capacity and what the rate brings in up to the last refill.
pub serve_all_limited :
    (c : RateLimitConfig) (start : ℕ) (qs : List Request)
    → let (after, total) = serve_all qs (new c start) in
      total * token + start * c.rate_per_second
      ≤ full c + after.last_refill_nanos * c.rate_per_second
unfolding new
serve_all_limited c start qs = omega (arith, serve_all-adds qs (new c start))

pub acquire-config :
    (start : ℕ) (rounds : List Round) (wanted : ℕ) (timeout : Option ℕ) (b : TokenBucket)
    → (acquire start rounds wanted timeout b).0.config ≡ b.config
unfolding acquire
acquire-config start rounds wanted timeout b =
    ground (arith, acquire_loop-adds rounds (deadline_of start timeout) wanted b)
