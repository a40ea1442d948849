-- ===== src/Resilience/Circuit/Trips.antt =====
-- When a circuit breaker trips, how long it refuses, and when it recovers.
use inc_trade.Prelude.{
  ℕ, ◌+◌, ◌*◌, ◌<◌, ◌≡◌, refl, ap, ◌∙◌, true, false, List, [], ◌∷◌, map, All, length, arith, inl,
  inr, leb, Bool-cases,
}
use inc_trade.Resilience.Circuit.{
  closed, opened, half_open, CircuitBreaker, Call, clock, state_eq, allow_request, step, run,
}

stays_opened :
    (ts : List ℕ) (b : CircuitBreaker)
    → b.state ≡ opened
    → (run (map Call.fails ts) b).state ≡ opened
unfolding run
stays_opened [] b h = h
stays_opened (t ∷ ts) b h = stays_opened ts (step (Call.fails t) b) (unfold step in ground arith)

-- What one failure does to a closed breaker.
step-fails_closed :
    (t : ℕ) (b : CircuitBreaker)
    → b.state ≡ closed
    → let after = step (Call.fails t) b in
      (after.config ≡ b.config)
      × (leb b.config.failure_threshold (b.failure_count + 1) ≡ true → after.state ≡ opened)
      × (leb b.config.failure_threshold (b.failure_count + 1) ≡ false
          → (after.state ≡ closed) × (after.failure_count ≡ b.failure_count + 1))
unfolding step
step-fails_closed t b h = ground arith

-- A closed breaker that is below its failure threshold is open after further failures in a row
-- exactly if, with those it counted before, they are at least as many as the threshold.
pub run-fails_trips :
    (ts : List ℕ) (b : CircuitBreaker)
    → b.state ≡ closed
    → b.failure_count < b.config.failure_threshold
    → state_eq (run (map Call.fails ts) b).state opened
      ≡ leb b.config.failure_threshold (b.failure_count + length ts)
unfolding run
run-fails_trips [] b h below = ground arith
run-fails_trips (t ∷ ts) b h below =
    let (config, trips, stays) = step-fails_closed t b h in
    elim (Bool-cases (leb b.config.failure_threshold (b.failure_count + 1))) [
      | inl e ↦ ground (arith, stays_opened ts (step (Call.fails t) b) (trips e))
      | inr e ↦
          let (still, counted) = stays e in
          ground (
            arith,
            config,
            counted,
            run-fails_trips ts (step (Call.fails t) b) still (rw (config, counted) (ground arith)),
          )
    ]

-- A call that does not reset and reads the clock before a breaker that opened at `since` may
-- probe again.
abbrev pub IsWithin : ℕ → Call → Type 0
IsWithin until (Call.resets _) = ⊥
IsWithin until c = clock c < until

step_within :
    (c : Call) (b : CircuitBreaker)
    → b.state ≡ opened
    → IsWithin (b.opened_at_ns + b.config.open_duration_ms * 1_000_000) c
    → let after = step c b in
      (after.state ≡ opened) × (after.config ≡ b.config) × (after.opened_at_ns ≡ b.opened_at_ns)
unfolding step
step_within (Call.allows t) b h w = ground arith
step_within (Call.succeeds t) b h w = ground arith
step_within (Call.fails t) b h w = ground arith
step_within (Call.resets t) b h w = absurd w

run_within :
    (cs : List Call) (b : CircuitBreaker)
    → b.state ≡ opened
    → All (IsWithin (b.opened_at_ns + b.config.open_duration_ms * 1_000_000)) cs
    → let after = run cs b in
      (after.state ≡ opened) × (after.config ≡ b.config) × (after.opened_at_ns ≡ b.opened_at_ns)
unfolding run
run_within [] b h w = (h, refl, refl)
run_within (c ∷ cs) b h w =
    let (still, config, since) = step_within c b h w.0 in
    let (s, k, o) = run_within cs (step c b) still (rw (config, since) w.1) in
    (s, k ∙ config, o ∙ since)

-- An open breaker refuses every request that comes before its open duration is over, whatever
-- successes, failures and requests come in between, as long as nobody resets it.
pub allow_request_within :
    (cs : List Call) (b : CircuitBreaker) (now : ℕ)
    → b.state ≡ opened
    → All (IsWithin (b.opened_at_ns + b.config.open_duration_ms * 1_000_000)) cs
    → now < b.opened_at_ns + b.config.open_duration_ms * 1_000_000
    → (allow_request now (run cs b)).1 ≡ false
unfolding allow_request
allow_request_within cs b now h w t = ground (arith, run_within cs b h w)

run-allows :
    (ts : List ℕ) (b : CircuitBreaker) → b.state ≡ half_open → run (map Call.allows ts) b ≡ b
unfolding run
run-allows [] b h = refl
run-allows (t ∷ ts) b h =
    let same : step (Call.allows t) b ≡ b = unfold step in ground arith in
    ap (run (map Call.allows ts)) same ∙ run-allows ts b h

-- A half-open breaker lets every request through, however many come: requests alone change nothing
-- of it.
pub allow_request_unlimited :
    (ts : List ℕ) (b : CircuitBreaker) (now : ℕ)
    → b.state ≡ half_open
    → allow_request now (run (map Call.allows ts) b) ≡ (b, true)
unfolding allow_request
allow_request_unlimited ts b now h = rw (run-allows ts b h) (ground arith)
