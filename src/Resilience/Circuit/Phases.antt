-- ===== src/Resilience/Circuit/Phases.antt =====
-- The contract of a circuit breaker: three phases, and what each keeps. The breaker's other
-- counters are forgotten.
use inc_trade.Prelude.{ℕ, ◌+◌, ◌*◌, ◌≡◌, refl, List, [], ◌∷◌, arith, leb, if◌then◌else◌}
use inc_trade.Resilience.Circuit.{
  CircuitState, closed, opened, half_open, CircuitBreakerConfig, CircuitBreaker, Call, new, step,
  run,
}

-- Requests pass, with so many failures in a row; requests fail fast, since a time; requests probe,
-- with so many successes.
pub data Phase : Type 0 where
  passing failing probing : ℕ → Phase

abbrev phase_in : CircuitState → CircuitBreaker → Phase
phase_in closed b = passing b.failure_count
phase_in opened b = failing b.opened_at_ns
phase_in half_open b = probing b.success_count

abbrev pub phase : CircuitBreaker → Phase
phase b = phase_in b.state b

-- What a call is to do to the phase.
abbrev pub phase_step : CircuitBreakerConfig → Call → Phase → Phase
phase_step c (Call.allows now) (failing since) =
    if leb (since + c.open_duration_ms * 1_000_000) now then probing 0 else failing since
phase_step c (Call.allows now) p = p
phase_step c (Call.succeeds now) (passing n) = passing 0
phase_step c (Call.succeeds now) (failing since) = failing since
phase_step c (Call.succeeds now) (probing k) =
    if leb c.success_threshold (k + 1) then passing 0 else probing (k + 1)
phase_step c (Call.fails now) (passing n) =
    if leb c.failure_threshold (n + 1) then failing now else passing (n + 1)
phase_step c (Call.fails now) (failing since) = failing since
phase_step c (Call.fails now) (probing k) = failing now
phase_step c (Call.resets now) p = passing 0

abbrev pub phase_run : CircuitBreakerConfig → List Call → Phase → Phase
phase_run c [] p = p
phase_run c (x ∷ xs) p = phase_run c xs (phase_step c x p)

phase-step :
    (c : Call) (b : CircuitBreaker)
    → (phase (step c b) ≡ phase_step b.config c (phase b)) × ((step c b).config ≡ b.config)
unfolding step
phase-step (Call.allows now) b = ground arith
phase-step (Call.succeeds now) b = ground arith
phase-step (Call.fails now) b = ground arith
phase-step (Call.resets now) b = ground arith

phase-run_from :
    (cs : List Call) (b : CircuitBreaker) → phase (run cs b) ≡ phase_run b.config cs (phase b)
unfolding run
phase-run_from [] b = refl
phase-run_from (c ∷ cs) b = ground (arith, phase-run_from cs (step c b), phase-step c b)

-- The breaker implements the contract: after any calls, the phase that it is in is the phase that
-- the contract reaches by the same calls from "passing, no failure".
pub phase-run :
    (c : CircuitBreakerConfig) (cs : List Call)
    → phase (run cs (new c)) ≡ phase_run c cs (passing 0)
unfolding new
phase-run c cs = phase-run_from cs (new c)
