-- ===== src/Resilience/Backoff/Bounds.antt =====
-- The bounds of the exponential delay, and how it grows.
use inc_trade.Prelude.{ℕ, ◌+◌, ◌*◌, ◌≤◌, ◌<◌, min, arith}
use inc_trade.Resilience.Backoff.{ms, one, exponential_backoff, capped_delay, with_jitter, delay}

mul_le : (a b c : ℕ) → a ≤ b → a * c ≤ b * c
mul_le a b c h = grind arith

within :
    (c limit jitter random : ℕ)
    → c ≤ limit
    → random < one
    → (min (with_jitter c jitter random) (limit * ms) ≤ limit * ms)
      × (c * ms ≤ min (with_jitter c jitter random) (limit * ms) + c * (jitter * one))
      × (min (with_jitter c jitter random) (limit * ms) ≤ c * ms + c * (jitter * one))
unfolding with_jitter
within c limit jitter random le h =
    grind
      (arith, mul_le random one (c * jitter), mul_le (jitter * (2 * random)) (2 * (jitter * one)) c)

-- With a random number below one, an exponential delay is at most the maximal delay, and it differs
-- from the capped delay by no more than the jitter factor, to either side.
pub delay_bounds :
    (base limit multiplier jitter random attempt : ℕ)
    → random < one
    → let d = delay (exponential_backoff base limit multiplier jitter) random attempt in
      let capped = capped_delay base limit multiplier attempt in
      (d ≤ limit * ms)
      × (capped * ms ≤ d + capped * (jitter * one))
      × (d ≤ capped * ms + capped * (jitter * one))
unfolding delay
delay_bounds base limit multiplier jitter random attempt h =
    within (capped_delay base limit multiplier attempt) limit jitter random
      (unfold capped_delay in omega arith) h
