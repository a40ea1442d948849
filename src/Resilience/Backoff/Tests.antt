-- ===== src/Resilience/Backoff/Tests.antt =====
-- Delays of concrete strategies, and the theorems at concrete inputs.
use inc_trade.Prelude.{◌*◌, ◌≡◌, refl}
use inc_trade.Resilience.Backoff.{ms, no_backoff, fixed_backoff, exponential_backoff, delay}

delay_test :
    (delay no_backoff 0 3 ≡ 0)
    × (delay (fixed_backoff 1000) 0 3 ≡ 1000 * ms)
    × (delay (exponential_backoff 100 30_000 2 10) 500_000 3 ≡ 800 * ms)
    × (delay (exponential_backoff 100 30_000 2 10) 0 3 ≡ 720 * ms)
    × (delay (exponential_backoff 100 30_000 2 10) 999_999 20 ≡ 30_000 * ms)
unfolding delay
delay_test = (refl, refl, refl, refl, refl)
