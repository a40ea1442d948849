-- ===== src/Resilience/Bucket/Tests.antt =====
-- Runs of a token bucket on concrete readings of the clock, and the theorems at concrete inputs.
use inc_trade.Prelude.{◌+◌, ◌*◌, ◌≤◌, ◌≡◌, refl, true, none, some, List, [], ◌∷◌}
use inc_trade.Prelude.Int.{pos, negsuc}
use inc_trade.Prelude.Result.{ok, err}
use inc_trade.Resilience.Bucket.{
  token, RateLimitConfig, TokenBucket, bad_rate, bad_capacity, make_config, new, available_tokens,
  set_rate, reset, Round, sleep_time, acquire,
}
use inc_trade.Resilience.Bucket.Conserves.{Request, serve_all, serve_all_limited}

-- Two tokens a second, three at most.
abbrev config : RateLimitConfig
config = record { rate_per_second = 2000; capacity = 3 }

abbrev bucket : TokenBucket
bucket = record { config = config; tokens = token; last_refill_nanos = 100 }

make_config_test :
    (make_config (pos 2000) (pos 3) ≡ ok config)
    × (make_config (pos 0) (pos 3) ≡ err bad_rate)
    × (make_config (pos 2000) (negsuc 4) ≡ err bad_capacity)
unfolding make_config
make_config_test = (refl, refl, refl)

-- Half a second brings one token.
acquire_test :
    (acquire 200 (record { refilled_at = 200; checked_at = 210 } ∷ []) 2 none bucket).1 ≡ none
unfolding acquire
acquire_test = refl

abbrev rounds : List Round
rounds =
    record { refilled_at = 200; checked_at = 210 }
    ∷ record { refilled_at = 500_000_100; checked_at = 500_000_110 }
    ∷ []

acquire_waits_test :
    (acquire 200 rounds 2 none bucket
      ≡ (record { config = config; tokens = 0; last_refill_nanos = 500_000_100 }, some true))
    × (sleep_time (some 7) bucket ≡ 1_000_000)
    × (available_tokens 500_000_100 bucket ≡ 2 * token)
    × ((reset 7 (set_rate 5 bucket)).tokens ≡ 3 * token)
unfolding acquire sleep_time available_tokens reset set_rate
acquire_waits_test = (refl, refl, refl, refl)

abbrev request : Request
request = record { start = 200; rounds = rounds; wanted = 2; timeout = none }

serve_all_limited_example :
    let (after, total) = serve_all (request ∷ request ∷ []) (new config 100) in
    total * token + 100 * 2000 ≤ 3 * token + after.last_refill_nanos * 2000
serve_all_limited_example = serve_all_limited config 100 (request ∷ request ∷ [])
