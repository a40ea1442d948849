-- ===== src/Cooldown/Tests.antt =====
-- The cooldowns on small inputs, and their theorems there.
use inc_trade.Prelude.{
  ℕ, ◌+◌, ◌*◌, ◌≤◌, ◌≡◌, refl, true, false, Option, none, some, List, [], ◌∷◌, arith,
}
use inc_trade.Prelude.Result.{ok}
use inc_trade.Cooldown.Files.{missing, written, file_after}
use inc_trade.Cooldown.Totp.{
  dhan, Readings, DhanReply, broker_cooldown, new_guard, load_state, coerce_wall_clock,
  remaining_cooldown, persist_state, record_attempt, record_success, record_rate_limited,
  dhan_reply, generate,
}
use inc_trade.Cooldown.Totp.Spaced.{
  Event, dhan_login, restart, open_desk, step, run, IsSpaced, IsTimely, cooldown_of, run-IsSpaced,
}
use inc_trade.Cooldown.Admission.{penalty_window_seconds, Settings, Gate, base_of, ceiling_of}
use inc_trade.Cooldown.Admission.Escalates.{Round, waits, schedule, waits-escalate}

-- A second of the wall clock, from 2026 on.
abbrev at : ℕ → ℕ
at s = (1_770_000_000 + s) * 1_000_000

abbrev readings : ℕ → Readings
readings s = record {
  checked_at = at s;
  attempted_at = at (s + 1);
  ended_at = at (s + 2);
  attempt_write = written;
  end_write = written;
}

abbrev token_reply : Option (DhanReply ℕ ℕ)
token_reply =
    some
      (record { message = 0; says_once = false; is_error = false; is_200 = true; token = some 7 })

abbrev once_reply : Option (DhanReply ℕ ℕ)
once_reply =
    some (record { message = 1; says_once = true; is_error = true; is_200 = false; token = none })

-- A login, one too early after a restart, and one in time that the broker refuses.
abbrev logins : List (Event ℕ ℕ)
logins =
    dhan_login true (readings 0) token_reply
    ∷ restart
    ∷ dhan_login true (readings 60) token_reply
    ∷ dhan_login true (readings 200) once_reply
    ∷ []

logins_sent : (run dhan none logins (open_desk dhan none missing)).sent ≡ at 201 ∷ at 1 ∷ []
unfolding run step generate new_guard broker_cooldown load_state coerce_wall_clock
    remaining_cooldown record_attempt record_success record_rate_limited persist_state file_after
    dhan_reply
logins_sent = refl

readings-IsTimely : (s : ℕ) → IsTimely (readings s)
readings-IsTimely s = record {
  attempted = omega arith;
  ended = omega arith;
  wall = omega arith;
  attempt_written = refl;
  end_written = refl;
}

run-IsSpaced_example :
    IsSpaced (cooldown_of dhan none) (run dhan none logins (open_desk dhan none missing)).sent
run-IsSpaced_example =
    run-IsSpaced dhan none logins missing
      (readings-IsTimely 0, (tt, (readings-IsTimely 60, (readings-IsTimely 200, tt))))

abbrev settings : Settings
settings = record { penalty_window = none; cooldown = none; cooldown_max = none }

abbrev fresh : Gate
fresh = record {
  has_file = false;
  lock_held = false;
  blocked_by_lock = false;
  consecutive_rate_limits = 0;
}

abbrev round : Option ℕ → ℕ → Round
round restarted s = record { restarted_at = restarted; limited_at = at s; recorded_at = at s }

abbrev rounds : List Round
rounds = round (some (at 300)) 310 ∷ round none 500 ∷ []

escalation : schedule settings 0 3 ≡ ok 60_000_000 ∷ ok 120_000_000 ∷ ok 240_000_000 ∷ []
unfolding base_of ceiling_of
escalation = refl

in_window :
    (now : ℕ)
    → (round (some (at 300)) 310).restarted_at ≡ some now
    → now ≤ at 0 + penalty_window_seconds settings
unfolding penalty_window_seconds
in_window now e = ground arith

no_restart :
    (now last : ℕ)
    → (round none 500).restarted_at ≡ some now
    → now ≤ last + penalty_window_seconds settings
no_restart now last e = absurd (ground arith)

waits-escalate_example :
    waits settings (round none 0 ∷ rounds) fresh missing ≡ schedule settings 0 3
waits-escalate_example =
    waits-escalate settings (round none 0) rounds fresh missing refl
      (in_window, ((λ now e. no_restart now (at 310) e), tt))
