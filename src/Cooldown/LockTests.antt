-- ===== src/Cooldown/LockTests.antt =====
-- The lock of a host on a small input, and its theorem there.
use inc_trade.Prelude.{ℕ, ◌≡◌, ◌≢◌, arith, refl, true, false, none, some, List, [], ◌∷◌, ℕ_discrete}
use inc_trade.Prelude.Dict.{lookup, insert}
use inc_trade.Cooldown.Files.{missing}
use inc_trade.Cooldown.Admission.{
  Settings, Gate, goes_through, new_gate, load_persisted_streak, try_acquire, release,
}
use inc_trade.Cooldown.Admission.Excludes.{
  Host, Event, made, acquires, releases, step, run, run-excludes,
}

abbrev settings : Settings
settings = record { penalty_window = none; cooldown = none; cooldown_max = none }

-- The second gate is refused, and takes the lock when the first has released it.
abbrev events : List (Event ℕ)
events =
    made 1 settings 0 missing
    ∷ made 2 settings 0 missing
    ∷ acquires 1 goes_through
    ∷ acquires 2 goes_through
    ∷ releases 1
    ∷ acquires 2 goes_through
    ∷ []

abbrev empty_host : Host ℕ
empty_host = record { gates = []; holder = none }

abbrev locked_gate : Gate
locked_gate = record {
  has_file = true;
  lock_held = true;
  blocked_by_lock = false;
  consecutive_rate_limits = 0;
}

abbrev released_gate : Gate
released_gate = record {
  has_file = false;
  lock_held = false;
  blocked_by_lock = false;
  consecutive_rate_limits = 0;
}

first_released : lookup ℕ_discrete 1 (run ℕ_discrete events empty_host).gates ≡ some released_gate
unfolding run step insert new_gate load_persisted_streak try_acquire release ℕ_discrete
first_released = refl

second_locked : lookup ℕ_discrete 2 (run ℕ_discrete events empty_host).gates ≡ some locked_gate
unfolding run step insert new_gate load_persisted_streak try_acquire release ℕ_discrete
second_locked = refl

two-ne-one : ◌≢◌ {A = ℕ} 2 1
two-ne-one e = absurd (omega arith)

run-excludes_example : released_gate.lock_held ≡ false
run-excludes_example =
    run-excludes ℕ_discrete events 2 1 locked_gate released_gate second_locked first_released
      two-ne-one refl
