-- ===== src/Cooldown/Admission.antt =====
-- `MarketFeedConnectionAdmission` of brokers/dhan/connection_admission.py, for the gates of one account and
-- one type of connection, which share a lock file and a cooldown file on a host. Times are
-- microseconds. `P` is the gates; the text of a time is read back as it was written.
use inc_trade.Prelude.{
  ℕ, zero, suc, ◌+◌, ◌-◌, ◌*◌, ◌^◌, min, Bool, true, false, Option, none, some, ite, ltb,
  if◌then◌else◌,
}
use inc_trade.Prelude.Result.{Result, ok, err}
use inc_trade.Cooldown.Files.{File, missing, unreadable, other_json, holds, Write, file_after}
pub mod Excludes
pub mod Escalates

-- The environment: the variables that are set, as numbers.
pub record Settings : Type 0 where
  pub penalty_window : Option ℕ
  pub cooldown : Option ℕ
  pub cooldown_max : Option ℕ

abbrev pub setting : Option ℕ → ℕ → ℕ
setting none default = default
setting (some n) default = n

unfoldable pub penalty_window_seconds : Settings → ℕ
penalty_window_seconds s = setting s.penalty_window 3_600_000_000

-- `base` and `ceiling` of `record_rate_limit_cooldown`.
unfoldable pub base_of : Settings → ℕ
base_of s = setting s.cooldown 60_000_000

unfoldable pub ceiling_of : Settings → ℕ
ceiling_of s = setting s.cooldown_max 900_000_000

-- The payload of the cooldown file: its times, where they are text of a time, and the streak, where it is an
-- integer that is not negative.
pub record Payload : Type 0 where
  pub next_allowed_at : Option ℕ
  pub recorded_at : Option ℕ
  pub consecutive_rate_limits : Option ℕ

-- `.get` of a value that is no dict.
pub data AttributeError : Type 0 where
  attribute_error : AttributeError

pub record Gate : Type 0 where
  pub has_file : Bool
  pub lock_held : Bool
  pub blocked_by_lock : Bool
  pub consecutive_rate_limits : ℕ

unfoldable pub streak_from_payload : Settings → ℕ → Payload → ℕ
unfolding penalty_window_seconds
streak_from_payload s now p = elim p.recorded_at [
  | none ↦ 0
  | some at ↦
      if ltb (at + penalty_window_seconds s) now
      then 0
      else elim p.consecutive_rate_limits [ none ↦ 1 | some zero ↦ 1 | some (suc n) ↦ suc n ]
]

unfoldable pub load_persisted_streak : Settings → ℕ → File Payload → ℕ
unfolding streak_from_payload
load_persisted_streak s now (holds p) = streak_from_payload s now p
load_persisted_streak s now _ = 0

unfoldable pub new_gate : Settings → ℕ → File Payload → Gate
unfolding load_persisted_streak
new_gate s now file = record {
  has_file = false;
  lock_held = false;
  blocked_by_lock = false;
  consecutive_rate_limits = load_persisted_streak s now file;
}

unfoldable pub next_connect_allowed_at : File Payload → Result AttributeError (Option ℕ)
next_connect_allowed_at missing = ok none
next_connect_allowed_at unreadable = ok none
next_connect_allowed_at other_json = err attribute_error
next_connect_allowed_at (holds p) = ok p.next_allowed_at

unfoldable pub seconds_until_connect_allowed : ℕ → File Payload → Result AttributeError ℕ
unfolding next_connect_allowed_at
seconds_until_connect_allowed now file = elim (next_connect_allowed_at file) [
  | err e ↦ err e
  | ok none ↦ ok 0
  | ok (some at) ↦ ok (at - now)
]

-- The cooldown after so many rate limits in a row, of which there is one at least.
unfoldable pub cooldown_after : Settings → ℕ → ℕ
unfolding base_of ceiling_of
cooldown_after s streak = min (base_of s * 2 ^ (streak - 1)) (ceiling_of s)

-- The clock is read twice, for the time that is allowed next and for the record. The answer is that
-- time, with the gate and the file behind.
unfoldable pub record_rate_limit_cooldown :
    Settings → ℕ → ℕ → Write Payload → Gate → ℕ × Gate × File Payload
unfolding cooldown_after file_after
record_rate_limit_cooldown s now recorded_at w g =
    let streak = g.consecutive_rate_limits + 1 in
    let next = now + cooldown_after s streak in
    let payload : Payload = record {
      next_allowed_at = some next;
      recorded_at = some recorded_at;
      consecutive_rate_limits = some streak;
    } in
    (next, record g { consecutive_rate_limits = streak }, file_after payload w)

-- `clear_cooldown`, where the file can be removed or not.
unfoldable pub clear_cooldown : Bool → Gate → File Payload → Gate × File Payload
clear_cooldown unlinked g file =
    (record g { consecutive_rate_limits = 0 }, if unlinked then missing else file)

-- What `open` and `flock` run into beside a lock that is held.
pub data LockCall : Type 0 where
  goes_through os_error : LockCall

-- The lock of the host: the gate that holds it.
module _ {P : Type 0} (dec : Discrete P) where
  -- `try_acquire`, on a platform with `fcntl` or without, and the lock behind it. `flock` does not block.
  unfoldable pub try_acquire : Bool → LockCall → P → Gate → Option P → Bool × Gate × Option P
  try_acquire has_fcntl call p g holder =
      if g.lock_held
      then (true, g, holder)
      else if has_fcntl
      then elim call [
        | os_error ↦ (false, record g { blocked_by_lock = true }, holder)
        | goes_through ↦ elim holder [
          | some q ↦ (false, record g { blocked_by_lock = true }, some q)
          | none ↦ (
            true,
            record g { has_file = true; lock_held = true; blocked_by_lock = false },
            some p,
          )
        ]
      ]
      else (true, record g { lock_held = true; blocked_by_lock = false }, holder)

  -- `flock(LOCK_UN)` and `close`, of which one at least succeeds.
  abbrev pub unlock : P → Option P → Option P
  unlock p none = none
  unlock p (some q) = ite (dec q p) none (some q)

  unfoldable pub release : Bool → P → Gate → Option P → Gate × Option P
  release has_fcntl p g holder =
      if g.lock_held
      then (
        record g { has_file = false; lock_held = false; blocked_by_lock = false },
        if g.has_file then if has_fcntl then unlock p holder else holder else holder,
      )
      else (g, holder)
