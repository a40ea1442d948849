-- ===== src/Cooldown/Totp.antt =====
-- `TotpCooldownGuard` of brokers/common/auth/totp_cooldown.py, and the logins under it: `generate` of
-- brokers/dhan/totp_client.py and `generate_token` of brokers/upstox/auth/totp_client.py. Times and
-- cooldowns are microseconds; a time is one of the wall clock.
use inc_trade.Prelude.{
  ℕ, zero, ◌+◌, ◌-◌, ◌*◌, Bool, true, false, Option, none, some, List, [], ◌∷◌, ltb, if◌then◌else◌,
}
use inc_trade.Prelude.Dict.{Dict, lookup, insert}
use inc_trade.Prelude.Result.{Result, ok, err}
use inc_trade.Cooldown.Files.{File, missing, unreadable, other_json, holds, Write, file_after}
pub mod Spaced

pub data TotpBroker : Type 0 where
  dhan upstox other_broker : TotpBroker

-- `BROKER_COOLDOWN_SECONDS`, with the default behind.
unfoldable pub broker_cooldown : TotpBroker → ℕ
broker_cooldown dhan = 120_000_000
broker_cooldown upstox = 600_000_000
broker_cooldown other_broker = 120_000_000

-- 1_000_000_000 seconds
abbrev pub wall_clock_start : ℕ
wall_clock_start = 1_000_000_000_000_000

-- The two times of the file, where `float` makes a number of them that is not negative.
pub record TotpState : Type 0 where
  pub last_attempt_at : Option ℕ
  pub last_success_at : Option ℕ

pub record TotpCooldownGuard : Type 0 where
  pub cooldown : ℕ
  pub last_attempt_at : Option ℕ
  pub last_success_at : Option ℕ

unfoldable pub coerce_wall_clock : Option ℕ → Option ℕ
coerce_wall_clock none = none
coerce_wall_clock (some ts) = if ltb ts wall_clock_start then none else some ts

-- `_load_state` of a new guard.
unfoldable pub load_state : ℕ → File TotpState → TotpCooldownGuard
unfolding coerce_wall_clock
load_state cooldown (holds s) = record {
  cooldown = cooldown;
  last_attempt_at = coerce_wall_clock s.last_attempt_at;
  last_success_at = coerce_wall_clock s.last_success_at;
}
load_state cooldown _ = record {
  cooldown = cooldown;
  last_attempt_at = none;
  last_success_at = none;
}

-- `TotpCooldownGuard(broker, cooldown_seconds)`
unfoldable pub new_guard : TotpBroker → Option ℕ → File TotpState → TotpCooldownGuard
unfolding broker_cooldown load_state
new_guard broker none file = load_state (broker_cooldown broker) file
new_guard broker (some cooldown) file = load_state cooldown file

-- `for_broker`: the guards of the process by the name of their broker in lower case; `broker_of` looks the
-- name up among those that have a cooldown of their own.
unfoldable pub for_broker :
    {K : Type 0}
    → Discrete K
    → (K → TotpBroker)
    → K
    → Option ℕ
    → File TotpState
    → Dict K TotpCooldownGuard
    → TotpCooldownGuard × Dict K TotpCooldownGuard
unfolding new_guard
for_broker dec broker_of key cooldown file instances = elim (lookup dec key instances) [
  | some g ↦ (g, instances)
  | none ↦ let g = new_guard (broker_of key) cooldown file in (g, insert dec key g instances)
]

unfoldable pub remaining_cooldown : ℕ → TotpCooldownGuard → ℕ
remaining_cooldown now g = elim g.last_attempt_at [ none ↦ 0 | some at ↦ g.cooldown + at - now ]

-- A guard with its file, and the times at which logins were sent to the broker, the last first.
pub record TotpDesk : Type 0 where
  pub guard : TotpCooldownGuard
  pub file : File TotpState
  pub sent : List ℕ

abbrev pub state_of : TotpCooldownGuard → TotpState
state_of g = record { last_attempt_at = g.last_attempt_at; last_success_at = g.last_success_at }

unfoldable pub persist_state : Write TotpState → TotpDesk → TotpDesk
unfolding file_after
persist_state w d = record d { file = file_after (state_of d.guard) w }

unfoldable pub record_attempt : ℕ → Write TotpState → TotpDesk → TotpDesk
unfolding persist_state
record_attempt now w d =
    persist_state w (record d { guard = record d.guard { last_attempt_at = some now } })

unfoldable pub record_success : ℕ → Write TotpState → TotpDesk → TotpDesk
unfolding persist_state
record_success now w d =
    persist_state w (record d {
      guard = record d.guard { last_attempt_at = some now; last_success_at = some now };
    })

unfoldable pub record_rate_limited : ℕ → Write TotpState → TotpDesk → TotpDesk
unfolding persist_state
record_rate_limited now w d =
    persist_state w (record d { guard = record d.guard { last_attempt_at = some now } })

-- The exceptions of a login: from the guard, from the broker with its message, and `RuntimeError`.
pub data TotpError (E : Type 0) : Type 0 where
  cooldown_active : ℕ → TotpError E
  rate_limited : E → TotpError E
  login_failed : E → TotpError E

-- What a login reads of the clock, and how its writes end.
pub record Readings : Type 0 where
  pub checked_at : ℕ
  pub attempted_at : ℕ
  pub ended_at : ℕ
  pub attempt_write : Write TotpState
  pub end_write : Write TotpState

abbrev pub send : Readings → TotpDesk → TotpDesk
send t d =
    let after = record_attempt t.attempted_at t.attempt_write d in
    record after { sent = t.attempted_at ∷ after.sent }

-- The reply of Dhan: its message with "once every 2 minutes" in it or not, the status "error" or not,
-- the HTTP status 200 or not, and the token, if it is not empty.
pub record DhanReply (E T : Type 0) : Type 0 where
  pub message : E
  pub says_once : Bool
  pub is_error : Bool
  pub is_200 : Bool
  pub token : Option T

-- What `generate` does with a reply; `none` is an exception on the way.
unfoldable pub dhan_reply :
    {E T : Type 0}
    → Readings
    → Option (DhanReply E T)
    → TotpDesk
    → Result (TotpError E) (Option T) × TotpDesk
unfolding record_success record_rate_limited
dhan_reply t none d = (ok none, d)
dhan_reply t (some r) d =
    if r.says_once
    then (err (rate_limited r.message), record_rate_limited t.ended_at t.end_write d)
    else if r.is_error
    then (ok none, d)
    else if r.is_200
    then elim r.token [
      | none ↦ (ok none, d)
      | some token ↦ (ok (some token), record_success t.ended_at t.end_write d)
    ]
    else (ok none, d)

-- `DhanTotpClient.generate`, with the credentials at hand or not.
unfoldable pub generate :
    {E T : Type 0}
    → Bool
    → Readings
    → Option (DhanReply E T)
    → TotpDesk
    → Result (TotpError E) (Option T) × TotpDesk
unfolding remaining_cooldown record_attempt dhan_reply
generate credentials t reply d =
    let remaining = remaining_cooldown t.checked_at d.guard in
    if ltb 0 remaining
    then (err (cooldown_active remaining), d)
    else if credentials
    then dhan_reply t reply (send t d)
    else (ok none, d)

-- What the client of Upstox gives: the token of a success with data, a failure with its message, or an
-- exception.
pub data UpstoxReply (E T : Type 0) : Type 0 where
  granted : T → UpstoxReply E T
  refused raised : E → UpstoxReply E T

module _ {E T : Type 0} (is_rate_limit_error : E → Bool) where
  -- The failure and the exception take the same way, since `RuntimeError(error_msg)` is caught again and has
  -- the text of the message.
  unfoldable pub upstox_failed : Readings → E → TotpDesk → Result (TotpError E) T × TotpDesk
  unfolding record_rate_limited
  upstox_failed t e d =
      if is_rate_limit_error e
      then (err (rate_limited e), record_rate_limited t.ended_at t.end_write d)
      else (err (login_failed e), d)

  unfoldable pub upstox_reply :
      Readings → UpstoxReply E T → TotpDesk → Result (TotpError E) T × TotpDesk
  unfolding record_success upstox_failed
  upstox_reply t (granted token) d = (ok token, record_success t.ended_at t.end_write d)
  upstox_reply t (refused e) d = upstox_failed t e d
  upstox_reply t (raised e) d = upstox_failed t e d

  -- `generate_token` of the client of Upstox.
  unfoldable pub generate_token :
      Readings → UpstoxReply E T → TotpDesk → Result (TotpError E) T × TotpDesk
  unfolding remaining_cooldown record_attempt upstox_reply
  generate_token t reply d =
      let remaining = remaining_cooldown t.checked_at d.guard in
      if ltb 0 remaining
      then (err (cooldown_active remaining), d)
      else upstox_reply t reply (send t d)
