-- ===== src/Cooldown/Totp/Spaced.antt =====
-- What the guard of the logins keeps apart.
use inc_trade.Prelude.{
  ℕ, ◌+◌, ◌≤◌, ◌≡◌, refl, sym, ap, Bool, false, Option, none, some, List, [], ◌∷◌, arith, All, inl,
  inr, Bool-cases, Option-cases, ltb,
}
use inc_trade.Cooldown.Files.{File, missing, unreadable, other_json, holds, written, file_after}
use inc_trade.Cooldown.Totp.{
  TotpBroker, broker_cooldown, wall_clock_start, TotpState, TotpCooldownGuard, coerce_wall_clock,
  load_state, new_guard, remaining_cooldown, TotpDesk, persist_state, record_attempt,
  record_success, record_rate_limited, Readings, send, DhanReply, dhan_reply, generate, UpstoxReply,
  granted, refused, raised, upstox_failed, upstox_reply, generate_token,
}

-- A login by the client of Dhan or by that of Upstox, or a restart of the process.
pub data Event (E T : Type 0) : Type 0 where
  dhan_login : Bool → Readings → Option (DhanReply E T) → Event E T
  upstox_login : (E → Bool) → Readings → UpstoxReply E T → Event E T
  restart : Event E T

module _ (broker : TotpBroker) (cooldown : Option ℕ) where
  abbrev pub open_desk : File TotpState → TotpDesk
  open_desk file = record { guard = new_guard broker cooldown file; file = file; sent = [] }

  unfoldable pub step : {E T : Type 0} → Event E T → TotpDesk → TotpDesk
  unfolding new_guard generate generate_token
  step (dhan_login credentials t reply) d = (generate credentials t reply d).1
  step (upstox_login is_rate_limit_error t reply) d =
      (generate_token is_rate_limit_error t reply d).1
  step restart d = record d { guard = new_guard broker cooldown d.file }

  unfoldable pub run : {E T : Type 0} → List (Event E T) → TotpDesk → TotpDesk
  unfolding step
  run [] d = d
  run (e ∷ es) d = run es (step e d)

-- Each is at least so long after the next in the list, the one before it in time.
abbrev pub IsSpaced : ℕ → List ℕ → Type 0
IsSpaced c [] = Unit
IsSpaced c (x ∷ []) = Unit
IsSpaced c (x ∷ y ∷ ys) = (y + c ≤ x) × IsSpaced c (y ∷ ys)

-- The readings of one login do not go back, and are of the wall clock; the writes succeed.
pub record IsTimely (t : Readings) : Type 0 where
  pub attempted : t.checked_at ≤ t.attempted_at
  pub ended : t.attempted_at ≤ t.ended_at
  pub wall : wall_clock_start ≤ t.attempted_at
  pub attempt_written : t.attempt_write ≡ written
  pub end_written : t.end_write ≡ written

abbrev pub EventIsTimely : {E T : Type 0} → Event E T → Type 0
EventIsTimely (dhan_login _ t _) = IsTimely t
EventIsTimely (upstox_login _ t _) = IsTimely t
EventIsTimely restart = Unit

-- The last login was sent at the time, or before it.
IsAfter : ℕ → List ℕ → Type 0
IsAfter now [] = Unit
IsAfter now (x ∷ xs) = x ≤ now

AttemptIsAfter : Option ℕ → List ℕ → Type 0
AttemptIsAfter (some at) xs = IsAfter at xs
AttemptIsAfter none [] = Unit
AttemptIsAfter none (x ∷ xs) = 1 ≤ 0

-- The guard would be loaded from its file as it is, and knows of the last login.
record IsKept (c : ℕ) (d : TotpDesk) : Type 0 where
  cooldown : d.guard.cooldown ≡ c
  loaded : load_state c d.file ≡ d.guard
  success : coerce_wall_clock d.guard.last_success_at ≡ d.guard.last_success_at
  last : AttemptIsAfter d.guard.last_attempt_at d.sent
  spaced : IsSpaced c d.sent

coerce_wall_clock_idem :
    (v : Option ℕ) → coerce_wall_clock (coerce_wall_clock v) ≡ coerce_wall_clock v
unfolding coerce_wall_clock
coerce_wall_clock_idem none = refl
coerce_wall_clock_idem (some ts) = ground arith

load_state-cooldown :
    (c : ℕ) (file : File TotpState)
    → ((load_state c file).cooldown ≡ c)
      × (coerce_wall_clock (load_state c file).last_success_at
          ≡ (load_state c file).last_success_at)
unfolding load_state coerce_wall_clock
load_state-cooldown c missing = (refl, refl)
load_state-cooldown c unreadable = (refl, refl)
load_state-cooldown c other_json = (refl, refl)
load_state-cooldown c (holds s) = (refl, coerce_wall_clock_idem s.last_success_at)

coerce_wall_clock-now : (now : ℕ) → wall_clock_start ≤ now → coerce_wall_clock (some now) ≡ some now
unfolding coerce_wall_clock
coerce_wall_clock-now now wall = ground arith

-- A guard that has just been written to its file.
saved-IsKept :
    (c cooldown now : ℕ) (success : Option ℕ) (sent : List ℕ)
    → cooldown ≡ c
    → wall_clock_start ≤ now
    → coerce_wall_clock success ≡ success
    → IsAfter now sent
    → IsSpaced c sent
    → let state : TotpState = record { last_attempt_at = some now; last_success_at = success } in
      IsKept c (record {
        guard = record {
          cooldown = cooldown;
          last_attempt_at = some now;
          last_success_at = success;
        };
        file = holds state;
        sent = sent;
      })
unfolding load_state AttemptIsAfter IsAfter
saved-IsKept c cooldown now success sent e wall fixed after spaced = record {
  cooldown = e;
  loaded = rw (coerce_wall_clock-now now wall, fixed, e) refl;
  success = fixed;
  last = after;
  spaced = spaced;
}

-- If nothing is left of the cooldown, the last login is that long ago.
waited-IsSpaced :
    (c now sent_at : ℕ) (g : TotpCooldownGuard) (sent : List ℕ)
    → g.cooldown ≡ c
    → AttemptIsAfter g.last_attempt_at sent
    → IsSpaced c sent
    → ltb 0 (remaining_cooldown now g) ≡ false
    → now ≤ sent_at
    → IsSpaced c (sent_at ∷ sent)
unfolding remaining_cooldown IsAfter AttemptIsAfter
waited-IsSpaced c now sent_at g [] e last spaced h le = tt
waited-IsSpaced c now sent_at g (x ∷ xs) e last spaced h le = ground arith

module _ (c : ℕ) (d : TotpDesk) (k : IsKept c d) where
  send-IsKept :
      (t : Readings)
      → IsTimely t
      → ltb 0 (remaining_cooldown t.checked_at d.guard) ≡ false
      → IsKept c (send t d)
  unfolding record_attempt persist_state file_after IsAfter
  send-IsKept t timely h = rw timely.attempt_written (
      saved-IsKept c d.guard.cooldown t.attempted_at d.guard.last_success_at
        (t.attempted_at ∷ d.sent) k.cooldown timely.wall k.success (omega arith)
        (waited-IsSpaced c t.checked_at t.attempted_at d.guard d.sent k.cooldown k.last k.spaced h
          timely.attempted))

  record_success-IsKept :
      (now : ℕ)
      → wall_clock_start ≤ now
      → IsAfter now d.sent
      → IsKept c (record_success now written d)
  unfolding record_success persist_state file_after
  record_success-IsKept now wall after =
      saved-IsKept c d.guard.cooldown now (some now) d.sent k.cooldown wall
        (coerce_wall_clock-now now wall) after k.spaced

  record_rate_limited-IsKept :
      (now : ℕ)
      → wall_clock_start ≤ now
      → IsAfter now d.sent
      → IsKept c (record_rate_limited now written d)
  unfolding record_rate_limited persist_state file_after
  record_rate_limited-IsKept now wall after =
      saved-IsKept c d.guard.cooldown now d.guard.last_success_at d.sent k.cooldown wall k.success
        after k.spaced

module _ (c : ℕ) (d : TotpDesk) (k : IsKept c d) (t : Readings) (timely : IsTimely t)
    (after : IsAfter t.ended_at d.sent) where
  success_ended-IsKept : IsKept c (record_success t.ended_at t.end_write d)
  success_ended-IsKept =
      rw timely.end_written
        (record_success-IsKept c d k t.ended_at (omega (arith, timely.ended, timely.wall)) after)

  limited_ended-IsKept : IsKept c (record_rate_limited t.ended_at t.end_write d)
  limited_ended-IsKept =
      rw timely.end_written (
        record_rate_limited-IsKept c d k t.ended_at (omega (arith, timely.ended, timely.wall))
          after)

  dhan_reply-IsKept : {E T : Type 0} (r : Option (DhanReply E T)) → IsKept c (dhan_reply t r d).1
  unfolding dhan_reply
  dhan_reply-IsKept none = k
  dhan_reply-IsKept (some r) = elim (Bool-cases r.says_once) [
    | inl e ↦ rw e limited_ended-IsKept
    | inr e ↦ elim (Bool-cases r.is_error) [
      | inl e' ↦ rw (e, e') k
      | inr e' ↦ elim (Bool-cases r.is_200) [
        | inl f ↦ elim (Option-cases r.token) [
          | inl g ↦ rw (e, e', f, g) k
          | inr (token, g) ↦ rw (e, e', f, g) success_ended-IsKept
        ]
        | inr f ↦ rw (e, e', f) k
      ]
    ]
  ]

  upstox_failed-IsKept :
      {E : Type 0} (T : Type 0) (is_rate_limit_error : E → Bool) (e : E)
      → IsKept c (upstox_failed {T = T} is_rate_limit_error t e d).1
  unfolding upstox_failed
  upstox_failed-IsKept T is_rate_limit_error e = elim (Bool-cases (is_rate_limit_error e)) [
    | inl h ↦ rw h limited_ended-IsKept
    | inr h ↦ rw h k
  ]

  upstox_reply-IsKept :
      {E T : Type 0} (is_rate_limit_error : E → Bool) (r : UpstoxReply E T)
      → IsKept c (upstox_reply is_rate_limit_error t r d).1
  unfolding upstox_reply
  upstox_reply-IsKept is_rate_limit_error (granted token) = success_ended-IsKept
  upstox_reply-IsKept {T = T} is_rate_limit_error (refused e) =
      upstox_failed-IsKept T is_rate_limit_error e
  upstox_reply-IsKept {T = T} is_rate_limit_error (raised e) =
      upstox_failed-IsKept T is_rate_limit_error e

module _ (c : ℕ) (d : TotpDesk) (k : IsKept c d) (t : Readings) (timely : IsTimely t) where
  sent_ended : IsAfter t.ended_at (send t d).sent
  unfolding IsAfter record_attempt persist_state
  sent_ended = timely.ended

  generate-IsKept :
      {E T : Type 0} (credentials : Bool) (r : Option (DhanReply E T))
      → IsKept c (generate credentials t r d).1
  unfolding generate
  generate-IsKept credentials r =
      elim (Bool-cases (ltb 0 (remaining_cooldown t.checked_at d.guard))) [
        | inl h ↦ rw h k
        | inr h ↦ elim (Bool-cases credentials) [
          | inl h' ↦
              rw (h, h')
                (dhan_reply-IsKept c (send t d) (send-IsKept c d k t timely h) t timely sent_ended
                  r)
          | inr h' ↦ rw (h, h') k
        ]
      ]

  generate_token-IsKept :
      {E T : Type 0} (is_rate_limit_error : E → Bool) (r : UpstoxReply E T)
      → IsKept c (generate_token is_rate_limit_error t r d).1
  unfolding generate_token
  generate_token-IsKept is_rate_limit_error r =
      elim (Bool-cases (ltb 0 (remaining_cooldown t.checked_at d.guard))) [
        | inl h ↦ rw h k
        | inr h ↦ rw h (
            upstox_reply-IsKept c (send t d) (send-IsKept c d k t timely h) t timely sent_ended
              is_rate_limit_error r)
      ]

AttemptIsAfter-none : (v : Option ℕ) → AttemptIsAfter v []
unfolding AttemptIsAfter IsAfter
AttemptIsAfter-none none = tt
AttemptIsAfter-none (some at) = tt

module _ (broker : TotpBroker) (given : Option ℕ) where
  -- The cooldown of the guards of the broker.
  abbrev pub cooldown_of : ℕ
  cooldown_of = (new_guard broker given missing).cooldown

  new_guard-load_state :
      (file : File TotpState) → new_guard broker given file ≡ load_state cooldown_of file
  unfolding new_guard load_state
  new_guard-load_state file = elim (Option-cases given) [
    | inl e ↦
        rw e (
          ap (λ c. load_state c file)
            (sym (load_state-cooldown (broker_cooldown broker) missing).0))
    | inr (c, e) ↦ rw e (ap (λ c. load_state c file) (sym (load_state-cooldown c missing).0))
  ]

  step-IsKept :
      {E T : Type 0} (e : Event E T) (d : TotpDesk)
      → EventIsTimely e
      → IsKept cooldown_of d
      → IsKept cooldown_of (step broker given e d)
  unfolding step
  step-IsKept (dhan_login credentials t reply) d timely k =
      generate-IsKept cooldown_of d k t timely credentials reply
  step-IsKept (upstox_login is_rate_limit_error t reply) d timely k =
      generate_token-IsKept cooldown_of d k t timely is_rate_limit_error reply
  step-IsKept restart d timely k = record {
    spaced = k.spaced;
    cooldown = rw (new_guard-load_state d.file) (load_state-cooldown cooldown_of d.file).0;
    loaded = sym (new_guard-load_state d.file);
    success = rw (new_guard-load_state d.file) (load_state-cooldown cooldown_of d.file).1;
    last = rw (new_guard-load_state d.file, k.loaded) k.last;
  }

  run-IsKept :
      {E T : Type 0} (es : List (Event E T)) (d : TotpDesk)
      → All EventIsTimely es
      → IsKept cooldown_of d
      → IsKept cooldown_of (run broker given es d)
  unfolding run
  run-IsKept [] d timely k = k
  run-IsKept (e ∷ es) d timely k =
      run-IsKept es (step broker given e d) timely.1 (step-IsKept e d timely.0 k)

  -- Whatever the file holds at first, in every sequence of logins and restarts whose writes succeed, with
  -- a wall clock that does not go back within a login, any two logins that are sent one after the other are
  -- at least the cooldown of the broker apart.
  pub run-IsSpaced :
      {E T : Type 0} (es : List (Event E T)) (file : File TotpState)
      → All EventIsTimely es
      → IsSpaced cooldown_of (run broker given es (open_desk broker given file)).sent
  run-IsSpaced es file timely =
      (run-IsKept es (open_desk broker given file) timely (record {
        cooldown = rw (new_guard-load_state file) (load_state-cooldown cooldown_of file).0;
        loaded = sym (new_guard-load_state file);
        success = rw (new_guard-load_state file) (load_state-cooldown cooldown_of file).1;
        last = AttemptIsAfter-none (new_guard broker given file).last_attempt_at;
        spaced = tt;
      })).spaced
