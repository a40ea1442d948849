-- ===== src/Cooldown/Admission/Escalates.antt =====
-- How the waits of brokers/dhan/connection_admission.py grow, across restarts.
use inc_trade.Prelude.{
  ℕ, zero, suc, ◌+◌, ◌-◌, ◌*◌, ◌^◌, ◌≤◌, ◌≡◌, refl, ap, min, Option, none, some, List, [], ◌∷◌,
  length, arith, inl, inr, Option-cases,
}
use inc_trade.Prelude.Result.{Result, ok}
use inc_trade.Cooldown.Files.{File, holds, written, file_after}
use inc_trade.Cooldown.Admission.{
  Settings, penalty_window_seconds, base_of, ceiling_of, Payload, AttributeError, Gate,
  streak_from_payload, load_persisted_streak, new_gate, next_connect_allowed_at,
  seconds_until_connect_allowed, cooldown_after, record_rate_limit_cooldown,
}

-- A 429, perhaps after a restart, with the readings of the clock.
pub record Round : Type 0 where
  pub restarted_at : Option ℕ
  pub limited_at : ℕ
  pub recorded_at : ℕ

abbrev pub gate_of : Settings → Round → Gate → File Payload → Gate
gate_of s r g file = elim r.restarted_at [ none ↦ g | some now ↦ new_gate s now file ]

-- The waits that the file asks for at each 429.
unfoldable pub waits : Settings → List Round → Gate → File Payload → List (Result AttributeError ℕ)
unfolding new_gate record_rate_limit_cooldown seconds_until_connect_allowed
waits s [] g file = []
waits s (r ∷ rs) g file =
    let (_, g', file') =
      record_rate_limit_cooldown s r.limited_at r.recorded_at written (gate_of s r g file) in
    seconds_until_connect_allowed r.limited_at file' ∷ waits s rs g' file'

-- The base, doubled each time, up to the ceiling.
abbrev pub schedule : Settings → ℕ → ℕ → List (Result AttributeError ℕ)
schedule s k zero = []
schedule s k (suc n) = ok (min (base_of s * 2 ^ k) (ceiling_of s)) ∷ schedule s (suc k) n

-- A restart comes within the penalty window of the last record.
abbrev pub IsInWindow : Settings → ℕ → List Round → Type 0
IsInWindow s last [] = Unit
IsInWindow s last (r ∷ rs) =
    ((now : ℕ) → r.restarted_at ≡ some now → now ≤ last + penalty_window_seconds s)
    × IsInWindow s r.recorded_at rs

-- The file of a 429.
abbrev file_of : ℕ → ℕ → Gate → File Payload
file_of next last g = holds (record {
  next_allowed_at = some next;
  recorded_at = some last;
  consecutive_rate_limits = some g.consecutive_rate_limits;
})

-- The streak of the gate at a 429 after one that was written to the file.
gate_of-streak :
    (s : Settings) (r : Round) (rs : List Round) (g : Gate) (next last streak : ℕ)
    → IsInWindow s last (r ∷ rs)
    → g.consecutive_rate_limits ≡ suc streak
    → (gate_of s r g (file_of next last g)).consecutive_rate_limits ≡ suc streak
unfolding new_gate load_persisted_streak streak_from_payload
gate_of-streak s r rs g next last streak h pos = elim (Option-cases r.restarted_at) [
  | inl e ↦ rw e pos
  | inr (now, e) ↦ ground (arith, h.0 now e)
]

add_sub : (a b : ℕ) → a + b - a ≡ b
add_sub a b = omega arith

-- The wait at a 429.
wait_after :
    (s : Settings) (at streak c : ℕ)
    → c ≡ streak
    → at + cooldown_after s (c + 1) - at ≡ min (base_of s * 2 ^ streak) (ceiling_of s)
unfolding cooldown_after
wait_after s at streak c e =
    let less : c + 1 - 1 ≡ streak = omega arith in
    rw less (add_sub at (min (base_of s * 2 ^ streak) (ceiling_of s)))

-- A 429 at a gate, and those after it.
waits_from :
    (s : Settings) (r : Round) (rs : List Round) (g x : Gate) (file : File Payload) (streak : ℕ)
    → gate_of s r g file ≡ x
    → x.consecutive_rate_limits ≡ streak
    → let after = record x { consecutive_rate_limits = x.consecutive_rate_limits + 1 } in
      waits s rs after (
          file_of
            (r.limited_at + cooldown_after s (x.consecutive_rate_limits + 1))
            r.recorded_at
            after)
        ≡ schedule s (suc streak) (length rs)
      → waits s (r ∷ rs) g file ≡ schedule s streak (suc (length rs))
unfolding waits record_rate_limit_cooldown seconds_until_connect_allowed next_connect_allowed_at
    file_after
waits_from s r rs g x file streak e n later =
    rw (e, wait_after s r.limited_at streak x.consecutive_rate_limits n)
      (ap (λ ws. ok (min (base_of s * 2 ^ streak) (ceiling_of s)) ∷ ws) later)

waits-later :
    (s : Settings) (rs : List Round) (g : Gate) (next last streak : ℕ)
    → g.consecutive_rate_limits ≡ suc streak
    → IsInWindow s last rs
    → waits s rs g (file_of next last g) ≡ schedule s (suc streak) (length rs)
unfolding waits
waits-later s [] g next last streak e h = refl
waits-later s (r ∷ rs) g next last streak e h =
    let n = gate_of-streak s r rs g next last streak h e in
    waits_from s r rs g (gate_of s r g (file_of next last g)) (file_of next last g) (suc streak)
      refl n (waits-later s rs _ _ r.recorded_at (suc streak) (omega (arith, n)) h.1)

-- From a 429 on that does not follow a restart, each further one asks for a wait of twice the time, up to the
-- ceiling, and the file gives that wait, also if the process is started anew in between, within the
-- penalty window of the 429 before; all writes succeed.
pub waits-escalate :
    (s : Settings) (r : Round) (rs : List Round) (g : Gate) (file : File Payload)
    → r.restarted_at ≡ none
    → IsInWindow s r.recorded_at rs
    → waits s (r ∷ rs) g file ≡ schedule s g.consecutive_rate_limits (suc (length rs))
waits-escalate s r rs g file e h =
    waits_from s r rs g g file g.consecutive_rate_limits (rw e refl) refl
      (waits-later s rs _ _ r.recorded_at g.consecutive_rate_limits (omega arith) h)
