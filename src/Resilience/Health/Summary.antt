-- ===== src/Resilience/Health/Summary.antt =====
-- What the health of a broker says of the calls to it.
use inc_trade.Prelude.{
  ℕ, zero, suc, ◌+◌, ◌≤◌, ◌≡◌, ◌∙◌, refl, sym, ap, true, false, Option, none, some, List, [], ◌∷◌,
  leb, if◌then◌else◌, length, take, arith, ite, IsDistinct,
}
use inc_trade.Prelude.Dict.{Dict, keys, lookup, insert, lookup-insert}
use inc_trade.Historical.Merge.{sort_by}
use inc_trade.Resilience.Health.{
  HealthState, healthy, unhealthy, ErrorRate, BrokerHealthStatus, OutcomeRecord,
  BrokerHealthMonitor, no_rate, new_status, failures_of, latencies, median, recompute_stats,
  record_success, record_failure, reset,
}

-- The outcomes of the calls to a broker since its last reset, the last first, say:
-- when the last success was,
abbrev pub last_success : List OutcomeRecord → Option ℕ
last_success [] = none
last_success (r ∷ rs) = if r.success then some r.timestamp else last_success rs

-- how many failures there are since then,
abbrev pub failures_in_row : List OutcomeRecord → ℕ
failures_in_row [] = 0
failures_in_row (r ∷ rs) = if r.success then 0 else suc (failures_in_row rs)

abbrev pub last_time : List OutcomeRecord → ℕ
last_time [] = 0
last_time (r ∷ rs) = r.timestamp

-- and what share of the window failed.
abbrev pub rate_of : List OutcomeRecord → ErrorRate
rate_of [] = no_rate
rate_of (r ∷ rs) = record { failures = failures_of (r ∷ rs); calls = length (r ∷ rs) }

unfoldable pub state_of : ℕ → List OutcomeRecord → HealthState
state_of threshold h = if leb threshold (failures_in_row h) then unhealthy else healthy

abbrev pub summary : ℕ → ℕ → List OutcomeRecord → BrokerHealthStatus
summary threshold size h = record {
  last_successful_call = last_success h;
  consecutive_failures = failures_in_row h;
  circuit_state = state_of threshold h;
  last_health_check = last_time h;
  error_rate = rate_of (take size h);
  latency_p50 = median (latencies (take size h));
  total_calls = length h;
  total_failures = failures_of h;
}

-- A broker without calls has no entry.
abbrev pub if_called : {A : Type 0} → (List OutcomeRecord → A) → List OutcomeRecord → Option A
if_called f [] = none
if_called f (r ∷ rs) = some (f (r ∷ rs))

pub data Call (K : Type 0) : Type 0 where
  succeeds fails : ℕ → K → ℕ → Call K
  resets : Option K → Call K

module _ {K : Type 0} (dec : Discrete K) where
  abbrev pub add_outcome : K → OutcomeRecord → (K → List OutcomeRecord) → K → List OutcomeRecord
  add_outcome broker r h k = ite (dec broker k) (r ∷ h k) (h k)

  -- The outcomes of each broker after a call.
  abbrev pub history_step : Call K → (K → List OutcomeRecord) → K → List OutcomeRecord
  history_step (succeeds now broker latency) h =
      add_outcome broker (record { success = true; latency_ms = latency; timestamp = now }) h
  history_step (fails now broker latency) h =
      add_outcome broker (record { success = false; latency_ms = latency; timestamp = now }) h
  history_step (resets none) h = λ k. []
  history_step (resets (some broker)) h = λ k. ite (dec broker k) [] (h k)

  abbrev pub history : List (Call K) → (K → List OutcomeRecord) → K → List OutcomeRecord
  history [] h = h
  history (c ∷ cs) h = history cs (history_step c h)

  unfoldable pub step : Call K → BrokerHealthMonitor K → BrokerHealthMonitor K
  unfolding record_success record_failure reset
  step (succeeds now broker latency) m = record_success dec now broker latency m
  step (fails now broker latency) m = record_failure dec now broker latency m
  step (resets broker) m = reset dec broker m

  unfoldable pub run : List (Call K) → BrokerHealthMonitor K → BrokerHealthMonitor K
  unfolding step
  run [] m = m
  run (c ∷ cs) m = run cs (step c m)

  -- The monitor holds the summaries of the histories, and their windows.
  pub record IsSummary (threshold size : ℕ) (h : K → List OutcomeRecord) (m : BrokerHealthMonitor K)
      : Type 0 where
    pub threshold_same : m.failure_threshold ≡ threshold
    pub size_same : m.window_size ≡ size
    pub health_distinct : IsDistinct dec (keys m.health)
    pub windows_distinct : IsDistinct dec (keys m.windows)
    pub statuses : (k : K) → lookup dec k m.health ≡ if_called (summary threshold size) (h k)
    pub windows_kept : (k : K) → lookup dec k m.windows ≡ if_called (take size) (h k)

pub take-take :
    (n : ℕ) (r : OutcomeRecord) (rs : List OutcomeRecord) → take n (r ∷ take n rs) ≡ take n (r ∷ rs)
take-take zero r rs = refl
take-take (suc zero) r rs = refl
take-take (suc (suc n)) r [] = refl
take-take (suc (suc n)) r (s ∷ rs) = ap (λ ys. r ∷ ys) (take-take (suc n) s rs)

-- A status but for what the window says.
abbrev pub outside : BrokerHealthStatus → ErrorRate → ℕ → BrokerHealthStatus
outside s rate p50 = record s { error_rate = rate; latency_p50 = p50 }

outside_self :
    (s : BrokerHealthStatus) (rate : ErrorRate) (p50 : ℕ)
    → s.error_rate ≡ rate
    → s.latency_p50 ≡ p50
    → s ≡ outside s rate p50
outside_self s rate p50 e f = rw (sym e, sym f) refl

pub recompute_stats-take :
    (size : ℕ) (r : OutcomeRecord) (rs : List OutcomeRecord) (s : BrokerHealthStatus)
    → s.error_rate ≡ rate_of (take size rs)
    → s.latency_p50 ≡ median (latencies (take size rs))
    → recompute_stats (take size (r ∷ rs)) s
      ≡ outside s (rate_of (take size (r ∷ rs))) (median (latencies (take size (r ∷ rs))))
unfolding recompute_stats
recompute_stats-take zero r rs s e f = outside_self s no_rate (median (latencies [])) e f
recompute_stats-take (suc n) r rs s e f = refl

state_of-nil : (threshold : ℕ) → 1 ≤ threshold → state_of threshold [] ≡ healthy
unfolding state_of
state_of-nil threshold p = ground arith

pub take-nil : (n : ℕ) → take {A = OutcomeRecord} n [] ≡ []
take-nil zero = refl
take-nil (suc n) = refl

pub summary-nil : (threshold size : ℕ) → 1 ≤ threshold → summary threshold size [] ≡ new_status
unfolding median sort_by
summary-nil threshold size p = rw (take-nil size, state_of-nil threshold p) refl

pub not_reached : (threshold : ℕ) → 1 ≤ threshold → leb threshold 0 ≡ false
not_reached threshold p = ground arith

-- One more failure leaves an unhealthy broker unhealthy.
pub still_unhealthy :
    (threshold n : ℕ)
    → (if leb threshold (suc n)
        then unhealthy
        else (if leb threshold n then unhealthy else healthy))
      ≡ (if leb threshold (suc n) then unhealthy else healthy)
still_unhealthy threshold n = ground arith

pub add_one : (n : ℕ) → n + 1 ≡ suc n
add_one n = omega arith

pub called_or :
    {A : Type 0} (f : List OutcomeRecord → A) (a : A) (h : List OutcomeRecord) (o : Option A)
    → f [] ≡ a
    → o ≡ if_called f h
    → elim o [ none ↦ a | some x ↦ x ] ≡ f h
called_or f a [] o e q = rw q (sym e)
called_or f a (r ∷ rs) o e q = rw q refl

ite_called :
    {K A : Type 0} (f : List OutcomeRecord → A) (h : K → List OutcomeRecord) (broker j : K)
    (r : OutcomeRecord) (a : A) (o : Option A)
    → a ≡ f (r ∷ h broker)
    → o ≡ if_called f (h j)
    → (x : Dec (broker ≡ j)) → ite x (some a) o ≡ if_called f (ite x (r ∷ h j) (h j))
ite_called f h broker j r a o e held (yes y) = ap some (e ∙ ap (λ k. f (r ∷ h k)) y)
ite_called f h broker j r a o e held (no n) = held

pub lookup-insert_called :
    {K A : Type 0} (dec : Discrete K) (f : List OutcomeRecord → A) (h : K → List OutcomeRecord)
    (d : Dict K A) (broker : K) (r : OutcomeRecord) (a : A)
    → ((k : K) → lookup dec k d ≡ if_called f (h k))
    → a ≡ f (r ∷ h broker)
    → (j : K) → lookup dec j (insert dec broker a d) ≡ if_called f (add_outcome dec broker r h j)
lookup-insert_called dec f h d broker r a held e j =
    lookup-insert dec j broker a d
    ∙ ite_called f h broker j r a (lookup dec j d) e (held j) (dec broker j)
