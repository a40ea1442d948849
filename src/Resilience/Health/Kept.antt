-- ===== src/Resilience/Health/Kept.antt =====
-- The monitor of brokers/common/resilience/broker_health_monitor.py keeps the summaries of the calls.
use inc_trade.Prelude.{
  ℕ, ◌≤◌, ◌≡◌, ◌∙◌, refl, sym, subst, if_pos, if_neg, true, false, none, some, List, [], ◌∷◌, ltb,
  length, take, arith, IsDistinct,
}
use inc_trade.Prelude.Dict.{
  Dict, keys, lookup, erase, insert-IsDistinct, erase-IsDistinct, lookup-erase_self,
  lookup-erase_ne,
}
use inc_trade.Resilience.Health.{
  BrokerHealthStatus, OutcomeRecord, BrokerHealthMonitor, new_status, failures_of, latencies,
  median, ensure, ensure_window, record_outcome, record_success, record_failure, is_healthy, reset,
}
use inc_trade.Resilience.Health.Summary.{
  failures_in_row, rate_of, state_of, summary, if_called, Call, succeeds, fails, resets,
  add_outcome, history_step, history, step, run, IsSummary, take-take, outside,
  recompute_stats-take, summary-nil, not_reached, still_unhealthy, add_one, called_or, take-nil,
  lookup-insert_called,
}

module _ {K : Type 0} (dec : Discrete K) (threshold size : ℕ) (h : K → List OutcomeRecord)
    (m : BrokerHealthMonitor K) (p : 1 ≤ threshold) (k : IsSummary dec threshold size h m)
    (broker : K) where
  ensure-summary : ensure dec broker m ≡ summary threshold size (h broker)
  unfolding state_of median
  ensure-summary =
      called_or (summary threshold size) new_status (h broker) (lookup dec broker m.health)
        (summary-nil threshold size p) (k.statuses broker)

  ensure_window-take : ensure_window dec broker m ≡ take size (h broker)
  ensure_window-take =
      called_or (take size) [] (h broker) (lookup dec broker m.windows) (take-nil size)
        (k.windows_kept broker)

  record_outcome-IsSummary :
      (r : OutcomeRecord) (s : BrokerHealthStatus)
      → outside s
          (rate_of (take size (r ∷ h broker)))
          (median (latencies (take size (r ∷ h broker))))
        ≡ summary threshold size (r ∷ h broker)
      → s.error_rate ≡ rate_of (take size (h broker))
      → s.latency_p50 ≡ median (latencies (take size (h broker)))
      → IsSummary dec threshold size (add_outcome dec broker r h) (record_outcome dec broker r s m)
  unfolding record_outcome
  record_outcome-IsSummary r s e rate p50 = record {
    threshold_same = k.threshold_same;
    size_same = k.size_same;
    health_distinct = insert-IsDistinct dec broker _ m.health k.health_distinct;
    windows_distinct = insert-IsDistinct dec broker _ m.windows k.windows_distinct;
    statuses = lookup-insert_called dec (summary threshold size) h m.health broker r _ k.statuses (
        rw (k.size_same, ensure_window-take, take-take size r (h broker))
          (recompute_stats-take size r (h broker) s rate p50 ∙ e));
    windows_kept =
        lookup-insert_called dec (take size) h m.windows broker r _ k.windows_kept
          (rw (k.size_same, ensure_window-take) (take-take size r (h broker)));
  }

  record_success-IsSummary :
      (now latency : ℕ)
      → IsSummary dec threshold size
          (history_step dec (succeeds now broker latency) h)
          (record_success dec now broker latency m)
  unfolding record_success state_of
  record_success-IsSummary now latency =
      record_outcome-IsSummary (record { success = true; latency_ms = latency; timestamp = now }) _
        (rw (ensure-summary, not_reached threshold p, add_one (length (h broker))) refl)
        (rw ensure-summary refl) (rw ensure-summary refl)

  record_failure-IsSummary :
      (now latency : ℕ)
      → IsSummary dec threshold size
          (history_step dec (fails now broker latency) h)
          (record_failure dec now broker latency m)
  unfolding record_failure state_of
  record_failure-IsSummary now latency =
      record_outcome-IsSummary (record { success = false; latency_ms = latency; timestamp = now }) _
        (rw
          (
            ensure-summary,
            k.threshold_same,
            add_one (failures_in_row (h broker)),
            add_one (length (h broker)),
            add_one (failures_of (h broker)),
            still_unhealthy threshold (failures_in_row (h broker)),
          )
          refl)
        (rw ensure-summary refl) (rw ensure-summary refl)

  erase_called :
      {A : Type 0} (f : List OutcomeRecord → A) (d : Dict K A)
      → IsDistinct dec (keys d)
      → ((j : K) → lookup dec j d ≡ if_called f (h j))
      → (j : K)
      → lookup dec j (erase dec broker d)
        ≡ if_called f (history_step dec (resets (some broker)) h j)
  erase_called f d distinct held j = elim (dec broker j) [
    | yes y ↦ rw (if_pos _ y) (
        subst (λ i. lookup dec i (erase dec broker d) ≡ none) y
          (lookup-erase_self dec broker d distinct))
    | no n ↦ rw (if_neg _ n) (lookup-erase_ne dec j broker d (λ e. n (sym e)) ∙ held j)
  ]

  reset-IsSummary :
      IsSummary dec threshold size
        (history_step dec (resets (some broker)) h)
        (reset dec (some broker) m)
  unfolding reset
  reset-IsSummary = record {
    threshold_same = k.threshold_same;
    size_same = k.size_same;
    health_distinct = erase-IsDistinct dec broker m.health k.health_distinct;
    windows_distinct = erase-IsDistinct dec broker m.windows k.windows_distinct;
    statuses = erase_called (summary threshold size) m.health k.health_distinct k.statuses;
    windows_kept = erase_called (take size) m.windows k.windows_distinct k.windows_kept;
  }

module _ {K : Type 0} (dec : Discrete K) (threshold size : ℕ) (p : 1 ≤ threshold) where
  step-IsSummary :
      (c : Call K) (h : K → List OutcomeRecord) (m : BrokerHealthMonitor K)
      → IsSummary dec threshold size h m
      → IsSummary dec threshold size (history_step dec c h) (step dec c m)
  unfolding step reset
  step-IsSummary (succeeds now broker latency) h m k =
      record_success-IsSummary dec threshold size h m p k broker now latency
  step-IsSummary (fails now broker latency) h m k =
      record_failure-IsSummary dec threshold size h m p k broker now latency
  step-IsSummary (resets none) h m k = record {
    threshold_same = k.threshold_same;
    size_same = k.size_same;
    health_distinct = tt;
    windows_distinct = tt;
    statuses = λ j. refl;
    windows_kept = λ j. refl;
  }
  step-IsSummary (resets (some broker)) h m k = reset-IsSummary dec threshold size h m p k broker

  run-IsSummary :
      (cs : List (Call K)) (h : K → List OutcomeRecord) (m : BrokerHealthMonitor K)
      → IsSummary dec threshold size h m
      → IsSummary dec threshold size (history dec cs h) (run dec cs m)
  unfolding run
  run-IsSummary [] h m k = k
  run-IsSummary (c ∷ cs) h m k =
      run-IsSummary cs (history_step dec c h) (step dec c m) (step-IsSummary c h m k)

  is_healthy-state :
      (broker : K) (h : List OutcomeRecord) (m : BrokerHealthMonitor K)
      → lookup dec broker m.health ≡ if_called (summary threshold size) h
      → is_healthy dec broker m ≡ ltb (failures_in_row h) threshold
  unfolding is_healthy state_of
  is_healthy-state broker [] m e = ground arith
  is_healthy-state broker (r ∷ rs) m e = rw (is_healthy, e) (ground arith)

  -- After any successes, failures and resets of a new monitor with a threshold of one or more, the status
  -- of a broker is the summary of its calls since its last reset (none without calls): the last
  -- success, the failures since then, unhealthy exactly if these reach the threshold, and over the last
  -- calls that fit in the window the share of failures and the median of the latencies; the window
  -- holds just these calls, and `is_healthy` answers accordingly.
  pub run-summarises :
      (cs : List (Call K)) (broker : K)
      → let m = run dec cs (record {
        failure_threshold = threshold;
        window_size = size;
        health = [];
        windows = [];
      }) in
        let h = history dec cs (λ k. []) broker in
        (lookup dec broker m.health ≡ if_called (summary threshold size) h)
        × (lookup dec broker m.windows ≡ if_called (take size) h)
        × (is_healthy dec broker m ≡ ltb (failures_in_row h) threshold)
  run-summarises cs broker =
      let k =
        run-IsSummary cs (λ k. []) _
          (record {
            threshold_same = refl;
            size_same = refl;
            health_distinct = tt;
            windows_distinct = tt;
            statuses = λ j. refl;
            windows_kept = λ j. refl;
          }) in
      (
        k.statuses broker,
        k.windows_kept broker,
        is_healthy-state broker (history dec cs (λ k. []) broker) _ (k.statuses broker),
      )
