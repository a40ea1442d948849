-- ===== src/Stream/Frames.antt =====
-- The delivery of frames, the heartbeat and the summaries of brokers/common/stream_orchestrator.py. A step
-- returns what the consumers are told, in order; that a consumer raises, or takes more than its second,
-- changes nothing of the state. What the consumers of one frame wait for is not told apart.
use inc_trade.Prelude.{
  ℕ, ◌-◌, Bool, false, ◌&&◌, not, Option, none, some, List, [], ◌∷◌, ◌++◌, map, length, filter, ltb,
  if◌then◌else◌,
}
use inc_trade.Prelude.Dict.{Dict, lookup}
use inc_trade.Prelude.Result.{Result, ok, err}
use inc_trade.Stream.Models.{
  StreamKind, market, order, portfolio, HealthOps, StreamSession, StreamOrchestrator,
}
use inc_trade.Stream.Sessions.{subscribers, put_session}
use inc_trade.Stream.Normalise.{
  on_stream_health_change, on_order_update, on_market_tick, Frame, ValueOps, MarketTick,
  OrderUpdate, Event, normalize_tick, normalize_order_update,
}

module _ {S C T H : Type 0} (dec : Discrete S) where
  abbrev pub consumers_of : S → StreamOrchestrator S C T H → List C
  consumers_of sid o = map (λ a. a.request.consumer) (subscribers dec sid o.subscriptions)

module _ {S V N C T H : Type 0} (dec : Discrete S) where
  abbrev pub notify_health_change : S → H → StreamOrchestrator S C T H → List (Event S V N C H)
  notify_health_change sid health o =
      map (λ c. on_stream_health_change c sid health) (consumers_of dec sid o)

  unfoldable pub deliver_order_update :
      S → OrderUpdate S V N → StreamOrchestrator S C T H → List (Event S V N C H)
  deliver_order_update sid update o = map (λ c. on_order_update c update) (consumers_of dec sid o)

  -- `at` is the second reading of the clock.
  unfoldable pub deliver_tick :
      HealthOps H
      → ℕ
      → S
      → MarketTick S V N
      → StreamOrchestrator S C T H
      → StreamOrchestrator S C T H × List (Event S V N C H)
  deliver_tick ops at sid tick o =
      let told = map (λ c. on_market_tick c tick) (consumers_of dec sid o) in
      elim (lookup dec sid o.sessions) [
        | none ↦ (o, told)
        | some s ↦
            let heard = ops.record_message at s.health in
            let fresh = ops.freshness_fresh at heard in
            (
              put_session dec (record s { health = fresh }) o,
              told ++ (if ops.is_fresh heard then [] else notify_health_change sid fresh o),
            )
      ]

  -- The end of `_handle_frame`, unless the frame could not be read: then only its arrival is kept.
  abbrev pub delivered_tick :
      {X : Type 0}
      → HealthOps H
      → ℕ
      → S
      → StreamOrchestrator S C T H
      → Result X (Option (MarketTick S V N))
      → StreamOrchestrator S C T H × List (Event S V N C H)
  delivered_tick ops at sid o (err _) = (o, [])
  delivered_tick ops at sid o (ok none) = (o, [])
  delivered_tick ops at sid o (ok (some tick)) = deliver_tick ops at sid tick o

  abbrev pub delivered_update :
      {X : Type 0}
      → S
      → StreamOrchestrator S C T H
      → Result X (Option (OrderUpdate S V N))
      → StreamOrchestrator S C T H × List (Event S V N C H)
  delivered_update sid o (err _) = (o, [])
  delivered_update sid o (ok none) = (o, [])
  delivered_update sid o (ok (some update)) = (o, deliver_order_update sid update o)

module _ {S V X N C T H : Type 0} (dec : Discrete S) (ops : HealthOps H) (py : ValueOps V X N) where
  -- What the kind of the stream makes of a frame.
  abbrev pub delivered :
      ℕ
      → ℕ
      → S
      → S
      → Frame V
      → StreamOrchestrator S C T H
      → StreamKind
      → StreamOrchestrator S C T H × List (Event S V N C H)
  delivered now at sid broker frame o market =
      delivered_tick dec ops at sid o (normalize_tick py frame sid broker now)
  delivered now at sid broker frame o order =
      delivered_update dec sid o (normalize_order_update py frame sid broker now)
  delivered now at sid broker frame o portfolio =
      delivered_update dec sid o (normalize_order_update py frame sid broker now)

  unfoldable pub handle_frame :
      ℕ
      → ℕ
      → S
      → StreamKind
      → Frame V
      → StreamOrchestrator S C T H
      → StreamOrchestrator S C T H × List (Event S V N C H)
  handle_frame now at sid kind frame o = elim (lookup dec sid o.sessions) [
    | none ↦ (o, [])
    | some s ↦
        let heard = put_session dec (record s { health = ops.record_message now s.health }) o in
        delivered now at sid s.broker_id frame heard kind
  ]

-- The session has been silent for longer than its threshold, and is not known to be stale.
abbrev pub turns_stale : {H : Type 0} → HealthOps H → ℕ → H → Bool
turns_stale ops now health = elim (ops.last_valid_tick_at health) [
  | none ↦ false
  | some last ↦ ltb (ops.stale_seconds_threshold health) (now - last) && not (ops.is_stale health)
]

module _ {S H : Type 0} (ops : HealthOps H) where
  unfoldable pub check_freshness : ℕ → StreamSession S H → StreamSession S H
  check_freshness now s =
      if turns_stale ops now s.health then record s { health = ops.freshness_stale s.health } else s

  -- A round of `_heartbeat_loop`. The sessions that turn stale are those whose consumers are told.
  unfoldable pub heartbeat_round :
      {C T : Type 0} → ℕ → StreamOrchestrator S C T H → StreamOrchestrator S C T H × List S
  unfolding check_freshness
  heartbeat_round now o = (
    record o {
      sessions = map (λ (e : S × StreamSession S H). (e.0, check_freshness now e.1)) o.sessions;
    },
    map (λ (e : S × StreamSession S H). e.1.session_id)
        (filter (λ e. turns_stale ops now e.1.health) o.sessions),
  )

-- `domain.stream_health.StreamStateSummary`
pub record StreamStateSummary (S : Type 0) : Type 0 where
  pub broker_id : S
  pub active_sessions : ℕ
  pub healthy_sessions : ℕ
  pub stale_sessions : ℕ
  pub degraded_sessions : ℕ

module _ {S H : Type 0} (dec : Discrete S) where
  abbrev pub sessions_of : S → Dict S (StreamSession S H) → List (StreamSession S H)
  sessions_of broker [] = []
  sessions_of broker (e ∷ d) = elim (dec e.1.broker_id broker) [
    | yes _ ↦ e.1 ∷ sessions_of broker d
    | no _ ↦ sessions_of broker d
  ]

module _ {S C T H : Type 0} (dec : Discrete S) (ops : HealthOps H) where
  unfoldable pub build_stream_summary : S → StreamOrchestrator S C T H → StreamStateSummary S
  build_stream_summary broker o =
      let count = λ (test : H → Bool).
        length (filter (λ s. test s.health) (sessions_of dec broker o.sessions)) in
      record {
        broker_id = broker;
        active_sessions = length (sessions_of dec broker o.sessions);
        healthy_sessions = count ops.is_healthy;
        stale_sessions = count ops.is_stale;
        degraded_sessions = count ops.is_degraded;
      }
