-- ===== src/Stream/Reconnect.antt =====
-- `_reconnect_loop` and `_try_failover` of brokers/common/stream_orchestrator.py. A round of the loop is two
-- steps, since other calls may come in while it sleeps: `watch` looks at the handle, and `reopen` goes
-- on after the sleep.
use Prim.Native.String.{String}
use inc_trade.Prelude.{
  ℕ, ◌*◌, min, Bool, true, false, ◌&&◌, Option, none, some, List, [], ◌∷◌, leb, if◌then◌else◌,
}
use inc_trade.Prelude.Dict.{lookup, insert}
use inc_trade.Prelude.Result.{Result, ok, err}
use inc_trade.Routing.Models.{RouteDecision}
use inc_trade.Routing.Policy.{Mode, SourceSelectionPolicy}
use inc_trade.Routing.Registry.{BrokerRegistry}
use inc_trade.Routing.Router.{EndpointClass, RouteError, route}
use inc_trade.Stream.Models.{
  HealthOps, StreamSession, StreamPlan, GatewayStreams, Monitor, StreamOrchestrator,
}
use inc_trade.Stream.Sessions.{put_session, stream_request}
use inc_trade.Stream.Subscribe.{open_stream}

abbrev pub reconnect_base_delay_s : ℕ
reconnect_base_delay_s = 1

abbrev pub reconnect_max_delay_s : ℕ
reconnect_max_delay_s = 60

abbrev pub max_reconnect_attempts : ℕ
max_reconnect_attempts = 5

-- `handle is not None and handle.is_connected()`
abbrev pub transport_ok : {T : Type 0} → (T → Bool) → Option T → Bool
transport_ok is_connected none = false
transport_ok is_connected (some handle) = is_connected handle

-- The session whose stream has been opened again.
abbrev pub restored : {S H : Type 0} → HealthOps H → StreamSession S H → StreamSession S H
restored ops s = record s {
  health = ops.freshness_unknown (ops.acknowledged (ops.connected s.health));
}

module _ {S C T H : Type 0} (dec : Discrete S) where
  unfoldable pub set_monitor :
      S → Monitor S C → StreamOrchestrator S C T H → StreamOrchestrator S C T H
  set_monitor sid m o = record o {
    session_reconnect_tasks = insert dec sid m o.session_reconnect_tasks;
  }

  -- From the end of the first sleep to the second: is there a round to go on with? The test of `self._running` is left
  -- out: a loop here may go on where it would have ended.
  unfoldable pub watch :
      HealthOps H → (T → Bool) → S → StreamOrchestrator S C T H → StreamOrchestrator S C T H × Bool
  unfolding set_monitor
  watch ops is_connected sid o = elim (lookup dec sid o.session_reconnect_tasks) [
    | none ↦ (o, false)
    | some m ↦ elim (lookup dec sid o.sessions) [
      | none ↦ (set_monitor sid (record m { finished = true }) o, false)
      | some s ↦
          if m.finished
          then (o, false)
          else if transport_ok is_connected (lookup dec sid o.handles)
          then (o, false)
          else (
            set_monitor sid (record m { delay = min (m.delay * 2) reconnect_max_delay_s })
                (put_session dec
                  (record s {
                    reconnect_generation = ops.increment_reconnect s.reconnect_generation;
                    health = ops.reconnecting s.health;
                  })
                  o),
            true,
          )
    ]
  ]

module _ {S C T H : Type 0} (dec : Discrete S) where
  -- The plan of a session that is opened again.
  abbrev pub plan_again : StreamSession S H → StreamOrchestrator S C T H → StreamPlan S
  plan_again s o = record {
    instruments = s.instruments;
    modes = s.modes;
    on_raw_frame = lookup dec s.session_id o.session_frame_handlers;
  }

  abbrev pub with_handle :
      StreamSession S H → T → StreamOrchestrator S C T H → StreamOrchestrator S C T H
  with_handle s handle o = record (put_session dec s o) {
    handles = insert dec s.session_id handle o.handles;
  }

  -- A fallback broker has opened the stream, or has not.
  abbrev pub failed_over :
      {X : Type 0}
      → StreamSession S H
      → StreamOrchestrator S C T H
      → StreamOrchestrator S C T H × Bool
      → Result X T
      → StreamOrchestrator S C T H × Bool
  failed_over moved o rest (err _) = rest
  failed_over moved o rest (ok handle) = (with_handle moved handle o, true)

  -- The broker has opened the stream again, or has not.
  abbrev pub reconnected :
      {X : Type 0}
      → StreamSession S H
      → Monitor S C
      → StreamOrchestrator S C T H
      → Result X T
      → StreamOrchestrator S C T H
  reconnected s m o (err _) = o
  reconnected s m o (ok handle) =
      set_monitor dec s.session_id (record m { delay = reconnect_base_delay_s })
        (with_handle s handle o)

module _ {S C F G Z E T H : Type 0} (dec : Discrete S) (ops : HealthOps H)
    (streams : GatewayStreams S G E T) (r : BrokerRegistry S F G Z) where
  -- The loop over the fallback brokers.
  unfoldable pub try_brokers :
      StreamSession S H → List S → StreamOrchestrator S C T H → StreamOrchestrator S C T H × Bool
  unfolding open_stream
  try_brokers s [] o = (o, false)
  try_brokers s (broker ∷ brokers) o =
      let rest = try_brokers s brokers o in
      let moved : StreamSession S H = record (restored ops s) {
        broker_id = broker;
        reconnect_generation = 0;
      } in
      elim (dec broker s.broker_id) [
        | yes _ ↦ rest
        | no _ ↦
            failed_over dec moved o rest
              (open_stream dec streams r broker s.stream_kind (plan_again dec s o))
      ]

  -- The stream is opened again at the same broker.
  unfoldable pub reconnect :
      StreamSession S H → Monitor S C → StreamOrchestrator S C T H → StreamOrchestrator S C T H
  unfolding open_stream set_monitor
  reconnect s m o =
      reconnected dec (restored ops s) m o
        (open_stream dec streams r s.broker_id s.stream_kind (plan_again dec s o))

  module _ (headroom : Option (S → EndpointClass → ℕ)) (policy : SourceSelectionPolicy S F) where
    -- What the router's answer leads to.
    abbrev pub search_route :
        StreamSession S H
        → StreamOrchestrator S C T H
        → Result (RouteError S F) (RouteDecision S F Mode)
        → StreamOrchestrator S C T H × Bool
    search_route s o (err _) = (o, false)
    search_route s o (ok decision) = try_brokers s decision.fallback_brokers o

    unfoldable pub try_failover :
        StreamSession S H → String → StreamOrchestrator S C T H → StreamOrchestrator S C T H × Bool
    unfolding try_brokers
    try_failover s trace o =
        search_route s o
          (route dec r headroom policy (stream_request dec r headroom policy s.stream_kind trace))

    -- After a failover that succeeded the loop returns.
    abbrev pub after_failover :
        StreamSession S H
        → Monitor S C
        → StreamOrchestrator S C T H × Bool
        → StreamOrchestrator S C T H
    after_failover s m (o, true) = set_monitor dec s.session_id (record m { finished = true }) o
    after_failover s m (o, false) = reconnect s m o

    -- The rest of a round. The task ends with its session.
    unfoldable pub reopen : String → S → StreamOrchestrator S C T H → StreamOrchestrator S C T H
    unfolding try_failover reconnect
    reopen trace sid o = elim (lookup dec sid o.session_reconnect_tasks) [
      | none ↦ o
      | some m ↦ elim (lookup dec sid o.sessions) [
        | none ↦ o
        | some s ↦
            if leb max_reconnect_attempts s.reconnect_generation && m.request.allow_failover
            then after_failover s m (try_failover s trace o)
            else reconnect s m o
      ]
    ]
