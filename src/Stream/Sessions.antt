-- ===== src/Stream/Sessions.antt =====
-- Subscribing and unsubscribing: `subscribe`, `unsubscribe`, `start` and `stop` of
-- brokers/common/stream_orchestrator.py, and the methods that they call. What runs under the lock is one
-- step. The ids that `uuid4` makes are arguments.
use Prim.Native.String.{String}
use inc_trade.Prelude.{
  ℕ, true, false, ◌&&◌, not, Option, none, some, List, [], ◌∷◌, ◌++◌, ite, filter, mem,
  if◌then◌else◌,
}
use inc_trade.Prelude.Dict.{Dict, keys, lookup, insert, erase}
use inc_trade.Prelude.Result.{Result, ok, err}
use inc_trade.Routing.Models.{
  OperationKind, open_market_stream, open_order_stream, is_usable, RoutingRequest,
}
use inc_trade.Routing.Policy.{SourceSelectionPolicy}
use inc_trade.Routing.Registry.{BrokerRegistry, BrokerUnavailable, get_health}
use inc_trade.Routing.Router.{EndpointClass, RouteError, route}
use inc_trade.Stream.Models.{
  StreamKind, market, order, portfolio, kind_eq, HealthOps, StreamSession, SubscriptionRequest,
  ActiveSubscription, StreamPlan, GatewayStreams, Task, heartbeat, monitor_of, StreamOrchestrator,
}

-- The exceptions of `subscribe`: the router's, the registry's, and the gateway's.
pub data StreamError (S F E : Type 0) : Type 0 where
  routing_failed : RouteError S F → StreamError S F E
  broker_unavailable : BrokerUnavailable S → StreamError S F E
  open_failed : E → StreamError S F E

unfoldable pub operation_of : StreamKind → OperationKind
operation_of market = open_market_stream
operation_of order = open_order_stream
operation_of portfolio = open_order_stream

-- `gw.open_market_stream(plan)`, or `gw.open_order_stream(plan)` for the other kinds.
unfoldable pub open_on :
    {S G E T : Type 0} → GatewayStreams S G E T → G → StreamKind → StreamPlan S → Result E T
open_on streams gw market plan = streams.open_market_stream gw plan
open_on streams gw order plan = streams.open_order_stream gw plan
open_on streams gw portfolio plan = streams.open_order_stream gw plan

module _ {S : Type 0} (dec : Discrete S) where
  -- `xs - ys` and `xs | ys`
  abbrev pub difference : List S → List S → List S
  difference xs ys = filter (λ x. not (mem dec x ys)) xs

  abbrev pub union : List S → List S → List S
  union xs ys = xs ++ difference ys xs

  -- The subscriptions of a session.
  abbrev pub subscribers :
      {C : Type 0} → S → Dict S (ActiveSubscription S C) → List (ActiveSubscription S C)
  subscribers sid [] = []
  subscribers sid (e ∷ d) = elim (dec e.1.session_id sid) [
    | yes _ ↦ e.1 ∷ subscribers sid d
    | no _ ↦ subscribers sid d
  ]

  -- The task is removed from `_tasks`.
  unfoldable pub remove_task : S → List (Task S) → List (Task S)
  remove_task sid [] = []
  remove_task sid (heartbeat ∷ ts) = heartbeat ∷ remove_task sid ts
  remove_task sid (monitor_of k ∷ ts) = ite (dec k sid) ts (monitor_of k ∷ remove_task sid ts)

module _ {S C T H : Type 0} where
  unfoldable pub start : StreamOrchestrator S C T H → StreamOrchestrator S C T H
  start o = record o { running = true; tasks = o.tasks ++ heartbeat ∷ [] }

module _ {S C T H : Type 0} (dec : Discrete S) where
  -- A session object is changed in place.
  abbrev pub put_session :
      StreamSession S H → StreamOrchestrator S C T H → StreamOrchestrator S C T H
  put_session s o = record o { sessions = insert dec s.session_id s o.sessions }

  unfoldable pub disconnect_session : S → StreamOrchestrator S C T H → StreamOrchestrator S C T H
  disconnect_session sid o = record o {
    session_reconnect_tasks = erase dec sid o.session_reconnect_tasks;
    tasks = elim (lookup dec sid o.session_reconnect_tasks) [
      | none ↦ o.tasks
      | some _ ↦ remove_task dec sid o.tasks
    ];
    session_frame_handlers = erase dec sid o.session_frame_handlers;
    handles = erase dec sid o.handles;
    sessions = erase dec sid o.sessions;
  }

  unfoldable pub disconnect_all : List S → StreamOrchestrator S C T H → StreamOrchestrator S C T H
  disconnect_all [] o = o
  disconnect_all (sid ∷ sids) o = disconnect_all sids (disconnect_session sid o)

  unfoldable pub stop : StreamOrchestrator S C T H → StreamOrchestrator S C T H
  unfolding disconnect_all
  stop o = disconnect_all (keys o.sessions) (record o { running = false; tasks = [] })

  unfoldable pub unsubscribe : S → StreamOrchestrator S C T H → StreamOrchestrator S C T H
  unfolding disconnect_session
  unsubscribe sub_id o = elim (lookup dec sub_id o.subscriptions) [
    | none ↦ o
    | some sub ↦
        let left = erase dec sub_id o.subscriptions in
        let popped : StreamOrchestrator S C T H = record o { subscriptions = left } in
        elim (subscribers dec sub.session_id left) [
          | [] ↦ disconnect_session sub.session_id popped
          | _ ∷ _ ↦ popped
        ]
  ]

module _ {S H : Type 0} (dec : Discrete S) (ops : HealthOps H) where
  -- A healthy session for the same broker and kind, `_find_reusable_session`.
  unfoldable pub find_reusable_session :
      S → StreamKind → Dict S (StreamSession S H) → Option (StreamSession S H)
  find_reusable_session broker kind [] = none
  find_reusable_session broker kind (e ∷ d) =
      let later = find_reusable_session broker kind d in
      elim (dec e.1.broker_id broker) [
        | no _ ↦ later
        | yes _ ↦
            if kind_eq e.1.stream_kind kind && ops.is_healthy e.1.health then some e.1 else later
      ]

module _ {S F G Z : Type 0} (dec : Discrete S) (r : BrokerRegistry S F G Z) where
  -- The loop over `preferred_brokers`.
  unfoldable pub preferred_usable : List S → Option S
  preferred_usable [] = none
  preferred_usable (bid ∷ bids) =
      let later = preferred_usable bids in
      if is_usable (get_health dec bid r) then some bid else later

  module _ (headroom : Option (S → EndpointClass → ℕ)) (policy : SourceSelectionPolicy S F) where
    unfoldable pub stream_request : StreamKind → String → RoutingRequest F
    unfolding operation_of
    stream_request kind trace = record {
      operation = operation_of kind;
      trace_id = trace;
      required_features = [];
    }

    unfoldable pub select_broker :
        {C : Type 0} → SubscriptionRequest S C → String → Result (RouteError S F) S
    unfolding stream_request
    select_broker request trace = elim (preferred_usable request.preferred_brokers) [
      | some bid ↦ ok bid
      | none ↦ elim (route dec r headroom policy (stream_request request.stream_kind trace)) [
        | err e ↦ err e
        | ok decision ↦ ok decision.primary_broker
      ]
    ]
