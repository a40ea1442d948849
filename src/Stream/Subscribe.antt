-- ===== src/Stream/Subscribe.antt =====
-- `StreamOrchestrator.subscribe` of brokers/common/stream_orchestrator.py, with the opening of a session
-- and the merge into one that is reused. The error stands beside the state that it leaves behind.
use Prim.Native.String.{String}
use inc_trade.Prelude.{ℕ, false, Option, none, some, List, [], ◌∷◌, ◌++◌}
use inc_trade.Prelude.Dict.{lookup, insert}
use inc_trade.Prelude.Result.{Result, ok, err}
use inc_trade.Routing.Policy.{SourceSelectionPolicy}
use inc_trade.Routing.Registry.{BrokerRegistry, get_gateway}
use inc_trade.Routing.Router.{EndpointClass}
use inc_trade.Stream.Models.{
  StreamKind, HealthOps, StreamSession, SubscriptionRequest, StreamPlan, GatewayStreams, monitor_of,
  StreamOrchestrator,
}
use inc_trade.Stream.Sessions.{
  StreamError, routing_failed, broker_unavailable, open_failed, open_on, difference, union,
  put_session, find_reusable_session, select_broker,
}

-- `request.modes or session.modes`
abbrev pub modes_or : {S : Type 0} → List S → List S → List S
modes_or [] ms = ms
modes_or (n ∷ ns) ms = n ∷ ns

-- What a step leaves, and the exception that it ends with, if it does.
abbrev pub Outcome : Type 0 → Type 0 → Type 0
Outcome O E = O × Option E

-- `open_on`, with its exception.
unfoldable pub opened_on :
    {S F G E T : Type 0}
    → GatewayStreams S G E T
    → G
    → StreamKind
    → StreamPlan S
    → Result (StreamError S F E) T
unfolding open_on
opened_on streams gw kind plan = elim (open_on streams gw kind plan) [
  | err e ↦ err (open_failed e)
  | ok handle ↦ ok handle
]

module _ {S F G Z E T : Type 0} (dec : Discrete S) (streams : GatewayStreams S G E T)
    (r : BrokerRegistry S F G Z) where
  -- `get_gateway`, and the opening of the stream there.
  unfoldable pub open_stream : S → StreamKind → StreamPlan S → Result (StreamError S F E) T
  unfolding opened_on
  open_stream broker kind plan = elim (get_gateway dec broker r) [
    | err e ↦ err (broker_unavailable e)
    | ok gw ↦ opened_on streams gw kind plan
  ]

abbrev pub acknowledge : {S H : Type 0} → HealthOps H → StreamSession S H → StreamSession S H
acknowledge ops s = record s { health = ops.acknowledged s.health }

module _ {S C : Type 0} (dec : Discrete S) where
  -- The session after the instruments, and the modes if there are any, are added.
  abbrev pub widened :
      {H : Type 0} → StreamSession S H → SubscriptionRequest S C → StreamSession S H
  widened s request = record s {
    instruments = union dec s.instruments request.instruments;
    modes = elim request.modes [ [] ↦ s.modes | m ∷ ms ↦ union dec s.modes (m ∷ ms) ];
  }

  -- The plan of a merge, for the instruments that are new.
  abbrev pub merge_plan :
      {T H : Type 0}
      → StreamSession S H
      → SubscriptionRequest S C
      → List S
      → StreamOrchestrator S C T H
      → StreamPlan S
  merge_plan s request new_instruments o = record {
    instruments = new_instruments;
    modes = modes_or request.modes (widened s request).modes;
    on_raw_frame = lookup dec s.session_id o.session_frame_handlers;
  }

-- The callback of a new session, and all of its instruments.
abbrev pub open_plan : {S C : Type 0} → S → SubscriptionRequest S C → StreamPlan S
open_plan sid request = record {
  instruments = request.instruments;
  modes = request.modes;
  on_raw_frame = some (sid, request.stream_kind);
}

-- The session that `_open_session` makes.
abbrev pub opening :
    {S C H : Type 0} → HealthOps H → S → S → SubscriptionRequest S C → StreamSession S H
opening ops sid broker request = record {
  session_id = sid;
  broker_id = broker;
  stream_kind = request.stream_kind;
  instruments = request.instruments;
  modes = request.modes;
  reconnect_generation = 0;
  health = ops.connecting (ops.with_threshold request.freshness_sla_s);
}

module _ {S C T H : Type 0} (dec : Discrete S) where
  -- The session and its callback are put down before the gateway opens the stream.
  abbrev pub handled : StreamSession S H → StreamOrchestrator S C T H → StreamOrchestrator S C T H
  handled s o = record (put_session dec s o) {
    session_frame_handlers =
        insert dec s.session_id (s.session_id, s.stream_kind) o.session_frame_handlers;
  }

module _ {S C T H : Type 0} (dec : Discrete S) (ops : HealthOps H) where
  -- The end of a merge: the session is widened whatever the gateway answers.
  abbrev pub merge_ended :
      {X : Type 0}
      → StreamSession S H
      → StreamOrchestrator S C T H
      → Result X T
      → Outcome (StreamOrchestrator S C T H) X
  merge_ended merged o (err e) = (put_session dec merged o, some e)
  merge_ended merged o (ok _) = (put_session dec (acknowledge ops merged) o, none)

  -- The end of an opening. On an error the session stays, disconnected.
  abbrev pub open_ended :
      {X : Type 0}
      → StreamSession S H
      → SubscriptionRequest S C
      → StreamOrchestrator S C T H
      → Result X T
      → Outcome (StreamOrchestrator S C T H) X
  open_ended s request o (err e) =
      (handled dec (record s { health = ops.disconnected s.health }) o, some e)
  open_ended s request o (ok handle) = (
    record (handled dec (acknowledge ops (record s { health = ops.connected s.health })) o) {
      handles = insert dec s.session_id handle o.handles;
      session_reconnect_tasks =
          insert dec s.session_id (record { request = request; delay = 1; finished = false })
            o.session_reconnect_tasks;
      tasks = o.tasks ++ monitor_of s.session_id ∷ [];
    },
    none,
  )

module _ {S C F G Z E T H : Type 0} (dec : Discrete S) (ops : HealthOps H)
    (streams : GatewayStreams S G E T) (r : BrokerRegistry S F G Z) where
  -- The merge, for the instruments that are new.
  abbrev pub merge_new :
      StreamSession S H
      → SubscriptionRequest S C
      → StreamOrchestrator S C T H
      → List S
      → Outcome (StreamOrchestrator S C T H) (StreamError S F E)
  merge_new s request o [] = (o, none)
  merge_new s request o (i ∷ is) =
      merge_ended dec ops (widened dec s request) o
        (open_stream dec streams r s.broker_id s.stream_kind (merge_plan dec s request (i ∷ is) o))

  unfoldable pub merge_session_instruments :
      StreamSession S H
      → SubscriptionRequest S C
      → StreamOrchestrator S C T H
      → Outcome (StreamOrchestrator S C T H) (StreamError S F E)
  unfolding open_stream
  merge_session_instruments s request o =
      merge_new s request o (difference dec request.instruments s.instruments)

  -- The gateway is asked for outside of the `try`.
  unfoldable pub open_session :
      S
      → S
      → SubscriptionRequest S C
      → StreamOrchestrator S C T H
      → Outcome (StreamOrchestrator S C T H) (StreamError S F E)
  unfolding opened_on
  open_session sid broker request o =
      let s = opening ops sid broker request in
      elim (get_gateway dec broker r) [
        | err e ↦ (put_session dec s o, some (broker_unavailable e))
        | ok gw ↦
            open_ended dec ops s request o
              (opened_on streams gw request.stream_kind (open_plan sid request))
      ]

  -- The end of `subscribe`: the consumer is registered, unless the session could not be had.
  abbrev pub register_subscription :
      S
      → S
      → SubscriptionRequest S C
      → Outcome (StreamOrchestrator S C T H) (StreamError S F E)
      → StreamOrchestrator S C T H × Result (StreamError S F E) S
  register_subscription sub_id sid request (o, some e) = (o, err e)
  register_subscription sub_id sid request (o, none) = (
    record o {
      subscriptions =
          insert dec sub_id (record { sub_id = sub_id; session_id = sid; request = request })
            o.subscriptions;
    },
    ok sub_id,
  )

  -- What `subscribe` does under the lock.
  unfoldable pub subscribe_to :
      S
      → S
      → S
      → SubscriptionRequest S C
      → StreamOrchestrator S C T H
      → StreamOrchestrator S C T H × Result (StreamError S F E) S
  unfolding merge_session_instruments open_session
  subscribe_to sid sub_id broker request o =
      elim (find_reusable_session dec ops broker request.stream_kind o.sessions) [
        | some s ↦
            register_subscription sub_id s.session_id request
              (merge_session_instruments s request o)
        | none ↦ register_subscription sub_id sid request (open_session sid broker request o)
      ]

  module _ (headroom : Option (S → EndpointClass → ℕ)) (policy : SourceSelectionPolicy S F) where
    unfoldable pub subscribe :
        S
        → S
        → String
        → SubscriptionRequest S C
        → StreamOrchestrator S C T H
        → StreamOrchestrator S C T H × Result (StreamError S F E) S
    unfolding subscribe_to
    subscribe sid sub_id trace request o =
        elim (select_broker dec r headroom policy request trace) [
          | err e ↦ (o, err (routing_failed e))
          | ok broker ↦ subscribe_to sid sub_id broker request o
        ]
