-- ===== src/Stream/Tests.antt =====
-- The stream orchestrator over two brokers: broker 1 refuses what is not instrument 5, broker 2 opens all.
use inc_trade.Prelude.{
  ℕ, suc, ◌≡◌, ◌≢◌, refl, Bool, true, false, none, some, List, [], ◌∷◌, mem, ℕ_discrete,
  if◌then◌else◌,
}
use inc_trade.Prelude.Dict.{lookup, contains, insert, erase}
use inc_trade.Prelude.Result.{Result, ok, err}
use inc_trade.Routing.Policy.{priority_list, RoutingPolicy, SourceSelectionPolicy}
use inc_trade.Routing.Registry.{BrokerRegistry, register, empty_registry, get_gateway, get_health}
use inc_trade.Routing.Registry.Consistent.{
  Change, registers, apply, apply_all, apply_all-IsConsistent,
}
use inc_trade.Routing.Router.{
  route, decide, filter_capable, filter_healthy, examine, check_features, missing, maybe_parallel,
  apply_mode, build_reason_codes,
}
use inc_trade.Stream.Models.{
  market, HealthOps, StreamSession, SubscriptionRequest, ActiveSubscription, StreamPlan,
  GatewayStreams, StreamOrchestrator, new_orchestrator,
}
use inc_trade.Stream.Sessions.{
  open_failed, stop, disconnect_all, disconnect_session, unsubscribe, select_broker,
  preferred_usable, operation_of, stream_request, find_reusable_session, subscribers, open_on,
}
use inc_trade.Stream.Subscribe.{opened_on, open_stream, open_session, subscribe_to, subscribe}
use inc_trade.Stream.Reconnect.{try_failover, try_brokers}
use inc_trade.Stream.Normalise.{
  ValueOps, symbol, ltp, normalize_tick, on_market_tick, on_stream_health_change,
}
use inc_trade.Stream.Frames.{handle_frame, deliver_tick}
use inc_trade.Stream.Wired.{IsWired}
use inc_trade.Stream.Runs.{subscribed, Run, done, next, Run-IsWired}
use inc_trade.Stream.Reuse.{IsServed}
use inc_trade.Stream.Serves.{in_use, subscribe-serves, unsubscribe-closes}
use inc_trade.Stream.Merges.{merge-refused}
use inc_trade.Stream.Failover.{FailoverEnds, try_failover-ends}

-- The health of a session is whether it is connected.
abbrev health : HealthOps Bool
health = record {
  with_threshold = λ n. false;
  connecting = λ h. false;
  connected = λ h. true;
  disconnected = λ h. false;
  reconnecting = λ h. false;
  acknowledged = λ h. h;
  freshness_unknown = λ h. h;
  freshness_fresh = λ n h. h;
  freshness_stale = λ h. h;
  record_message = λ n h. h;
  increment_reconnect = λ n. suc n;
  is_healthy = λ h. h;
  is_fresh = λ h. false;
  is_stale = λ h. false;
  is_degraded = λ h. false;
  last_valid_tick_at = λ h. none;
  stale_seconds_threshold = λ h. 30;
}

-- A gateway opens a stream for all instruments, or else for instrument 5 alone.
abbrev opens : Bool → StreamPlan ℕ → Result ℕ ℕ
opens true plan = ok 70
opens false plan = if mem ℕ_discrete 6 plan.instruments then err 1 else ok 71

abbrev streams : GatewayStreams ℕ Bool ℕ ℕ
streams = record { open_market_stream = opens; open_order_stream = opens }

abbrev changes : List (Change ℕ ℕ Bool Unit)
changes = registers 1 false (λ f. true) ∷ registers 2 true (λ f. true) ∷ []

abbrev registry : BrokerRegistry ℕ ℕ Bool Unit
registry = apply_all ℕ_discrete changes empty_registry

abbrev policy : SourceSelectionPolicy ℕ ℕ
policy =
    let p : RoutingPolicy ℕ ℕ = record {
      mode = priority_list;
      candidates = 1 ∷ 2 ∷ [];
      required_features = [];
      allow_fallback = true;
      max_parallel_sources = none;
      execution_account = none;
    } in
    record {
      historical = p;
      live_market_data = p;
      execution = p;
      enrichment = p;
      instrument_metadata = p;
      policy_version = "1";
    }

abbrev asks : ℕ → SubscriptionRequest ℕ ℕ
asks instrument = record {
  stream_kind = market;
  consumer = 90;
  instruments = instrument ∷ [];
  modes = [];
  preferred_brokers = [];
  freshness_sla_s = 30;
  allow_failover = true;
}

abbrev one : StreamOrchestrator ℕ ℕ ℕ Bool
one =
    (subscribe ℕ_discrete health streams registry none policy 10 20 "t" (asks 5) new_orchestrator).0

subscribed_one :
    (subscribe ℕ_discrete health streams registry none policy 10 20 "t" (asks 5) new_orchestrator).1
    ≡ ok 20
unfolding subscribe subscribe_to open_session opened_on open_on select_broker preferred_usable
    stream_request operation_of find_reusable_session route decide filter_capable filter_healthy
    examine check_features missing maybe_parallel apply_mode build_reason_codes apply_all apply
    register insert empty_registry get_gateway get_health ℕ_discrete new_orchestrator
subscribed_one = refl

-- Values of frames are numbers that are all true and all readable.
abbrev python : ValueOps ℕ ℕ ℕ
python = record {
  is_truthy = λ v. true;
  to_float = λ v. ok v;
  to_int = λ v. ok v;
  to_str = λ v. v;
  zero_float = 0;
  nse = 1;
  no_text = 0;
}

one-Run : Run ℕ Bool Unit ℕ ℕ_discrete health python new_orchestrator one
unfolding new_orchestrator
one-Run =
    next (subscribed streams registry none policy 10 20 "t" (asks 5) new_orchestrator refl)
      (done one)

Run-IsWired_example : IsWired ℕ_discrete one
Run-IsWired_example = Run-IsWired ℕ Bool Unit ℕ ℕ_discrete health python one one-Run

abbrev new_sub : ℕ
new_sub = 20

subscribe-serves_example :
    let after =
      subscribe ℕ_discrete health streams registry none policy 10 20 "t"
        (asks 5)
        new_orchestrator in
    (new_sub ≡ 20)
    × ((broker : ℕ) × (select_broker ℕ_discrete registry none policy (asks 5) "t" ≡ ok broker)
        × IsServed ℕ_discrete 20 broker (asks 5) after.0)
subscribe-serves_example =
    subscribe-serves ℕ_discrete health streams registry none policy 10 20 20 "t" (asks 5)
      new_orchestrator
      (Run-IsWired ℕ Bool Unit ℕ ℕ_discrete health python new_orchestrator (done new_orchestrator))
      subscribed_one

abbrev registered : ActiveSubscription ℕ ℕ
registered = record { sub_id = 20; session_id = 10; request = asks 5 }

abbrev session : StreamSession ℕ Bool
session = record {
  session_id = 10;
  broker_id = 1;
  stream_kind = market;
  instruments = 5 ∷ [];
  modes = [];
  reconnect_generation = 0;
  health = true;
}

in_one :
    (lookup ℕ_discrete 20 one.subscriptions ≡ some registered)
    × (find_reusable_session ℕ_discrete health 1 market one.sessions ≡ some session)
    × (lookup ℕ_discrete 10 one.handles ≡ some 71)
unfolding subscribe subscribe_to open_session opened_on open_on select_broker preferred_usable
    stream_request operation_of find_reusable_session route decide filter_capable filter_healthy
    examine check_features missing maybe_parallel apply_mode build_reason_codes apply_all apply
    register insert empty_registry get_gateway get_health ℕ_discrete new_orchestrator
in_one = (refl, refl, refl)

unsubscribe-closes_example :
    let p = unsubscribe ℕ_discrete 20 one in
    ((j : ℕ)
      → lookup ℕ_discrete j p.subscriptions
        ≡ (elim (ℕ_discrete 20 j) [ yes _ ↦ none | no _ ↦ lookup ℕ_discrete j one.subscriptions ]))
    × (contains ℕ_discrete 10 p.sessions ≡ in_use (subscribers ℕ_discrete 10 p.subscriptions))
    × ((k : ℕ) → k ≢ 10 → lookup ℕ_discrete k p.sessions ≡ lookup ℕ_discrete k one.sessions)
unsubscribe-closes_example =
    unsubscribe-closes ℕ_discrete 20 registered one Run-IsWired_example in_one.0

refuses :
    open_stream ℕ_discrete streams registry 1 market (record {
      instruments = 6 ∷ [];
      modes = [];
      on_raw_frame = lookup ℕ_discrete 10 one.session_frame_handlers;
    })
    ≡ err (open_failed 1)
unfolding open_stream opened_on open_on apply_all apply register insert empty_registry get_gateway
    ℕ_discrete
refuses = refl

chosen : select_broker ℕ_discrete registry none policy (asks 6) "t" ≡ ok 1
unfolding select_broker preferred_usable stream_request operation_of route decide filter_capable
    filter_healthy examine check_features missing maybe_parallel apply_mode build_reason_codes
    apply_all apply register insert empty_registry get_health ℕ_discrete
chosen = refl

merge-refused_example :
    let refused = subscribe ℕ_discrete health streams registry none policy 11 21 "t" (asks 6) one in
    (refused.1 ≡ err (open_failed 1))
    × ((subscribe ℕ_discrete health streams registry none policy 12 22 "t" (asks 6) refused.0).1
        ≡ ok 22)
unfolding ℕ_discrete
merge-refused_example =
    merge-refused ℕ_discrete health streams streams registry registry none none policy policy "t"
      "t" 11 21 12 22 1 (asks 6) session 6 [] (open_failed 1) one Run-IsWired_example chosen chosen
      in_one.1 refl refuses

-- The session after five losses.
abbrev lost_session : StreamSession ℕ Bool
lost_session = record session { reconnect_generation = 5; health = false }

abbrev lost : StreamOrchestrator ℕ ℕ ℕ Bool
lost = record {
  sessions = (10, lost_session) ∷ [];
  handles = (10, 71) ∷ [];
  subscriptions = (20, registered) ∷ [];
  session_frame_handlers = (10, (10, market)) ∷ [];
  session_reconnect_tasks = (10, record { request = asks 5; delay = 32; finished = false }) ∷ [];
  running = true;
  tasks = [];
}

try_failover-ends_example :
    FailoverEnds ℕ_discrete health streams registry none policy lost_session "t" lost
      (try_failover ℕ_discrete health streams registry none policy lost_session "t" lost)
try_failover-ends_example =
    try_failover-ends ℕ_discrete health streams registry none policy lost_session "t" lost
      (apply_all-IsConsistent ℕ_discrete changes)

fails_over :
    (try_failover ℕ_discrete health streams registry none policy lost_session "t" lost).1 ≡ true
unfolding try_failover try_brokers open_stream opened_on open_on stream_request operation_of route
    decide filter_capable filter_healthy examine check_features missing maybe_parallel apply_mode
    build_reason_codes apply_all apply register insert empty_registry get_gateway get_health
    ℕ_discrete
fails_over = refl

-- A tick goes to the consumer of the session, whatever its instrument is.
ticks :
    (handle_frame ℕ_discrete health python 3 4 10 market
      (some (λ k. elim k [ symbol ↦ some 6 | ltp ↦ some 100 | _ ↦ none ]))
      lost).1
    ≡ on_market_tick 90 (record {
      symbol = 6;
      exchange = 1;
      ltp = 100;
      volume = 0;
      bid = none;
      ask = none;
      broker_id = 1;
      session_id = 10;
      event_time = 3;
      sequence = none;
      open_price = none;
      high = none;
      low = none;
    })
      ∷ on_stream_health_change 90 10 false
      ∷ []
unfolding handle_frame deliver_tick normalize_tick insert ℕ_discrete
ticks = refl

-- The subscription outlives the session when the orchestrator stops.
stops :
    ((stop ℕ_discrete lost).sessions ≡ [])
    × ((stop ℕ_discrete lost).subscriptions ≡ lost.subscriptions)
unfolding stop disconnect_all disconnect_session erase ℕ_discrete
stops = (refl, refl)
