-- ===== src/Stream/Models.antt =====
-- The records of brokers/common/stream_orchestrator.py. All its names (ids of sessions and of
-- subscriptions, brokers, instruments, modes) are Python strings, here a type `S`; a set is a list. `C` is
-- the consumers, `T` the handles of open streams. The health of a session (`H`) is kept by
-- `domain.stream_health`, which is not in the repository: what is used of it is `HealthOps`.
use inc_trade.Prelude.{ℕ, Bool, true, false, Option, List, []}
use inc_trade.Prelude.Dict.{Dict}
use inc_trade.Prelude.Result.{Result}

pub data StreamKind : Type 0 where
  market order portfolio : StreamKind

abbrev pub kind_eq : StreamKind → StreamKind → Bool
kind_eq market market = true
kind_eq order order = true
kind_eq portfolio portfolio = true
kind_eq _ _ = false

-- `StreamHealth(stale_seconds_threshold=…)`, `update_transport`, `update_subscription` and
-- `update_freshness` with each value that the orchestrator gives them, `record_message`, and what is
-- read of a health. A reading of the clock is in seconds.
pub record HealthOps (H : Type 0) : Type 0 where
  pub with_threshold : ℕ → H
  pub connecting : H → H
  pub connected : H → H
  pub disconnected : H → H
  pub reconnecting : H → H
  pub acknowledged : H → H
  pub freshness_unknown : H → H
  pub freshness_fresh : ℕ → H → H
  pub freshness_stale : H → H
  pub record_message : ℕ → H → H
  pub increment_reconnect : ℕ → ℕ
  pub is_healthy : H → Bool
  pub is_fresh : H → Bool
  pub is_stale : H → Bool
  pub is_degraded : H → Bool
  pub last_valid_tick_at : H → Option ℕ
  pub stale_seconds_threshold : H → ℕ

-- The fields of `StreamSession` that the orchestrator sets and reads.
pub record StreamSession (S H : Type 0) : Type 0 where
  pub session_id : S
  pub broker_id : S
  pub stream_kind : StreamKind
  pub instruments : List S
  pub modes : List S
  pub reconnect_generation : ℕ
  pub health : H

pub record SubscriptionRequest (S C : Type 0) : Type 0 where
  pub stream_kind : StreamKind
  pub consumer : C
  pub instruments : List S
  pub modes : List S
  pub preferred_brokers : List S
  pub freshness_sla_s : ℕ
  pub allow_failover : Bool

-- `_ActiveSubscription`, without its time of registration.
pub record ActiveSubscription (S C : Type 0) : Type 0 where
  pub sub_id : S
  pub session_id : S
  pub request : SubscriptionRequest S C

-- `BrokerStreamPlan`. The callback stands for the session and the kind that it hands frames over for,
-- where there is one.
pub record StreamPlan (S : Type 0) : Type 0 where
  pub instruments : List S
  pub modes : List S
  pub on_raw_frame : Option (S × StreamKind)

-- What the gateways do on `open_market_stream` and `open_order_stream`.
pub record GatewayStreams (S G E T : Type 0) : Type 0 where
  pub open_market_stream : G → StreamPlan S → Result E T
  pub open_order_stream : G → StreamPlan S → Result E T

-- The task of `_reconnect_loop`: the request that it was made for, its next delay, and whether it
-- has returned.
pub record Monitor (S C : Type 0) : Type 0 where
  pub request : SubscriptionRequest S C
  pub delay : ℕ
  pub finished : Bool

-- The entries of `_tasks`.
pub data Task (S : Type 0) : Type 0 where
  heartbeat : Task S
  monitor_of : S → Task S

pub record StreamOrchestrator (S C T H : Type 0) : Type 0 where
  pub sessions : Dict S (StreamSession S H)
  pub handles : Dict S T
  pub subscriptions : Dict S (ActiveSubscription S C)
  pub session_frame_handlers : Dict S (S × StreamKind)
  pub session_reconnect_tasks : Dict S (Monitor S C)
  pub running : Bool
  pub tasks : List (Task S)

unfoldable pub new_orchestrator : {S C T H : Type 0} → StreamOrchestrator S C T H
new_orchestrator = record {
  sessions = [];
  handles = [];
  subscriptions = [];
  session_frame_handlers = [];
  session_reconnect_tasks = [];
  running = false;
  tasks = [];
}
