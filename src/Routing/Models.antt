-- ===== src/Routing/Models.antt =====
-- brokers/common/models.py: operation kinds, requests, decisions and health snapshots.
use Prim.Native.String.{String}
use inc_trade.Prelude.{ℕ, Bool, true, false, ◌&&◌, List}
use inc_trade.Prelude.Dict.{Dict}

pub data OperationKind : Type 0 where
  place_order cancel_order modify_order get_positions get_margins get_orders get_trades get_quote :
      OperationKind
  get_depth get_historical_bars open_market_stream open_order_stream : OperationKind
  fetch_option_chain fetch_news fetch_fundamentals fetch_market_intelligence : OperationKind
  place_super_order place_forever_order place_slice_order : OperationKind

abbrev pub is_execution : OperationKind → Bool
is_execution place_order = true
is_execution cancel_order = true
is_execution modify_order = true
is_execution place_super_order = true
is_execution place_forever_order = true
is_execution place_slice_order = true
is_execution _ = false

-- `error_rate` and `observed_at` are read by nobody in the router.
pub record BrokerHealthSnapshot : Type 0 where
  pub alive : Bool
  pub auth_valid : Bool
  pub latency_p50_ms : ℕ
  pub reason : String

abbrev pub is_usable : BrokerHealthSnapshot → Bool
is_usable h = h.alive && h.auth_valid

-- `instrument` and `user_mode` are read by nobody in the router.
pub record RoutingRequest (F : Type 0) : Type 0 where
  pub operation : OperationKind
  pub trace_id : String
  pub required_features : List F

-- Why a broker was turned down.
pub data Rejection (F : Type 0) : Type 0 where
  not_registered : Rejection F
  missing_features missing_policy_features : List F → Rejection F
  unhealthy : String → Rejection F

-- `mode:…`, `selected:…` and `rejected_count:…`.
pub data ReasonCode (K M : Type 0) : Type 0 where
  mode_code : M → ReasonCode K M
  selected_code : K → ReasonCode K M
  rejected_count : ℕ → ReasonCode K M

-- The time of the decision, `decided_at`, is left out.
pub record RouteDecision (K F M : Type 0) : Type 0 where
  pub operation : OperationKind
  pub primary_broker : K
  pub trace_id : String
  pub policy_version : String
  pub fallback_brokers : List K
  pub parallel_brokers : List K
  pub reason_codes : List (ReasonCode K M)
  pub rejected : Dict K (Rejection F)
