-- ===== src/Routing/Policy.antt =====
-- brokers/common/policy.py: which policy an operation goes by, and the policies made in advance.
use Prim.Native.String.{String}
use inc_trade.Prelude.{ℕ, Bool, true, false, Option, none, some, List, [], ◌∷◌}
use inc_trade.Routing.Models.{
  OperationKind, place_order, cancel_order, modify_order, get_quote, get_depth, get_historical_bars,
  open_market_stream, fetch_option_chain, fetch_news, fetch_fundamentals, fetch_market_intelligence,
  place_super_order, place_forever_order, place_slice_order,
}

pub data Mode : Type 0 where
  fixed priority_list capability_match quota_aware latency_aware : Mode

pub record RoutingPolicy (K F : Type 0) : Type 0 where
  pub mode : Mode
  pub candidates : List K
  pub required_features : List F
  pub allow_fallback : Bool
  pub max_parallel_sources : Option ℕ
  pub execution_account : Option K

pub record SourceSelectionPolicy (K F : Type 0) : Type 0 where
  pub historical : RoutingPolicy K F
  pub live_market_data : RoutingPolicy K F
  pub execution : RoutingPolicy K F
  pub enrichment : RoutingPolicy K F
  pub instrument_metadata : RoutingPolicy K F
  pub policy_version : String

module _ {K F : Type 0} where
  abbrev pub for_operation_kind : SourceSelectionPolicy K F → OperationKind → RoutingPolicy K F
  for_operation_kind p place_order = p.execution
  for_operation_kind p cancel_order = p.execution
  for_operation_kind p modify_order = p.execution
  for_operation_kind p place_super_order = p.execution
  for_operation_kind p place_forever_order = p.execution
  for_operation_kind p place_slice_order = p.execution
  for_operation_kind p get_historical_bars = p.historical
  for_operation_kind p open_market_stream = p.live_market_data
  for_operation_kind p get_quote = p.live_market_data
  for_operation_kind p get_depth = p.live_market_data
  for_operation_kind p fetch_option_chain = p.live_market_data
  for_operation_kind p fetch_news = p.enrichment
  for_operation_kind p fetch_fundamentals = p.enrichment
  for_operation_kind p fetch_market_intelligence = p.enrichment
  for_operation_kind p _ = p.instrument_metadata

  -- A policy that always uses one broker.
  abbrev only : K → Option K → RoutingPolicy K F
  only broker account = record {
    mode = fixed;
    candidates = broker ∷ [];
    required_features = [];
    allow_fallback = false;
    max_parallel_sources = none;
    execution_account = account;
  }

  -- `default_dhan_only_policy` and `default_upstox_only_policy`, for the broker that each names.
  unfoldable pub single_broker_policy : K → String → SourceSelectionPolicy K F
  single_broker_policy broker version = record {
    historical = only broker none;
    live_market_data = only broker none;
    execution = only broker (some broker);
    enrichment = only broker none;
    instrument_metadata = only broker none;
    policy_version = version;
  }

  -- `auto_dual_broker_policy`; the names of the two brokers and of the three features are arguments.
  unfoldable pub auto_dual_broker_policy :
      (dhan upstox : K) (historical_data live_market_data news : F)
      → K
      → String
      → SourceSelectionPolicy K F
  auto_dual_broker_policy dhan upstox historical_data live_data news account version = record {
    historical = record {
      mode = capability_match;
      candidates = upstox ∷ dhan ∷ [];
      required_features = historical_data ∷ [];
      allow_fallback = true;
      max_parallel_sources = some 2;
      execution_account = none;
    };
    live_market_data = record {
      mode = priority_list;
      candidates = upstox ∷ dhan ∷ [];
      required_features = live_data ∷ [];
      allow_fallback = true;
      max_parallel_sources = none;
      execution_account = none;
    };
    execution = only account (some account);
    enrichment = record {
      mode = capability_match;
      candidates = upstox ∷ [];
      required_features = news ∷ [];
      allow_fallback = false;
      max_parallel_sources = none;
      execution_account = none;
    };
    instrument_metadata = record {
      mode = priority_list;
      candidates = dhan ∷ upstox ∷ [];
      required_features = [];
      allow_fallback = true;
      max_parallel_sources = none;
      execution_account = none;
    };
    policy_version = version;
  }
