-- ===== src/Routing/Tests.antt =====
-- Routes over a registry of two brokers, and the theorems at concrete inputs.
use inc_trade.Prelude.{
  ℕ, ◌≡◌, refl, Bool, true, ◌||◌, Option, none, some, List, [], ◌∷◌, ◌==◌, All, mem, arith,
  ℕ_discrete, ◌⊎◌,
}
use inc_trade.Prelude.Dict.{Dict, contains, insert, erase}
use inc_trade.Prelude.Result.{ok, err}
use inc_trade.Routing.Models.{
  place_order, place_super_order, get_historical_bars, RoutingRequest, RouteDecision, Rejection,
  not_registered, mode_code, selected_code, rejected_count,
}
use inc_trade.Routing.Policy.{
  Mode, fixed, quota_aware, latency_aware, RoutingPolicy, SourceSelectionPolicy,
  auto_dual_broker_policy,
}
use inc_trade.Routing.Registry.{
  BrokerRegistry, register, deregister, update_health, empty_registry, get_capabilities, get_health,
}
use inc_trade.Routing.Registry.Consistent.{
  Change, registers, deregisters, reports_health, IsConsistent, apply, apply_all,
  apply_all-IsConsistent,
}
use inc_trade.Routing.Router.{
  EndpointClass, orders, quotes, operation_to_endpoint_class, no_eligible_broker, route, sorted,
  insert_sorted, decide, filter_capable, filter_healthy, examine, check_features, missing,
  maybe_parallel, apply_mode, build_reason_codes,
}
use inc_trade.Routing.Router.Eligible.{eligible, route-ends}
use inc_trade.Routing.Router.Selects.{route-eligible, route-exhausts, route-single_account}

-- Broker 1 supports the features 1 and 2, broker 2 every feature; broker 3 has left.
abbrev changes : List (Change ℕ ℕ Unit Unit)
changes =
    registers 1 tt (λ f. f == 1 || f == 2)
    ∷ registers 2 tt (λ f. true)
    ∷ registers 3 tt (λ f. true)
    ∷ deregisters 3
    ∷ reports_health 1
        (record { alive = true; auth_valid = true; latency_p50_ms = 40; reason = "" })
    ∷ []

abbrev registry : BrokerRegistry ℕ ℕ Unit Unit
registry = apply_all ℕ_discrete changes empty_registry

registry-IsConsistent : IsConsistent ℕ_discrete registry
registry-IsConsistent = apply_all-IsConsistent ℕ_discrete changes

apply_all-IsConsistent_example : IsConsistent ℕ_discrete registry
apply_all-IsConsistent_example = apply_all-IsConsistent ℕ_discrete changes

abbrev by : Mode → Bool → SourceSelectionPolicy ℕ ℕ
by mode fallback =
    let p : RoutingPolicy ℕ ℕ = record {
      mode = mode;
      candidates = 3 ∷ 1 ∷ 2 ∷ [];
      required_features = 2 ∷ [];
      allow_fallback = fallback;
      max_parallel_sources = some 2;
      execution_account = none;
    } in
    record {
      historical = p;
      live_market_data = p;
      execution = p;
      enrichment = p;
      instrument_metadata = p;
      policy_version = "1";
    }

abbrev request : RoutingRequest ℕ
request = record { operation = get_historical_bars; trace_id = "t"; required_features = 1 ∷ [] }

abbrev score : ℕ → EndpointClass → ℕ
score bid class = bid

abbrev decided : Mode → RouteDecision ℕ ℕ Mode
decided mode = record {
  operation = get_historical_bars;
  primary_broker = 2;
  trace_id = "t";
  policy_version = "1";
  fallback_brokers = 1 ∷ [];
  parallel_brokers = elim mode [ quota_aware ↦ 2 ∷ 1 ∷ [] | _ ↦ [] ];
  reason_codes = mode_code mode ∷ selected_code 2 ∷ rejected_count 1 ∷ [];
  rejected = (3, not_registered) ∷ [];
}

by_quota :
    route ℕ_discrete registry (some score) (by quota_aware true) request ≡ ok (decided quota_aware)
unfolding route decide filter_capable filter_healthy examine check_features missing sorted
    insert_sorted apply_all apply register deregister update_health insert erase get_capabilities
    get_health empty_registry ℕ_discrete operation_to_endpoint_class maybe_parallel apply_mode
    build_reason_codes
by_quota = refl

by_latency :
    route ℕ_discrete registry none (by latency_aware true) request ≡ ok (decided latency_aware)
unfolding route decide filter_capable filter_healthy examine check_features missing sorted
    insert_sorted apply_all apply register deregister update_health insert erase get_capabilities
    get_health empty_registry ℕ_discrete operation_to_endpoint_class maybe_parallel apply_mode
    build_reason_codes
by_latency = refl

route-ends_example :
    ((d : RouteDecision ℕ ℕ Mode) × (route ℕ_discrete registry
          (some score)
          (by quota_aware true)
          request
        ≡ ok d)
      × ¬ (eligible ℕ_discrete registry (some score) (by quota_aware true) request ≡ []))
    ⊎ ((found : Dict ℕ (Rejection ℕ)) × (route ℕ_discrete registry
            (some score)
            (by quota_aware true)
            request
          ≡ err (no_eligible_broker found))
        × (eligible ℕ_discrete registry (some score) (by quota_aware true) request ≡ [])
        × ((k : ℕ) → contains ℕ_discrete k found ≡ mem ℕ_discrete k (3 ∷ 1 ∷ 2 ∷ [])))
route-ends_example =
    route-ends ℕ_discrete registry (some score) (by quota_aware true) registry-IsConsistent request

route-eligible_example :
    let IsEligible = λ (bid : ℕ).
      mem ℕ_discrete bid (eligible ℕ_discrete registry (some score) (by quota_aware true) request)
      ≡ true in
    All IsEligible (2 ∷ 1 ∷ []) × All IsEligible (2 ∷ 1 ∷ [])
route-eligible_example =
    route-eligible ℕ_discrete registry (some score) (by quota_aware true) registry-IsConsistent
      request (decided quota_aware) by_quota

route-exhausts_example :
    mem ℕ_discrete 1 (2 ∷ 1 ∷ [])
    ≡ mem ℕ_discrete 1 (eligible ℕ_discrete registry (some score) (by quota_aware true) request)
route-exhausts_example =
    route-exhausts ℕ_discrete registry (some score) (by quota_aware true) registry-IsConsistent
      request (decided quota_aware) 1 refl (ground arith) by_quota

one_eligible :
    (mode : Mode) (headroom : Option (ℕ → EndpointClass → ℕ))
    → mem ℕ_discrete 1 (eligible ℕ_discrete registry headroom (by mode true) request) ≡ true
unfolding route decide filter_capable filter_healthy examine check_features missing sorted
    insert_sorted apply_all apply register deregister update_health insert erase get_capabilities
    get_health empty_registry ℕ_discrete operation_to_endpoint_class maybe_parallel apply_mode
    build_reason_codes
one_eligible mode headroom = refl

abbrev order : RoutingRequest ℕ
order = record { operation = place_super_order; trace_id = "t"; required_features = [] }

abbrev placed : RouteDecision ℕ ℕ Mode
placed = record {
  operation = place_super_order;
  primary_broker = 1;
  trace_id = "t";
  policy_version = "1.0.0";
  fallback_brokers = [];
  parallel_brokers = [];
  reason_codes = mode_code fixed ∷ selected_code 1 ∷ [];
  rejected = [];
}

is_sent :
    route ℕ_discrete registry none (auto_dual_broker_policy 1 2 1 2 9 1 "1.0.0") order ≡ ok placed
unfolding route decide filter_capable filter_healthy examine check_features missing sorted
    insert_sorted apply_all apply register deregister update_health insert erase get_capabilities
    get_health empty_registry ℕ_discrete operation_to_endpoint_class maybe_parallel apply_mode
    build_reason_codes auto_dual_broker_policy
is_sent = refl

route-single_account_example :
    (placed.primary_broker ≡ 1) × (placed.fallback_brokers ≡ []) × (placed.parallel_brokers ≡ [])
route-single_account_example =
    route-single_account ℕ_discrete registry none 1 2 1 1 2 9 order placed registry-IsConsistent
      refl is_sent

-- Every broker turned down, and an execution whose headroom would be asked for under "quotes".
no_route :
    route ℕ_discrete registry none (auto_dual_broker_policy 1 2 1 2 9 3 "1.0.0") order
    ≡ err (no_eligible_broker ((3, not_registered) ∷ []))
unfolding route decide filter_capable filter_healthy examine check_features missing sorted
    insert_sorted apply_all apply register deregister update_health insert erase get_capabilities
    get_health empty_registry ℕ_discrete operation_to_endpoint_class maybe_parallel apply_mode
    build_reason_codes auto_dual_broker_policy
no_route = refl

classes :
    (operation_to_endpoint_class place_order ≡ orders)
    × (operation_to_endpoint_class place_super_order ≡ quotes)
unfolding operation_to_endpoint_class
classes = (refl, refl)
