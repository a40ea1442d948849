-- ===== src/Routing/Router.antt =====
-- `BrokerRouter.route` of brokers/common/router.py. Headroom and latency are natural numbers, whose
-- order is all that the router reads. Logging and the audit event are left out.
pub mod Filter
pub mod Eligible
pub mod Order
pub mod Selects
use Prim.Native.String.{String}
use inc_trade.Prelude.{
  ℕ, Bool, true, false, Option, none, some, List, [], ◌∷◌, not, length, take, leb, ltb,
  if◌then◌else◌,
}
use inc_trade.Prelude.Dict.{Dict, insert}
use inc_trade.Prelude.Result.{Result, ok, err, ◌>>=◌}
use inc_trade.Routing.Models.{
  OperationKind, place_order, cancel_order, modify_order, get_historical_bars, fetch_option_chain,
  BrokerHealthSnapshot, is_usable, RoutingRequest, Rejection, not_registered, missing_features,
  missing_policy_features, unhealthy, ReasonCode, mode_code, selected_code, rejected_count,
  RouteDecision,
}
use inc_trade.Routing.Policy.{
  Mode, fixed, priority_list, capability_match, quota_aware, latency_aware, RoutingPolicy,
  SourceSelectionPolicy, for_operation_kind,
}
use inc_trade.Routing.Registry.{
  BrokerRegistry, BrokerUnavailable, get_capabilities, get_health, is_registered,
}

-- The exceptions of `route`: the registry's, and `RoutingError` with the rejections.
pub data RouteError (K F : Type 0) : Type 0 where
  unavailable : BrokerUnavailable K → RouteError K F
  no_eligible_broker : Dict K (Rejection F) → RouteError K F

pub data EndpointClass : Type 0 where
  orders historical option_chain quotes : EndpointClass

-- `_operation_to_endpoint_class`
unfoldable pub operation_to_endpoint_class : OperationKind → EndpointClass
operation_to_endpoint_class place_order = orders
operation_to_endpoint_class cancel_order = orders
operation_to_endpoint_class modify_order = orders
operation_to_endpoint_class get_historical_bars = historical
operation_to_endpoint_class fetch_option_chain = option_chain
operation_to_endpoint_class _ = quotes

abbrev pub is_historical : OperationKind → Bool
is_historical get_historical_bars = true
is_historical _ = false

-- `[f for f in features if not caps.supports(f)]`
unfoldable pub missing : {F : Type 0} → (F → Bool) → List F → List F
missing supports [] = []
missing supports (f ∷ fs) = if supports f then missing supports fs else f ∷ missing supports fs

-- Python's `sorted`, which is stable, by a test whether the first may stand before the second.
module _ {K : Type 0} (before : K → K → Bool) where
  unfoldable pub insert_sorted : K → List K → List K
  insert_sorted x [] = x ∷ []
  insert_sorted x (y ∷ ys) = if before x y then x ∷ y ∷ ys else y ∷ insert_sorted x ys

  unfoldable pub sorted : List K → List K
  sorted [] = []
  sorted (x ∷ xs) = insert_sorted x (sorted xs)

-- What the router chooses: the primary broker, the fallbacks and the parallel brokers.
pub record Selection (K : Type 0) : Type 0 where
  pub primary : K
  pub fallbacks : List K
  pub parallel : List K

module _ {K F : Type 0} where
  -- `_maybe_parallel`
  unfoldable pub maybe_parallel : List K → RoutingPolicy K F → OperationKind → List K
  maybe_parallel healthy p operation = elim p.max_parallel_sources [
    | none ↦ []
    | some n ↦ if is_historical operation then (if ltb 1 n then take n healthy else []) else []
  ]

  -- `healthy[0]`, the fallbacks that the policy allows, and the parallel brokers.
  abbrev pub pick : RoutingPolicy K F → K → List K → List K → Selection K
  pick p first others parallel = record {
    primary = first;
    fallbacks = if p.allow_fallback then others else [];
    parallel = parallel;
  }

  -- `pick` on a sorted list, which is not empty: `fallback` is what an empty one would give.
  abbrev pub pick_sorted : RoutingPolicy K F → K → List K → (List K → List K) → Selection K
  pick_sorted p fallback [] parallel = pick p fallback [] (parallel [])
  pick_sorted p fallback (x ∷ xs) parallel = pick p x xs (parallel (x ∷ xs))

  -- `_apply_mode` on the healthy brokers `first ∷ others`. There may be no function that gives the
  -- headroom.
  unfoldable pub apply_mode :
      Option (K → EndpointClass → ℕ)
      → (K → ℕ)
      → RoutingPolicy K F
      → OperationKind
      → K
      → List K
      → Mode
      → Selection K
  unfolding maybe_parallel
  apply_mode headroom latency p operation first others fixed = record {
    primary = first;
    fallbacks = [];
    parallel = [];
  }
  apply_mode headroom latency p operation first others priority_list =
      pick p first others (maybe_parallel (first ∷ others) p operation)
  apply_mode headroom latency p operation first others capability_match =
      pick p first others (maybe_parallel (first ∷ others) p operation)
  apply_mode headroom latency p operation first others quota_aware = elim headroom [
    | none ↦ pick p first others []
    | some score ↦
        let class = operation_to_endpoint_class operation in
        pick_sorted p first (sorted (λ a b. leb (score b class) (score a class)) (first ∷ others))
          (λ scored. maybe_parallel scored p operation)
  ]
  apply_mode headroom latency p operation first others latency_aware =
      pick_sorted p first (sorted (λ a b. leb (latency a) (latency b)) (first ∷ others)) (λ _. [])

  -- `_build_reason_codes`
  unfoldable pub build_reason_codes : Mode → K → Dict K (Rejection F) → List (ReasonCode K Mode)
  build_reason_codes mode primary [] = mode_code mode ∷ selected_code primary ∷ []
  build_reason_codes mode primary (e ∷ rejected) =
      mode_code mode ∷ selected_code primary ∷ rejected_count (length (e ∷ rejected)) ∷ []

  abbrev pub lift : {A : Type 0} → Result (BrokerUnavailable K) A → Result (RouteError K F) A
  lift (ok a) = ok a
  lift (err e) = err (unavailable e)

module _ {K F G S : Type 0} (dec : Discrete K) (r : BrokerRegistry K F G S) where
  -- One of the two checks of features: the descriptor is asked for only if there are features.
  unfoldable pub check_features :
      (List F → Rejection F) → List F → K → Result (RouteError K F) (Option (Rejection F))
  check_features reject [] bid = ok none
  check_features reject (f ∷ fs) bid = do
    supports ← lift (get_capabilities dec bid r)
    ok (elim (missing supports (f ∷ fs)) [ [] ↦ none | x ∷ xs ↦ some (reject (x ∷ xs)) ])

  -- The body of the first loop: why a candidate is turned down, if it is.
  unfoldable pub examine : List F → List F → K → Result (RouteError K F) (Option (Rejection F))
  unfolding check_features
  examine wanted required bid =
      if not (is_registered dec bid r)
      then ok (some not_registered)
      else (check_features missing_features wanted bid >>= λ verdict. elim verdict [
        | some reason ↦ ok (some reason)
        | none ↦ check_features missing_policy_features required bid
      ])

  -- The first loop: the capable candidates, and the rejections.
  unfoldable pub filter_capable :
      List F
      → List F
      → List K
      → Dict K (Rejection F)
      → Result (RouteError K F) (List K × Dict K (Rejection F))
  filter_capable wanted required [] rejected = ok ([], rejected)
  filter_capable wanted required (bid ∷ bids) rejected = examine wanted required bid >>= λ verdict.
      elim verdict [
        | some reason ↦ filter_capable wanted required bids (insert dec bid reason rejected)
        | none ↦ do
          (capable, rejected') ← filter_capable wanted required bids rejected
          ok (bid ∷ capable, rejected')
      ]

  -- The second loop: the healthy ones among them.
  unfoldable pub filter_healthy : List K → Dict K (Rejection F) → List K × Dict K (Rejection F)
  filter_healthy [] rejected = ([], rejected)
  filter_healthy (bid ∷ bids) rejected =
      let health = get_health dec bid r in
      let (later, rejected') = filter_healthy bids (
        if is_usable health then rejected else insert dec bid (unhealthy health.reason) rejected) in
      (if is_usable health then bid ∷ later else later, rejected')

  module _ (headroom : Option (K → EndpointClass → ℕ)) (policy : SourceSelectionPolicy K F) where
    -- The decision for the healthy candidates.
    unfoldable pub decide :
        RoutingRequest F
        → List K
        → Dict K (Rejection F)
        → Result (RouteError K F) (RouteDecision K F Mode)
    unfolding apply_mode build_reason_codes
    decide request [] rejected = err (no_eligible_broker rejected)
    decide request (first ∷ others) rejected =
        let p = for_operation_kind policy request.operation in
        let c =
          apply_mode headroom (λ bid. (get_health dec bid r).latency_p50_ms) p request.operation
            first others p.mode in
        ok (record {
          operation = request.operation;
          primary_broker = c.primary;
          trace_id = request.trace_id;
          policy_version = policy.policy_version;
          fallback_brokers = c.fallbacks;
          parallel_brokers = c.parallel;
          reason_codes = build_reason_codes p.mode c.primary rejected;
          rejected = rejected;
        })

    unfoldable pub route : RoutingRequest F → Result (RouteError K F) (RouteDecision K F Mode)
    unfolding decide
    route request =
        let p = for_operation_kind policy request.operation in
        filter_capable request.required_features p.required_features p.candidates [] >>= λ found.
        (let (healthy, rejected) = filter_healthy found.0 found.1 in
          decide request healthy rejected)
