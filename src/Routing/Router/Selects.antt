-- ===== src/Routing/Router/Selects.antt =====
-- Whom `BrokerRouter.route` selects among the eligible brokers.
use inc_trade.Prelude.{
  ℕ, ◌≤◌, ◌≡◌, ◌≢◌, subst, refl, sym, ◌∙◌, true, Option, some, List, [], ◌∷◌, Bool, filter, All,
  All-of_mem, mem, arith,
}
use inc_trade.Prelude.Dict.{Dict}
use inc_trade.Prelude.Result.{ok}
use inc_trade.Routing.Models.{
  OperationKind, is_execution, RoutingRequest, Rejection, RouteDecision, place_order, cancel_order,
  modify_order, place_super_order, place_forever_order, place_slice_order,
}
use inc_trade.Routing.Policy.{
  Mode, fixed, quota_aware, SourceSelectionPolicy, for_operation_kind, auto_dual_broker_policy,
}
use inc_trade.Routing.Registry.{BrokerRegistry, get_health}
use inc_trade.Routing.Registry.Consistent.{IsConsistent}
use inc_trade.Routing.Router.{
  EndpointClass, operation_to_endpoint_class, Selection, apply_mode, decide, route,
}
use inc_trade.Routing.Router.Filter.{is_eligible}
use inc_trade.Routing.Router.Eligible.{eligible, route-decides}
use inc_trade.Routing.Router.Order.{apply_mode-All, apply_mode-mem, apply_mode-headroom}

All-selected :
    {K F : Type 0} (P : K → Type 0) (d : RouteDecision K F Mode) (c : Selection K)
    → d.primary_broker ≡ c.primary
    → d.fallback_brokers ≡ c.fallbacks
    → d.parallel_brokers ≡ c.parallel
    → All P (c.primary ∷ c.fallbacks) × All P c.parallel
    → All P (d.primary_broker ∷ d.fallback_brokers) × All P d.parallel_brokers
All-selected P d c e0 e1 e2 h = rw (e0, e1, e2) h

for_operation_kind-execution :
    {K F : Type 0} (p : SourceSelectionPolicy K F) (operation : OperationKind)
    → is_execution operation ≡ true
    → for_operation_kind p operation ≡ p.execution
for_operation_kind-execution p place_order x = refl
for_operation_kind-execution p cancel_order x = refl
for_operation_kind-execution p modify_order x = refl
for_operation_kind-execution p place_super_order x = refl
for_operation_kind-execution p place_forever_order x = refl
for_operation_kind-execution p place_slice_order x = refl
for_operation_kind-execution p _ x = absurd (ground arith)

module _ {K F G S : Type 0} (dec : Discrete K) (r : BrokerRegistry K F G S)
    (headroom : Option (K → EndpointClass → ℕ)) (policy : SourceSelectionPolicy K F) where
  abbrev latency_of : K → ℕ
  latency_of bid = (get_health dec bid r).latency_p50_ms

  -- What is chosen for a request among eligible brokers `first ∷ others`.
  abbrev choice : RoutingRequest F → K → List K → Selection K
  choice request first others =
      let p = for_operation_kind policy request.operation in
      apply_mode headroom latency_of p request.operation first others p.mode

  decide-choice :
      (request : RoutingRequest F) (d : RouteDecision K F Mode) (healthy : List K)
      (found : Dict K (Rejection F))
      → decide dec r headroom policy request healthy found ≡ ok d
      → (first : K) × (others : List K) × (healthy ≡ first ∷ others)
        × (d.primary_broker ≡ (choice request first others).primary)
        × (d.fallback_brokers ≡ (choice request first others).fallbacks)
        × (d.parallel_brokers ≡ (choice request first others).parallel)
  unfolding decide
  decide-choice request d [] found e = absurd (ground arith)
  decide-choice request d (first ∷ others) found e =
      (first, others, refl, ground arith, ground arith, ground arith)

  -- A decision holds what the mode chooses among the eligible brokers.
  route-choice :
      IsConsistent dec r
      → (request : RoutingRequest F) (d : RouteDecision K F Mode)
      → route dec r headroom policy request ≡ ok d
      → (first : K) × (others : List K) × (eligible dec r headroom policy request ≡ first ∷ others)
        × (d.primary_broker ≡ (choice request first others).primary)
        × (d.fallback_brokers ≡ (choice request first others).fallbacks)
        × (d.parallel_brokers ≡ (choice request first others).parallel)
  route-choice c request d h =
      let (found, decides, rejects) = route-decides dec r headroom policy c request in
      decide-choice request d (eligible dec r headroom policy request) found (sym decides ∙ h)

  -- On a consistent registry, the primary broker, the fallbacks and the parallel brokers of a route
  -- are all eligible candidates.
  pub route-eligible :
      IsConsistent dec r
      → (request : RoutingRequest F) (d : RouteDecision K F Mode)
      → route dec r headroom policy request ≡ ok d
      → let IsEligible = λ (bid : K). mem dec bid (eligible dec r headroom policy request) ≡ true in
        All IsEligible (d.primary_broker ∷ d.fallback_brokers) × All IsEligible d.parallel_brokers
  route-eligible c request d h =
      let (first, others, e, e0, e1, e2) = route-choice c request d h in
      let p = for_operation_kind policy request.operation in
      let IsEligible = λ (bid : K). mem dec bid (eligible dec r headroom policy request) ≡ true in
      All-selected IsEligible d (choice request first others) e0 e1 e2 (
        apply_mode-All latency_of headroom IsEligible p request.operation first others p.mode (
          subst (λ ys. All IsEligible ys) e
            (All-of_mem dec IsEligible (eligible dec r headroom policy request) (λ bid m. m))))

  -- On a consistent registry, if the policy allows fallbacks and its mode is not "fixed", the primary
  -- broker and the fallbacks are together exactly the eligible candidates.
  pub route-exhausts :
      IsConsistent dec r
      → (request : RoutingRequest F) (d : RouteDecision K F Mode) (k : K)
      → (for_operation_kind policy request.operation).allow_fallback ≡ true
      → (for_operation_kind policy request.operation).mode ≢ fixed
      → route dec r headroom policy request ≡ ok d
      → mem dec k (d.primary_broker ∷ d.fallback_brokers)
        ≡ mem dec k (eligible dec r headroom policy request)
  route-exhausts c request d k a ne h =
      let (first, others, e, e0, e1, e2) = route-choice c request d h in
      let p = for_operation_kind policy request.operation in
      rw (e, e0, e1)
        (apply_mode-mem latency_of headroom dec k p request.operation first others p.mode a ne)

  -- On a consistent registry, a quota-aware primary has the most headroom of the eligible candidates
  -- in the endpoint class of the operation.
  pub route-headroom :
      (score : K → EndpointClass → ℕ)
      → IsConsistent dec r
      → (request : RoutingRequest F) (d : RouteDecision K F Mode) (k : K) → headroom ≡ some score
      → (for_operation_kind policy request.operation).mode ≡ quota_aware
      → route dec r headroom policy request ≡ ok d
      → mem dec k (eligible dec r headroom policy request) ≡ true
      → let class = operation_to_endpoint_class request.operation in
        score k class ≤ score d.primary_broker class
  route-headroom score c request d k hs hm h m =
      let (first, others, e, e0, e1, e2) = route-choice c request d h in
      let p = for_operation_kind policy request.operation in
      rw (e0, hs, hm)
        (apply_mode-headroom latency_of score dec k p request.operation first others
          (subst (λ ys. mem dec k ys ≡ true) e m))

  filter_one : (keep : K → Bool) (k x : K) (xs : List K) → filter keep (k ∷ []) ≡ x ∷ xs → x ≡ k
  filter_one keep k x xs e = ground arith

  -- A fixed policy of one candidate routes to it alone.
  route-only :
      IsConsistent dec r
      → (request : RoutingRequest F) (d : RouteDecision K F Mode) (account : K)
      → (for_operation_kind policy request.operation).candidates ≡ account ∷ []
      → (for_operation_kind policy request.operation).mode ≡ fixed
      → route dec r headroom policy request ≡ ok d
      → (d.primary_broker ≡ account) × (d.fallback_brokers ≡ []) × (d.parallel_brokers ≡ [])
  unfolding apply_mode
  route-only c request d account hc hm h =
      let (first, others, e, e0, e1, e2) = route-choice c request d h in
      let p = for_operation_kind policy request.operation in
      let keep = is_eligible dec r request.required_features p.required_features in
      let one : first ≡ account =
        filter_one keep account first others (subst (λ ys. filter keep ys ≡ first ∷ others) hc e) in
      (rw (e0, hm) one, rw (e1, hm) refl, rw (e2, hm) refl)

module _ {K F G S : Type 0} (dec : Discrete K) (r : BrokerRegistry K F G S) where
  -- Under the policy made for two brokers, on a consistent registry, an execution is routed to the
  -- execution account alone: the account is the primary, and there is no fallback and no parallel
  -- broker.
  pub route-single_account :
      (headroom : Option (K → EndpointClass → ℕ)) (dhan upstox account : K) (hist live news : F)
      (request : RoutingRequest F) (d : RouteDecision K F Mode)
      → IsConsistent dec r
      → is_execution request.operation ≡ true
      → route dec r headroom
          (auto_dual_broker_policy dhan upstox hist live news account "1.0.0")
          request
        ≡ ok d
      → (d.primary_broker ≡ account) × (d.fallback_brokers ≡ []) × (d.parallel_brokers ≡ [])
  unfolding auto_dual_broker_policy
  route-single_account headroom dhan upstox account hist live news request d c x h =
      let policy = auto_dual_broker_policy dhan upstox hist live news account "1.0.0" in
      let executes = for_operation_kind-execution policy request.operation x in
      route-only dec r headroom policy c request d account (rw executes refl) (rw executes refl) h
