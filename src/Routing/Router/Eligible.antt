-- ===== src/Routing/Router/Eligible.antt =====
-- What `BrokerRouter.route` makes of the eligible candidates.
use inc_trade.Prelude.{
  ℕ, ◌≡◌, refl, sym, ◌∙◌, false, ◌&&◌, inl, inr, ◌||◌, not, ◌⊎◌, Option, List, [], ◌∷◌, filter, mem,
  mem-filter, filter-filter, arith,
}
use inc_trade.Prelude.Dict.{Dict, contains}
use inc_trade.Prelude.Result.{ok, err}
use inc_trade.Routing.Models.{is_usable, RoutingRequest, Rejection, RouteDecision}
use inc_trade.Routing.Policy.{SourceSelectionPolicy, for_operation_kind, Mode}
use inc_trade.Routing.Registry.{BrokerRegistry, get_health}
use inc_trade.Routing.Registry.Consistent.{IsConsistent}
use inc_trade.Routing.Router.{no_eligible_broker, EndpointClass, filter_healthy, decide, route}
use inc_trade.Routing.Router.Filter.{
  is_capable, is_eligible, filter_capable-filter, filter_healthy-filter, contains-filter_healthy,
}

module _ {K F G S : Type 0} (dec : Discrete K) (r : BrokerRegistry K F G S) where
  module _ (headroom : Option (K → EndpointClass → ℕ)) (policy : SourceSelectionPolicy K F) where
    -- The candidates that may serve the request, in the policy's order.
    abbrev pub eligible : RoutingRequest F → List K
    eligible request =
        let p = for_operation_kind policy request.operation in
        filter (is_eligible dec r request.required_features p.required_features) p.candidates

    -- On a consistent registry, a route is the decision for the eligible candidates: the registry
    -- raises nothing, and the rejected brokers are exactly the candidates that are not eligible.
    pub route-decides :
        IsConsistent dec r
        → (request : RoutingRequest F)
        → (found : Dict K (Rejection F)) × (route dec r headroom policy request
            ≡ decide dec r headroom policy request (eligible request) found)
          × ((k : K)
              → contains dec k found ≡ (
                  let p = for_operation_kind policy request.operation in
                  mem dec k p.candidates
                  && not (is_eligible dec r request.required_features p.required_features k)))
    unfolding route
    route-decides c request =
        let p = for_operation_kind policy request.operation in
        let wanted = request.required_features in
        let required = p.required_features in
        let capable = filter (is_capable dec r wanted required) p.candidates in
        let (found, filtered, same) =
          filter_capable-filter dec r c wanted required p.candidates [] in
        let (healthy, found') = filter_healthy dec r capable found in
        (
          found',
          rw
              (
                filtered,
                filter_healthy-filter dec r capable found,
                filter-filter (is_capable dec r wanted required)
                    (λ bid. is_usable (get_health dec bid r)) p.candidates,
              )
              refl,
          λ k. ground (
            arith,
            same k,
            contains-filter_healthy dec r capable found k,
            mem-filter dec (is_capable dec r wanted required) k p.candidates,
          ),
        )

    -- The decision is made exactly if there is an eligible broker, and keeps the rejections.
    decide-cases :
        (request : RoutingRequest F) (healthy : List K) (found : Dict K (Rejection F))
        → ((d : RouteDecision K F Mode) × (decide dec r headroom policy request healthy found
              ≡ ok d)
            × (d.rejected ≡ found)
            × ¬ (healthy ≡ []))
          ⊎ ((decide dec r headroom policy request healthy found ≡ err (no_eligible_broker found))
              × (healthy ≡ []))
    unfolding decide
    decide-cases request [] found = inr (refl, refl)
    decide-cases request (bid ∷ bids) found = inl (_, refl, refl, λ e. ground arith)

    -- On a consistent registry, a route is found exactly if a candidate is eligible. Otherwise the
    -- router raises its own error, whose rejections are exactly the policy's candidates.
    pub route-ends :
        IsConsistent dec r
        → (request : RoutingRequest F)
        → ((d : RouteDecision K F Mode) × (route dec r headroom policy request ≡ ok d)
            × ¬ (eligible request ≡ []))
          ⊎ ((found : Dict K (Rejection F)) × (route dec r headroom policy request
                ≡ err (no_eligible_broker found))
              × (eligible request ≡ [])
              × ((k : K)
                  → contains dec k found
                    ≡ mem dec k (for_operation_kind policy request.operation).candidates))
    route-ends c request =
        let p = for_operation_kind policy request.operation in
        let (found, decides, rejects) = route-decides c request in
        elim (decide-cases request (eligible request) found) [
          | inl (d, decided, kept, some_left) ↦ inl (d, decides ∙ decided, some_left)
          | inr (raised, none_left) ↦ inr (
            found,
            decides ∙ raised,
            none_left,
            λ k. ground (
              arith,
              rejects k,
              mem-filter dec (is_eligible dec r request.required_features p.required_features) k
                  p.candidates,
              none_left,
            ),
          )
        ]

    -- On a consistent registry, every candidate is eligible or among the rejected of the decision,
    -- and never both; nobody else is rejected.
    pub route-rejects :
        IsConsistent dec r
        → (request : RoutingRequest F) (d : RouteDecision K F Mode) (k : K)
        → route dec r headroom policy request ≡ ok d
        → (let candidates = (for_operation_kind policy request.operation).candidates in
            ((mem dec k (eligible request) || contains dec k d.rejected) ≡ mem dec k candidates)
            × ((mem dec k (eligible request) && contains dec k d.rejected) ≡ false))
    route-rejects c request d k h =
        let p = for_operation_kind policy request.operation in
        let (found, decides, rejects) = route-decides c request in
        let picked =
          mem-filter dec (is_eligible dec r request.required_features p.required_features) k
            p.candidates in
        elim (decide-cases request (eligible request) found) [
          | inl (d', decided, kept, some_left) ↦
              let agrees : d' ≡ d = cc in
              let same : d.rejected ≡ found = rw (sym agrees) kept in
              (ground (arith, rejects k, picked, same), ground (arith, rejects k, picked, same))
          | inr (raised, none_left) ↦ absurd (ground arith)
        ]
