-- ===== src/Historical/Plan.antt =====
-- The plan of a query in brokers/common/historical_coordinator.py: the ranges of the brokers, and their chunks. Days
-- are ordinals, and today is an argument.
use Prim.Native.String.{String}
use inc_trade.Prelude.{
  ℕ, zero, suc, ◌+◌, ◌-◌, min, max, false, Option, none, some, List, [], ◌∷◌, ◌++◌, leb,
  if◌then◌else◌,
}
use inc_trade.Prelude.Dict.{Dict, insert}
use inc_trade.Prelude.Result.{Result, ok, err}
use inc_trade.Routing.Models.{get_historical_bars, RoutingRequest}
use inc_trade.Routing.Policy.{SourceSelectionPolicy}
use inc_trade.Routing.Registry.{BrokerRegistry, BrokerUnavailable}
use inc_trade.Routing.Router.{EndpointClass, unavailable, no_eligible_broker, route}
use inc_trade.Historical.Models.{HistoricalQuery, HistoricalWindow, HistoricalCaps, ChunkPlan}

-- A range of days, from the first to the last.
abbrev pub Range : Type 0
Range = ℕ × ℕ

-- The window of a broker whose descriptor is to be had, and which serves historical bars.
abbrev pub window_of : Option HistoricalCaps → Option HistoricalWindow
window_of none = none
window_of (some caps) = if caps.supports_historical_data then caps.window else none

module _ {K : Type 0} where
  -- `sorted` by the days of lookback, which is stable: the first of the shortest, and the last of the longest.
  unfoldable pub shortest : K × ℕ → List (K × ℕ) → K × ℕ
  shortest b [] = b
  shortest b (c ∷ cs) = shortest (if leb b.1 c.1 then b else c) cs

  unfoldable pub longest : K × ℕ → List (K × ℕ) → K × ℕ
  longest b [] = b
  longest b (c ∷ cs) = longest (if leb b.1 c.1 then c else b) cs

  -- A range that holds a day is put down for the broker.
  abbrev pub if_days : K → ℕ → ℕ → Dict K Range
  if_days broker from to = if leb from to then (broker, (from, to)) ∷ [] else []

  -- The recent days go to the first broker, the days before them to the second.
  unfoldable pub split_range : ℕ → ℕ → ℕ → K × ℕ → K × ℕ → Dict K Range
  split_range from_date to_date today short long =
      let short_from = max from_date (today - short.1) in
      let long_from = max from_date (today - long.1) in
      if_days short.0 short_from to_date ++ if_days long.0 long_from (short_from - 1)

  -- `_partition_ranges`, on the windows of the brokers.
  unfoldable pub partition_windows : ℕ → ℕ → ℕ → Dict K ℕ → Dict K Range
  unfolding split_range shortest longest
  partition_windows from_date to_date today [] = []
  partition_windows from_date to_date today (b ∷ []) =
      if_days b.0 (max from_date (today - b.1)) to_date
  partition_windows from_date to_date today (b ∷ c ∷ cs) =
      split_range from_date to_date today (shortest b (c ∷ cs)) (longest b (c ∷ cs))

module _ {K : Type 0} (dec : Discrete K) (caps_of : K → Option HistoricalCaps) where
  -- `broker_windows`
  unfoldable pub broker_windows : List K → Dict K ℕ → Dict K ℕ
  broker_windows [] d = d
  broker_windows (bid ∷ bids) d =
      broker_windows bids (elim (window_of (caps_of bid)) [
        | none ↦ d
        | some w ↦ insert dec bid w.max_lookback_days d
      ])

  unfoldable pub partition_ranges : ℕ → ℕ → ℕ → List K → Dict K Range
  unfolding broker_windows partition_windows
  partition_ranges from_date to_date today broker_ids =
      partition_windows from_date to_date today (broker_windows broker_ids [])

module _ {K : Type 0} where
  -- The inner loop of `_plan_chunks`, in at most so many rounds.
  unfoldable pub split_chunks : ℕ → K → ℕ → ℕ → ℕ → Option (List (ChunkPlan K))
  split_chunks zero broker max_chunk current to_date = none
  split_chunks (suc fuel) broker max_chunk current to_date =
      let end_ = min (current + max_chunk - 1) to_date in
      let rest = split_chunks fuel broker max_chunk (end_ + 1) to_date in
      if leb current to_date
      then elim rest [
        | none ↦ none
        | some chunks ↦ some (
            record { broker_id = broker; from_date = current; to_date = end_; is_fallback = false }
            ∷ chunks)
      ]
      else some []

module _ {K : Type 0} (caps_of : K → Option HistoricalCaps) where
  -- `constraint.max_chunk_days if constraint else 90`
  unfoldable pub max_chunk_of : K → ℕ
  max_chunk_of bid = elim (caps_of bid) [
    | none ↦ 90
    | some caps ↦ elim caps.window [ none ↦ 90 | some w ↦ w.max_chunk_days ]
  ]

  -- The outer loop of `_plan_chunks`. The brokers of the ranges are all registered.
  unfoldable pub plan_ranges : ℕ → Dict K Range → Option (List (ChunkPlan K))
  unfolding split_chunks max_chunk_of
  plan_ranges fuel [] = some []
  plan_ranges fuel ((broker, (from, to)) ∷ ranges) =
      elim (split_chunks fuel broker (max_chunk_of broker) from to) [
        | none ↦ none
        | some chunks ↦ elim (plan_ranges fuel ranges) [
          | none ↦ none
          | some later ↦ some (chunks ++ later)
        ]
      ]

-- `list(decision.parallel_brokers) or [decision.primary_broker]`
abbrev pub eligible_brokers : {K : Type 0} → List K → K → List K
eligible_brokers [] primary = primary ∷ []
eligible_brokers (b ∷ bs) primary = b ∷ bs

module _ {K F G S : Type 0} (dec : Discrete K) (r : BrokerRegistry K F G S)
    (headroom : Option (K → EndpointClass → ℕ)) (policy : SourceSelectionPolicy K F)
    (caps_of : K → Option HistoricalCaps) where
  abbrev pub bars_request : String → RoutingRequest F
  bars_request trace = record {
    operation = get_historical_bars;
    trace_id = trace;
    required_features = [];
  }

  -- `_plan_chunks`: nothing, if no broker is eligible. The registry's exception goes through.
  unfoldable pub plan_chunks :
      ℕ
      → ℕ
      → String
      → HistoricalQuery K
      → Result (BrokerUnavailable K) (Option (List (ChunkPlan K)))
  unfolding partition_ranges plan_ranges
  plan_chunks fuel today trace query = elim (route dec r headroom policy (bars_request trace)) [
    | err (unavailable e) ↦ err e
    | err (no_eligible_broker _) ↦ ok (some [])
    | ok decision ↦ ok (
        plan_ranges caps_of fuel (
          partition_ranges dec caps_of query.from_date query.to_date today
            (eligible_brokers decision.parallel_brokers decision.primary_broker)))
  ]
