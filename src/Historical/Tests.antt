-- ===== src/Historical/Tests.antt =====
-- A query for days 100 to 110 on day 200: broker 1 reaches back to day 105, in chunks of 3 days, and broker 2 to day 50.
use inc_trade.Prelude.{
  ℕ, ◌+◌, ◌*◌, ◌/◌, ◌≤◌, ◌≡◌, refl, true, false, Option, none, some, List, [], ◌∷◌, ◌==◌, map,
  arith, ℕ_discrete, if◌then◌else◌,
}
use inc_trade.Prelude.Dict.{insert}
use inc_trade.Prelude.Result.{Result, ok, err}
use inc_trade.Routing.Models.{RouteDecision, get_historical_bars, mode_code, selected_code}
use inc_trade.Routing.Policy.{Mode, priority_list, RoutingPolicy, SourceSelectionPolicy}
use inc_trade.Routing.Registry.{BrokerRegistry, register, empty_registry, get_health}
use inc_trade.Routing.Registry.Consistent.{
  registers, apply, apply_all, Change, apply_all-IsConsistent,
}
use inc_trade.Routing.Router.{
  route, decide, filter_capable, filter_healthy, examine, check_features, missing, maybe_parallel,
  apply_mode, build_reason_codes,
}
use inc_trade.Historical.Models.{
  prefer_primary, prefer_newest_provenance, HistoricalQuery, HistoricalCaps, ChunkPlan,
  HistoricalBar,
}
use inc_trade.Historical.Plan.{max_chunk_of, plan_chunks, bars_request}
use inc_trade.Historical.Once.{one_if, chunks_of, reached, windows_for, plan_chunks-once}
use inc_trade.Historical.Merge.{
  merge, merge_bars, merge_bar, within_tolerance, sort_by, insert_by, populate_bar_ranges,
}
use inc_trade.Historical.Merged.{Ascends, first_at, winner, merge-winner}
use inc_trade.Historical.Sources.{source, expand, Follow, populate_bar_ranges-expand}
use inc_trade.Historical.Fetch.{new_ledger, fetch_chunk, try_brokers}
use inc_trade.Historical.Fetched.{EndsWell, fetch-IsGoodEnd}

abbrev registrations : List (Change ℕ ℕ Unit Unit)
registrations = registers 1 tt (λ f. true) ∷ registers 2 tt (λ f. true) ∷ []

abbrev registry : BrokerRegistry ℕ ℕ Unit Unit
registry = apply_all ℕ_discrete registrations empty_registry

abbrev policy : SourceSelectionPolicy ℕ ℕ
policy =
    let p : RoutingPolicy ℕ ℕ = record {
      mode = priority_list;
      candidates = 1 ∷ 2 ∷ [];
      required_features = [];
      allow_fallback = true;
      max_parallel_sources = some 2;
      execution_account = none;
    } in
    record {
      historical = p;
      live_market_data = p;
      execution = p;
      enrichment = p;
      instrument_metadata = p;
      policy_version = "1";
    }

abbrev caps_of : ℕ → Option HistoricalCaps
caps_of bid = some (record {
  supports_historical_data = true;
  window = some (record { max_lookback_days = if bid == 1 then 95 else 150; max_chunk_days = 3 });
})

abbrev query : HistoricalQuery ℕ
query = record {
  instrument = 7;
  timeframe = 8;
  from_date = 100;
  to_date = 110;
  merge_strategy = prefer_primary;
  conflict_tolerance = 1000;
  request_id = 9;
}

abbrev decision : RouteDecision ℕ ℕ Mode
decision = record {
  operation = get_historical_bars;
  primary_broker = 1;
  trace_id = "t";
  policy_version = "1";
  fallback_brokers = 2 ∷ [];
  parallel_brokers = 1 ∷ 2 ∷ [];
  reason_codes = mode_code priority_list ∷ selected_code 1 ∷ [];
  rejected = [];
}

routed :
    route ℕ_discrete registry none policy (bars_request ℕ_discrete registry none policy caps_of "t")
    ≡ ok decision
unfolding route decide filter_capable filter_healthy examine check_features missing maybe_parallel
    apply_mode build_reason_codes apply_all apply register insert empty_registry get_health
    ℕ_discrete
routed = refl

chunk_days : (k : ℕ) → 1 ≤ max_chunk_of caps_of k
unfolding max_chunk_of
chunk_days k = omega arith

plan_chunks-once_example :
    (chunks : List (ChunkPlan ℕ)) × (plan_chunks ℕ_discrete registry none policy caps_of 500 200 "t"
        query
      ≡ ok (some chunks))
    × ((day : ℕ)
        → 100 ≤ day
        → day ≤ 110
        → chunks_of day chunks
          ≡ one_if (reached 200 day (windows_for ℕ_discrete registry none policy caps_of decision)))
plan_chunks-once_example =
    plan_chunks-once ℕ_discrete registry none policy caps_of 500 200 "t" query decision chunk_days
      (omega arith) (omega arith) routed

abbrev bar : ℕ → ℕ → ℕ → HistoricalBar ℕ
bar broker time price = record {
  event_time = time;
  close = price;
  bar_index = 0;
  broker_id = broker;
  request_id = 9;
  fetched_at = time + broker;
  is_fallback = false;
}

abbrev bars : List (HistoricalBar ℕ)
bars = bar 1 1000 50 ∷ bar 2 1000 51 ∷ bar 2 1010 52 ∷ []

-- The bar of broker 2 at time 1000 is newer, and out of tolerance.
newest : (merge 1 prefer_newest_provenance 1000 bars).0 ≡ bar 2 1000 51 ∷ bar 2 1010 52 ∷ []
unfolding merge merge_bars merge_bar within_tolerance sort_by insert_by insert ℕ_discrete
newest = refl

merge-winner_example :
    let merged = (merge 1 prefer_newest_provenance 1000 bars).0 in
    Ascends merged
    × ((t : ℕ) → first_at t merged ≡ winner 1 prefer_newest_provenance 1000 t none bars)
merge-winner_example = merge-winner 1 prefer_newest_provenance 1000 bars

populate_bar_ranges-expand_example :
    let ranges = populate_bar_ranges ℕ_discrete bars in
    (expand ranges ≡ map source bars) × Follow 0 ranges
populate_bar_ranges-expand_example = populate_bar_ranges-expand ℕ_discrete bars

-- Broker 2 has a bar at the start of each chunk, and broker 1 raises.
abbrev get_bars : ChunkPlan ℕ → Result ℕ (List (HistoricalBar ℕ))
get_bars plan = if plan.broker_id == 1 then err 4 else ok (bar 2 (plan.from_date * 10) 50 ∷ [])

-- Broker 1 has failed, and is not asked again; the bars of broker 2 are marked.
try_brokers_test :
    let failed : ChunkPlan ℕ = record {
      broker_id = 1;
      from_date = 106;
      to_date = 108;
      is_fallback = false;
    } in
    (try_brokers get_bars ℕ_discrete failed (1 ∷ 2 ∷ []) (new_ledger {K = ℕ} {E = ℕ})).1
    ≡ some (record (bar 2 1060 50) { is_fallback = true } ∷ [])
unfolding try_brokers fetch_chunk ℕ_discrete
try_brokers_test = refl

fetch-IsGoodEnd_example :
    (chunks : List (ChunkPlan ℕ)) × (plan_chunks ℕ_discrete registry none policy caps_of 500 200 "t"
        query
      ≡ ok (some chunks))
    × EndsWell ℕ_discrete registry none policy caps_of get_bars 500 1 200
        (λ t. t / 10)
        "t"
        query
        chunks
fetch-IsGoodEnd_example =
    fetch-IsGoodEnd ℕ_discrete registry none policy caps_of get_bars 500 1 200 (λ t. t / 10) "t"
      query (apply_all-IsConsistent ℕ_discrete registrations) chunk_days (omega arith) (omega arith)
