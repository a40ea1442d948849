-- ===== src/Historical/Fetch.antt =====
-- `HistoricalDataCoordinator.fetch` of brokers/common/historical_coordinator.py, with the ledger of
-- brokers/common/provenance.py. The chunks are fetched one after the other; how the calls interleave shows only in the
-- order of the ledger. `get_bars` stands for what `_fetch_chunk` tries: the quota, the gateway of the broker, and its bars.
use Prim.Native.String.{String}
use inc_trade.Prelude.{
  ℕ, Bool, true, false, Option, none, some, List, [], ◌∷◌, ◌++◌, map, length, if◌then◌else◌,
}
use inc_trade.Prelude.Result.{Result, ok, err}
use inc_trade.Routing.Policy.{SourceSelectionPolicy}
use inc_trade.Routing.Registry.{BrokerRegistry, BrokerUnavailable}
use inc_trade.Routing.Router.{EndpointClass, route}
use inc_trade.Historical.Models.{
  MergeStrategy, fail_on_conflict, HistoricalQuery, HistoricalCaps, ChunkPlan, HistoricalBar,
  ConflictRecord, BarRangeRecord, ChunkRecord, Gap, degraded,
}
use inc_trade.Historical.Plan.{plan_chunks, bars_request}
use inc_trade.Historical.Merge.{time_of, sort_by, merge, reindex, populate_bar_ranges, detect_gaps}

-- Why a ledger is degraded: of the errors of the failed chunks there may be none that has a text.
pub data DegradedReason (E : Type 0) : Type 0 where
  no_chunks_planned all_chunks_failed : DegradedReason E
  chunk_errors : List E → DegradedReason E

pub record ProvenanceLedger (K E : Type 0) : Type 0 where
  pub chunks : List (ChunkRecord K E)
  pub bar_ranges : List (BarRangeRecord K)
  pub conflicts : List (ConflictRecord K)
  pub degraded_reason : Option (DegradedReason E)

-- A new ledger, for the strategy of its query.
abbrev pub new_ledger : {K E : Type 0} → ProvenanceLedger K E
new_ledger = record { chunks = []; bar_ranges = []; conflicts = []; degraded_reason = none }

-- What a fetch ends with: a series, or `MergeConflictError`, or the registry's error, or the plan took more rounds than there were.
pub data Fetched (K : Type 0) : Type 0 where
  series : List (HistoricalBar K) → List Gap → Fetched K
  merge_conflict : ℕ → Fetched K
  raised : BrokerUnavailable K → Fetched K
  unfinished : Fetched K

module _ {K E : Type 0} where
  abbrev pub mark_degraded : DegradedReason E → ProvenanceLedger K E → ProvenanceLedger K E
  mark_degraded reason ledger = record ledger { degraded_reason = some reason }

  -- The errors of `failed_chunks`.
  abbrev pub errors_of : List (ChunkRecord K E) → List E
  errors_of [] = []
  errors_of (c ∷ cs) = elim c.error [ none ↦ errors_of cs | some e ↦ e ∷ errors_of cs ]

  module _ (get_bars : ChunkPlan K → Result E (List (HistoricalBar K))) where
    -- `_fetch_chunk` and `_record_chunk_result`
    unfoldable pub fetch_chunk :
        ChunkPlan K → ProvenanceLedger K E → ProvenanceLedger K E × Option (List (HistoricalBar K))
    fetch_chunk plan ledger = elim (get_bars plan) [
      | ok bars ↦ (
        record ledger {
          chunks =
              ledger.chunks
              ++ record { plan = plan; bars_fetched = length bars; error = none } ∷ [];
        },
        some bars,
      )
      | err e ↦ (
        record ledger {
          chunks = ledger.chunks ++ record { plan = plan; bars_fetched = 0; error = some e } ∷ [];
        },
        none,
      )
    ]

    unfoldable pub fetch_all :
        List (ChunkPlan K)
        → ProvenanceLedger K E
        → ProvenanceLedger K E × List (ChunkPlan K × Option (List (HistoricalBar K)))
    unfolding fetch_chunk
    fetch_all [] ledger = (ledger, [])
    fetch_all (plan ∷ plans) ledger =
        let (next, bars) = fetch_chunk plan ledger in
        let (last, results) = fetch_all plans next in (last, (plan, bars) ∷ results)

    abbrev pub as_fallback : HistoricalBar K → HistoricalBar K
    as_fallback bar = record bar { is_fallback = true }

    module _ (dec : Discrete K) where
      -- The loop of `_try_fallback` over the fallback brokers of the route.
      unfoldable pub try_brokers :
          ChunkPlan K
          → List K
          → ProvenanceLedger K E
          → ProvenanceLedger K E × Option (List (HistoricalBar K))
      unfolding fetch_chunk
      try_brokers failed [] ledger = (ledger, none)
      try_brokers failed (b ∷ bs) ledger =
          let (next, bars) =
            fetch_chunk (record failed { broker_id = b; is_fallback = true }) ledger in
          elim (dec b failed.broker_id) [
            | yes _ ↦ try_brokers failed bs ledger
            | no _ ↦ elim bars [
              | some found ↦ (next, some (map as_fallback found))
              | none ↦ try_brokers failed bs next
            ]
          ]

      -- The third step of `fetch`, where `fallbacks` are those of the route, or none. All bars, in the order of the
      -- chunks.
      unfoldable pub collect :
          List K
          → List (ChunkPlan K × Option (List (HistoricalBar K)))
          → ProvenanceLedger K E
          → ProvenanceLedger K E × List (HistoricalBar K)
      unfolding try_brokers
      collect fallbacks [] ledger = (ledger, [])
      collect fallbacks ((plan, some bars) ∷ results) ledger =
          let (last, all_bars) = collect fallbacks results ledger in (last, bars ++ all_bars)
      collect fallbacks ((plan, none) ∷ results) ledger =
          let (next, bars) = try_brokers plan fallbacks ledger in
          let (last, all_bars) = collect fallbacks results next in
          (last, (elim bars [ none ↦ [] | some found ↦ found ]) ++ all_bars)

-- `_empty_series`
abbrev pub empty_series : {K : Type 0} → HistoricalQuery K → Fetched K
empty_series query =
    series [] (record { start = query.from_date; end_ = query.to_date; reason = degraded } ∷ [])

-- The strategy raises on conflicts.
abbrev pub raises_on : {K : Type 0} → MergeStrategy → List (ConflictRecord K) → Bool
raises_on fail_on_conflict [] = false
raises_on fail_on_conflict (c ∷ cs) = true
raises_on _ conflicts = false

module _ {K E : Type 0} (dec : Discrete K) (unit : ℕ) (day : ℕ → ℕ) where
  -- Steps 6 to 8 of `fetch`.
  unfoldable pub finish :
      HistoricalQuery K
      → List (HistoricalBar K)
      → ProvenanceLedger K E
      → ProvenanceLedger K E × Fetched K
  finish query merged ledger =
      let bars = reindex 0 merged in
      let ranged : ProvenanceLedger K E = record ledger {
        bar_ranges = ledger.bar_ranges ++ populate_bar_ranges dec bars;
      } in
      (
        elim (errors_of ledger.chunks) [
          | [] ↦ ranged
          | e ∷ es ↦ mark_degraded (chunk_errors (e ∷ es)) ranged
        ],
        series bars (detect_gaps day query bars),
      )

  -- The steps from the fourth on, on all bars.
  unfoldable pub merge_all :
      HistoricalQuery K
      → ProvenanceLedger K E
      → List (HistoricalBar K)
      → ProvenanceLedger K E × Fetched K
  unfolding finish
  merge_all query ledger [] = (mark_degraded all_chunks_failed ledger, empty_series query)
  merge_all query ledger (bar ∷ bars) =
      let (merged, conflicts) =
        merge unit query.merge_strategy query.conflict_tolerance (sort_by time_of (bar ∷ bars)) in
      let noted : ProvenanceLedger K E = record ledger {
        conflicts = ledger.conflicts ++ conflicts;
      } in
      if raises_on query.merge_strategy conflicts
      then (noted, merge_conflict (length conflicts))
      else finish query merged noted

module _ {K F G S E : Type 0} (dec : Discrete K) (r : BrokerRegistry K F G S)
    (headroom : Option (K → EndpointClass → ℕ)) (policy : SourceSelectionPolicy K F)
    (caps_of : K → Option HistoricalCaps)
    (get_bars : ChunkPlan K → Result E (List (HistoricalBar K))) where
  -- The fallback brokers of the route of `_try_fallback`, if there is one. That the registry raises is no case of its
  -- own: the same route has been asked for by the plan, on which `fetch` has raised then.
  abbrev pub fallbacks_of : String → List K
  fallbacks_of trace =
      elim (route dec r headroom policy (bars_request dec r headroom policy caps_of trace)) [
        | err _ ↦ []
        | ok decision ↦ decision.fallback_brokers
      ]

  -- `fetch`, with at most `fuel` rounds for the chunks of a broker.
  unfoldable pub fetch :
      ℕ → ℕ → (ℕ → ℕ) → ℕ → String → HistoricalQuery K → ProvenanceLedger K E × Fetched K
  unfolding plan_chunks fetch_all collect merge_all
  fetch fuel unit day today trace query =
      elim (plan_chunks dec r headroom policy caps_of fuel today trace query) [
        | err e ↦ (new_ledger, raised e)
        | ok none ↦ (new_ledger, unfinished)
        | ok (some []) ↦ (mark_degraded no_chunks_planned new_ledger, empty_series query)
        | ok (some (c ∷ cs)) ↦
            let (tried, results) = fetch_all get_bars (c ∷ cs) new_ledger in
            let (collected, all_bars) = collect get_bars dec (fallbacks_of trace) results tried in
            merge_all dec unit day query collected all_bars
      ]
