-- ===== src/Historical/Fetched.antt =====
-- How `HistoricalDataCoordinator.fetch` of brokers/common/historical_coordinator.py ends.
use Prim.Native.String.{String}
use inc_trade.Prelude.{
  ℕ, ◌+◌, ◌≤◌, ◌<◌, ◌≡◌, ◌≢◌, ◌∙◌, ap, refl, subst, true, false, Option, none, some, List, [], ◌∷◌,
  ◌++◌, map, arith, length, Bool-cases, List-cases, inl, inr,
}
use inc_trade.Prelude.Result.{Result, ok}
use inc_trade.Routing.Policy.{SourceSelectionPolicy}
use inc_trade.Routing.Registry.{BrokerRegistry}
use inc_trade.Routing.Registry.Consistent.{IsConsistent}
use inc_trade.Routing.Router.{EndpointClass}
use inc_trade.Historical.Models.{
  MergeStrategy, fail_on_conflict, HistoricalQuery, HistoricalCaps, ChunkPlan, HistoricalBar,
  ConflictRecord,
}
use inc_trade.Historical.Plan.{max_chunk_of, plan_chunks}
use inc_trade.Historical.Once.{plan_chunks-ends}
use inc_trade.Historical.Merge.{time_of, sort_by, merge, merge_bars, reindex, populate_bar_ranges}
use inc_trade.Historical.Fetch.{
  ProvenanceLedger, Fetched, series, merge_conflict, raised, unfinished, errors_of, new_ledger,
  finish, raises_on, merge_all, fetch_all, collect, fallbacks_of, fetch,
}
use inc_trade.Historical.Merged.{Ascends, first_at, winner, merge-winner}
use inc_trade.Historical.Numbered.{
  Counts, reindex-Counts, reindex-Ascends, unnumbered, first_at-reindex, winner-sort_by,
}
use inc_trade.Historical.Answers.{outcome, all_bars_of, all_retried}
use inc_trade.Historical.Noted.{collect-noted}
use inc_trade.Historical.Sources.{source, expand, populate_bar_ranges-expand}

module _ {K : Type 0} where
  raises_on-true :
      (strategy : MergeStrategy) (cs : List (ConflictRecord K))
      → raises_on strategy cs ≡ true
      → (strategy ≡ fail_on_conflict) × (1 ≤ length cs)
  raises_on-true strategy cs h = ground arith

  raises_on-false :
      (strategy : MergeStrategy) (cs : List (ConflictRecord K))
      → raises_on strategy cs ≡ false
      → strategy ≡ fail_on_conflict
      → cs ≡ []
  raises_on-false strategy cs h e = ground arith

module _ {K E : Type 0} (get_bars : ChunkPlan K → Result E (List (HistoricalBar K)))
    (unit : ℕ) where
  abbrev pub conflicts_of : HistoricalQuery K → List (HistoricalBar K) → List (ConflictRecord K)
  conflicts_of query found =
      (merge unit query.merge_strategy query.conflict_tolerance (sort_by time_of found)).1

  -- The bars of a series ascend strictly in time and are numbered from 0, and that of each time is what the found bars
  -- of this time lead to.
  abbrev pub Shows : HistoricalQuery K → List (HistoricalBar K) → List (HistoricalBar K) → Type 0
  Shows query found bars =
      Ascends bars
      × Counts 0 bars
      × ((t : ℕ)
          → unnumbered (first_at t bars)
            ≡ unnumbered (winner unit query.merge_strategy query.conflict_tolerance t none found))

  -- A good end, where `asked` are the chunks that were asked for and `found` the bars that were answered: a series that
  -- shows these bars, whose ledger has the outcome of each of the former and the source of each of the latter, and is
  -- degraded if a chunk has failed; or an error that the strategy asks for.
  abbrev pub IsGoodEnd :
      List (ChunkPlan K)
      → List (HistoricalBar K)
      → HistoricalQuery K
      → ProvenanceLedger K E × Fetched K
      → Type 0
  IsGoodEnd asked found query (ledger, series bars gaps) =
      (ledger.chunks ≡ map (outcome get_bars) asked)
      × Shows query found bars
      × (expand ledger.bar_ranges ≡ map source bars)
      × (errors_of ledger.chunks ≢ [] → ledger.degraded_reason ≢ none)
      × (query.merge_strategy ≡ fail_on_conflict → conflicts_of query found ≡ [])
  IsGoodEnd asked found query (ledger, merge_conflict n) =
      (ledger.chunks ≡ map (outcome get_bars) asked)
      × (query.merge_strategy ≡ fail_on_conflict)
      × (1 ≤ n)
      × (n ≡ length (conflicts_of query found))
  IsGoodEnd asked found query (ledger, raised e) = ⊥
  IsGoodEnd asked found query (ledger, unfinished) = ⊥

module _ {K E : Type 0} (dec : Discrete K) (unit : ℕ) (day : ℕ → ℕ)
    (get_bars : ChunkPlan K → Result E (List (HistoricalBar K))) where
  merge-Shows :
      (query : HistoricalQuery K) (found : List (HistoricalBar K))
      → let (merged, conflicts) =
          merge unit query.merge_strategy query.conflict_tolerance (sort_by time_of found) in
        Shows get_bars unit query found (reindex 0 merged)
  merge-Shows query found =
      let strategy = query.merge_strategy in
      let tolerance = query.conflict_tolerance in
      let (ascends, wins) = merge-winner unit strategy tolerance (sort_by time_of found) in
      let merged = (merge unit strategy tolerance (sort_by time_of found)).0 in
      (
        reindex-Ascends 0 merged ascends,
        reindex-Counts 0 merged,
        λ t.
            first_at-reindex 0 t merged
            ∙ ap unnumbered (wins t ∙ winner-sort_by unit strategy tolerance t none found),
      )

  finish-IsGoodEnd :
      (asked : List (ChunkPlan K)) (found : List (HistoricalBar K)) (query : HistoricalQuery K)
      (merged : List (HistoricalBar K)) (ledger : ProvenanceLedger K E)
      → ledger.chunks ≡ map (outcome get_bars) asked
      → ledger.bar_ranges ≡ []
      → Shows get_bars unit query found (reindex 0 merged)
      → (query.merge_strategy ≡ fail_on_conflict → conflicts_of get_bars unit query found ≡ [])
      → IsGoodEnd get_bars unit asked found query (finish dec unit day query merged ledger)
  unfolding finish
  finish-IsGoodEnd asked found query merged ledger noted e shows agrees =
      let bars = reindex 0 merged in
      let ranges =
        ap (λ l. expand (l ++ populate_bar_ranges dec bars)) e
        ∙ (populate_bar_ranges-expand dec bars).0 in
      elim (List-cases (errors_of ledger.chunks)) [
        | inl none_ ↦ rw (finish, none_) (noted, shows, ranges, (λ f g. f none_), agrees)
        | inr (x, xs, some_) ↦
            rw (finish, some_) (noted, shows, ranges, (λ f g. ground arith), agrees)
      ]

  merge-none : (query : HistoricalQuery K) → conflicts_of get_bars unit query [] ≡ []
  unfolding merge merge_bars sort_by
  merge-none query = refl

  merge_all-IsGoodEnd :
      (asked : List (ChunkPlan K)) (query : HistoricalQuery K) (ledger : ProvenanceLedger K E)
      (found : List (HistoricalBar K))
      → ledger.chunks ≡ map (outcome get_bars) asked
      → ledger.bar_ranges ≡ []
      → IsGoodEnd get_bars unit asked found query (merge_all dec unit day query ledger found)
  unfolding merge_all
  merge_all-IsGoodEnd asked query ledger [] noted e =
      (noted, (tt, tt, λ t. refl), ap expand e, (λ f g. ground arith), λ f. merge-none query)
  merge_all-IsGoodEnd asked query ledger (b ∷ bs) noted e =
      let m = merge unit query.merge_strategy query.conflict_tolerance (sort_by time_of (b ∷ bs)) in
      let told : ProvenanceLedger K E = record ledger { conflicts = ledger.conflicts ++ m.1 } in
      elim (Bool-cases (raises_on query.merge_strategy m.1)) [
        | inl h ↦
            let (strategy, some_) = raises_on-true query.merge_strategy m.1 h in
            rw (merge_all, h) (noted, strategy, some_, refl)
        | inr h ↦
            rw (merge_all, h)
              (finish-IsGoodEnd asked (b ∷ bs) query m.0 told noted e (merge-Shows query (b ∷ bs))
                (raises_on-false query.merge_strategy m.1 h))
      ]

module _ {K F G S E : Type 0} (dec : Discrete K) (r : BrokerRegistry K F G S)
    (headroom : Option (K → EndpointClass → ℕ)) (policy : SourceSelectionPolicy K F)
    (caps_of : K → Option HistoricalCaps)
    (get_bars : ChunkPlan K → Result E (List (HistoricalBar K))) where
  -- A good end, for the planned chunks and the fallbacks of the route.
  abbrev pub EndsWell :
      ℕ → ℕ → ℕ → (ℕ → ℕ) → String → HistoricalQuery K → List (ChunkPlan K) → Type 0
  EndsWell fuel unit today day trace query chunks =
      let fallbacks = fallbacks_of dec r headroom policy caps_of get_bars trace in
      IsGoodEnd get_bars unit (chunks ++ all_retried get_bars dec fallbacks chunks)
        (all_bars_of get_bars dec fallbacks chunks) query
        (fetch dec r headroom policy caps_of get_bars fuel unit day today trace query)

  fetch-planned :
      (fuel unit today : ℕ) (day : ℕ → ℕ) (trace : String) (query : HistoricalQuery K)
      (chunks : List (ChunkPlan K))
      → plan_chunks dec r headroom policy caps_of fuel today trace query ≡ ok (some chunks)
      → EndsWell fuel unit today day trace query chunks
  unfolding fetch
  fetch-planned fuel unit today day trace query [] e =
      rw (fetch, e)
        (
          refl,
          (tt, tt, λ t. refl),
          refl,
          (λ f g. ground arith),
          λ f. merge-none dec unit day get_bars query,
        )
  fetch-planned fuel unit today day trace query (c ∷ cs) e =
      let fallbacks = fallbacks_of dec r headroom policy caps_of get_bars trace in
      let asked = (c ∷ cs) ++ all_retried get_bars dec fallbacks (c ∷ cs) in
      let tried = fetch_all get_bars (c ∷ cs) new_ledger in
      let collected = collect get_bars dec fallbacks tried.1 tried.0 in
      let (noted, found, ranges) = collect-noted get_bars dec fallbacks (c ∷ cs) in
      let ended = merge_all dec unit day query collected.0 collected.1 in
      rw (fetch, e)
        (subst (λ l. IsGoodEnd get_bars unit asked l query ended) found
          (merge_all-IsGoodEnd dec unit day get_bars asked query collected.0 collected.1 noted
            ranges))

  -- On a consistent registry, with rounds enough for the days, and if no broker has chunks of 0 days, `fetch` asks each
  -- planned chunk of its broker, and those that fail of the fallbacks, one after the other until one answers, and the
  -- ledger has the outcome of each. It ends with a series whose bars ascend strictly in time and are numbered from 0, and
  -- for each time show the bar that all answered bars of this time lead to, with the request and the broker of each as
  -- the ledger says; the ledger is degraded if a chunk has failed. If the strategy is to fail on conflicts, it ends with
  -- the error if there are some.
  pub fetch-IsGoodEnd :
      (fuel unit today : ℕ) (day : ℕ → ℕ) (trace : String) (query : HistoricalQuery K)
      → IsConsistent dec r
      → ((k : K) → 1 ≤ max_chunk_of caps_of k)
      → 1 ≤ query.from_date
      → query.from_date + today + query.to_date + 1 < fuel
      → (chunks : List (ChunkPlan K)) × (plan_chunks dec r headroom policy caps_of fuel today trace
            query
          ≡ ok (some chunks))
        × EndsWell fuel unit today day trace query chunks
  fetch-IsGoodEnd fuel unit today day trace query con m p h =
      let (chunks, e) =
        plan_chunks-ends dec r headroom policy caps_of fuel today trace query con m p h in
      (chunks, e, fetch-planned fuel unit today day trace query chunks e)
