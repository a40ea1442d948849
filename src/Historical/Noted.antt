-- ===== src/Historical/Noted.antt =====
-- What the ledger of `HistoricalDataCoordinator.fetch` of brokers/common/historical_coordinator.py holds after the third
-- step.
use inc_trade.Prelude.{
  ◌≡◌, ◌∙◌, ap, refl, true, Option, none, some, List, [], ◌∷◌, ◌++◌, map, arith,
}
use inc_trade.Prelude.Result.{Result}
use inc_trade.Historical.Models.{ChunkPlan, HistoricalBar}
use inc_trade.Historical.Fetch.{
  ProvenanceLedger, new_ledger, fetch_chunk, fetch_all, try_brokers, collect,
}
use inc_trade.Historical.Answers.{
  outcome, all_bars_of, all_retried, fetch_all-answered, collect-all_bars_of, noted_after,
}

module _ {K E : Type 0} (get_bars : ChunkPlan K → Result E (List (HistoricalBar K))) where
  fetch_chunk-ranges :
      (plan : ChunkPlan K) (ledger : ProvenanceLedger K E)
      → (fetch_chunk get_bars plan ledger).0.bar_ranges ≡ ledger.bar_ranges
  unfolding fetch_chunk
  fetch_chunk-ranges plan ledger = ground arith

  fetch_all-ranges :
      (plans : List (ChunkPlan K)) (ledger : ProvenanceLedger K E)
      → (fetch_all get_bars plans ledger).0.bar_ranges ≡ ledger.bar_ranges
  unfolding fetch_all
  fetch_all-ranges [] ledger = refl
  fetch_all-ranges (p ∷ ps) ledger =
      fetch_all-ranges ps (fetch_chunk get_bars p ledger).0 ∙ fetch_chunk-ranges p ledger

  try_brokers-ranges :
      (dec : Discrete K) (failed : ChunkPlan K) (bs : List K) (ledger : ProvenanceLedger K E)
      → (try_brokers get_bars dec failed bs ledger).0.bar_ranges ≡ ledger.bar_ranges
  unfolding try_brokers
  try_brokers-ranges dec failed [] ledger = refl
  try_brokers-ranges dec failed (b ∷ bs) ledger =
      let plan : ChunkPlan K = record failed { broker_id = b; is_fallback = true } in
      ground (
        arith,
        fetch_chunk-ranges plan ledger,
        try_brokers-ranges dec failed bs ledger,
        try_brokers-ranges dec failed bs (fetch_chunk get_bars plan ledger).0,
      )

  collect-ranges :
      (dec : Discrete K) (fallbacks : List K)
      (results : List (ChunkPlan K × Option (List (HistoricalBar K))))
      (ledger : ProvenanceLedger K E)
      → (collect get_bars dec fallbacks results ledger).0.bar_ranges ≡ ledger.bar_ranges
  unfolding collect
  collect-ranges dec fallbacks [] ledger = refl
  collect-ranges dec fallbacks ((plan, some bars) ∷ results) ledger =
      collect-ranges dec fallbacks results ledger
  collect-ranges dec fallbacks ((plan, none) ∷ results) ledger =
      collect-ranges dec fallbacks results (try_brokers get_bars dec plan fallbacks ledger).0
      ∙ try_brokers-ranges dec plan fallbacks ledger

  -- What the ledger and the bars have come to, before they are merged.
  pub collect-noted :
      (dec : Discrete K) (fallbacks : List K) (chunks : List (ChunkPlan K))
      → let (tried, results) = fetch_all get_bars chunks new_ledger in
        let (collected, found) = collect get_bars dec fallbacks results tried in
        (collected.chunks
          ≡ map (outcome get_bars) (chunks ++ all_retried get_bars dec fallbacks chunks))
        × (found ≡ all_bars_of get_bars dec fallbacks chunks)
        × (collected.bar_ranges ≡ [])
  collect-noted dec fallbacks chunks =
      let tried = (fetch_all get_bars chunks new_ledger).0 in
      let results = (fetch_all get_bars chunks new_ledger).1 in
      let (noted, told) = fetch_all-answered get_bars chunks new_ledger in
      let (more, found) = collect-all_bars_of get_bars dec fallbacks chunks tried in
      let retried = all_retried get_bars dec fallbacks chunks in
      (
        ap (λ l. (collect get_bars dec fallbacks l tried).0.chunks) told
            ∙ noted_after get_bars [] tried.chunks _ chunks retried noted more,
        ap (λ l. (collect get_bars dec fallbacks l tried).1) told ∙ found,
        collect-ranges dec fallbacks results tried ∙ fetch_all-ranges chunks new_ledger,
      )
