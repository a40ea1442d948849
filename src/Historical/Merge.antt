-- ===== src/Historical/Merge.antt =====
-- The merge of the bars in brokers/common/historical_coordinator.py, the ranges of bars by source, and the gaps.
-- Prices are not negative; a tolerance is in millionths, and the quotient of two prices is compared exactly.
use inc_trade.Prelude.{
  ℕ, suc, ◌+◌, ◌-◌, ◌*◌, Bool, true, false, none, some, List, [], ◌∷◌, ◌++◌, map, leb, ltb,
  if◌then◌else◌, ℕ_discrete,
}
use inc_trade.Prelude.Dict.{Dict, lookup, insert}
use inc_trade.Historical.Models.{
  MergeStrategy, prefer_primary, prefer_newest_provenance, fail_on_conflict, HistoricalQuery,
  HistoricalBar, ConflictRecord, BarRangeRecord, Gap, all_failed, missing_from_start,
  missing_from_end,
}

-- A stable sort by a key.
module _ {A : Type 0} (key : A → ℕ) where
  unfoldable pub insert_by : A → List A → List A
  insert_by x [] = x ∷ []
  insert_by x (y ∷ ys) = if leb (key x) (key y) then x ∷ y ∷ ys else y ∷ insert_by x ys

  unfoldable pub sort_by : List A → List A
  sort_by [] = []
  sort_by (x ∷ xs) = insert_by x (sort_by xs)

abbrev pub abs_diff : ℕ → ℕ → ℕ
abs_diff a b = if leb a b then b - a else a - b

-- `delta_pct <= tolerance`, where `unit` is the price 1.
unfoldable pub within_tolerance : ℕ → ℕ → ℕ → ℕ → Bool
within_tolerance unit tolerance existing close =
    let base = if leb existing 0 then unit else existing in
    leb (abs_diff close existing * 1_000_000) (tolerance * base)

-- The time of a bar, by which the bars are merged.
abbrev pub time_of : {K : Type 0} → HistoricalBar K → ℕ
time_of b = b.event_time

-- The bars so far by their time, and the conflicts so far.
abbrev pub Merged : Type 0 → Type 0
Merged K = Dict ℕ (HistoricalBar K) × List (ConflictRecord K)

module _ {K : Type 0} (unit : ℕ) (strategy : MergeStrategy) (tolerance : ℕ) where
  -- Which of two bars of one time is kept, if they are in conflict.
  abbrev pub resolve : HistoricalBar K → HistoricalBar K → HistoricalBar K
  resolve existing bar = elim strategy [
    | prefer_primary ↦ existing
    | prefer_newest_provenance ↦ if ltb existing.fetched_at bar.fetched_at then bar else existing
    | fail_on_conflict ↦ existing
  ]

  abbrev pub conflict_of : HistoricalBar K → HistoricalBar K → ConflictRecord K
  conflict_of existing bar = record {
    bar_event_time = bar.event_time;
    primary_broker = existing.broker_id;
    secondary_broker = bar.broker_id;
    primary_close = existing.close;
    secondary_close = bar.close;
    resolution = strategy;
  }

  -- A round of the loop.
  unfoldable pub merge_bar : HistoricalBar K → Merged K → Merged K
  unfolding within_tolerance
  merge_bar bar (merged, conflicts) = elim (lookup ℕ_discrete bar.event_time merged) [
    | none ↦ (insert ℕ_discrete bar.event_time bar merged, conflicts)
    | some existing ↦
        if within_tolerance unit tolerance existing.close bar.close then (merged, conflicts) else (
          insert ℕ_discrete bar.event_time (resolve existing bar) merged,
          conflicts ++ conflict_of existing bar ∷ [],
        )
  ]

  unfoldable pub merge_bars : List (HistoricalBar K) → Merged K → Merged K
  unfolding merge_bar
  merge_bars [] m = m
  merge_bars (bar ∷ bars) m = merge_bars bars (merge_bar bar m)

  -- `_merge`
  unfoldable pub merge : List (HistoricalBar K) → List (HistoricalBar K) × List (ConflictRecord K)
  unfolding merge_bars sort_by
  merge bars =
      let m = merge_bars bars ([], []) in
      (sort_by time_of (map (λ (e : ℕ × HistoricalBar K). e.1) m.0), m.1)

-- `replace(bar, bar_index=idx)` over `enumerate`, from an index on.
unfoldable pub reindex : {K : Type 0} → ℕ → List (HistoricalBar K) → List (HistoricalBar K)
reindex idx [] = []
reindex idx (bar ∷ bars) = record bar { bar_index = idx } ∷ reindex (suc idx) bars

module _ {K : Type 0} (dec : Discrete K) where
  -- The source of a bar is another than the broker and the chunk.
  abbrev pub differs : HistoricalBar K → K → K → Bool
  differs bar broker chunk_id = elim (dec bar.broker_id broker) [
    | no _ ↦ true
    | yes _ ↦ elim (dec bar.request_id chunk_id) [ no _ ↦ true | yes _ ↦ false ]
  ]

  abbrev pub range : ℕ → ℕ → K → K → BarRangeRecord K
  range start end_ chunk_id broker = record {
    start_bar_index = start;
    end_bar_index = end_;
    chunk_id = chunk_id;
    broker_id = broker;
  }

  -- The loop from the bar at `idx` on, and the record at its end.
  unfoldable pub ranges_from : ℕ → ℕ → K → K → List (HistoricalBar K) → List (BarRangeRecord K)
  ranges_from range_start idx chunk_id broker [] = range range_start (idx - 1) chunk_id broker ∷ []
  ranges_from range_start idx chunk_id broker (bar ∷ bars) = elim (differs bar broker chunk_id) [
    | true ↦
        range range_start (idx - 1) chunk_id broker
        ∷ ranges_from idx (suc idx) bar.request_id bar.broker_id bars
    | false ↦ ranges_from range_start (suc idx) chunk_id broker bars
  ]

  -- `_populate_bar_ranges`
  unfoldable pub populate_bar_ranges : List (HistoricalBar K) → List (BarRangeRecord K)
  unfolding ranges_from
  populate_bar_ranges [] = []
  populate_bar_ranges (bar ∷ bars) = ranges_from 0 1 bar.request_id bar.broker_id bars

module _ {K : Type 0} where
  -- `bars[-1]`, of a list that starts with this bar.
  unfoldable pub last_bar : HistoricalBar K → List (HistoricalBar K) → HistoricalBar K
  last_bar bar [] = bar
  last_bar bar (b ∷ bs) = last_bar b bs

  -- `_detect_gaps`, where `day` takes the date of a time.
  unfoldable pub detect_gaps : (ℕ → ℕ) → HistoricalQuery K → List (HistoricalBar K) → List Gap
  unfolding last_bar
  detect_gaps day query [] =
      record { start = query.from_date; end_ = query.to_date; reason = all_failed } ∷ []
  detect_gaps day query (bar ∷ bars) =
      let first = day bar.event_time in
      let last = day (last_bar bar bars).event_time in
      (if ltb query.from_date first
        then record { start = query.from_date; end_ = first - 1; reason = missing_from_start } ∷ []
        else [])
      ++ (if ltb last query.to_date
          then record { start = last + 1; end_ = query.to_date; reason = missing_from_end } ∷ []
          else [])
