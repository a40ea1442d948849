-- ===== src/Historical/Sources.antt =====
-- What `_populate_bar_ranges` and `_detect_gaps` of brokers/common/historical_coordinator.py come to.
use inc_trade.Prelude.{
  ℕ, zero, suc, ◌+◌, ◌-◌, ◌≤◌, ◌≡◌, ◌∙◌, sym, ap, subst, refl, false, ◌||◌, List, [], ◌∷◌, ◌++◌,
  map, ltb, arith, Bool-cases, inl, inr,
}
use inc_trade.Historical.Models.{HistoricalQuery, HistoricalBar, BarRangeRecord, Gap}
use inc_trade.Historical.Merge.{differs, ranges_from, populate_bar_ranges, last_bar, detect_gaps}
use inc_trade.Historical.Once.{one_if, within}

abbrev pub replicate : {A : Type 0} → ℕ → A → List A
replicate zero a = []
replicate (suc n) a = a ∷ replicate n a

-- `replicate` grows at its end too.
replicate-suc :
    {A : Type 0} (n : ℕ) (a : A) (xs : List A) → replicate (suc n) a ++ xs ≡ replicate n a ++ a ∷ xs
replicate-suc zero a xs = refl
replicate-suc (suc n) a xs = ap (λ l. a ∷ l) (replicate-suc n a xs)

module _ {K : Type 0} where
  -- The request and the broker of a bar. The code takes the id of the request for a chunk id.
  abbrev pub source : HistoricalBar K → K × K
  source b = (b.request_id, b.broker_id)

  -- What the records say of the bars, in turn.
  abbrev pub expand : List (BarRangeRecord K) → List (K × K)
  expand [] = []
  expand (x ∷ xs) =
      replicate (x.end_bar_index + 1 - x.start_bar_index) (x.chunk_id, x.broker_id) ++ expand xs

  -- The records follow on each other from an index on.
  abbrev pub Follow : ℕ → List (BarRangeRecord K) → Type 0
  Follow n [] = Unit
  Follow n (x ∷ xs) =
      (x.start_bar_index ≡ n) × (n ≤ x.end_bar_index) × Follow (x.end_bar_index + 1) xs

module _ {K : Type 0} (dec : Discrete K) where
  differs-false :
      (b : HistoricalBar K) (broker chunk : K)
      → differs dec b broker chunk ≡ false
      → source b ≡ (chunk, broker)
  differs-false b broker chunk h = ground arith

  ranges_from-expand :
      (start n idx : ℕ) (chunk broker : K) (bars : List (HistoricalBar K))
      → idx ≡ start + suc n
      → expand (ranges_from dec start idx chunk broker bars)
        ≡ replicate (suc n) (chunk, broker) ++ map source bars
  unfolding ranges_from
  ranges_from-expand start n idx chunk broker [] e =
      let count : idx - 1 + 1 - start ≡ suc n = omega arith in
      ap (λ k. replicate k (chunk, broker) ++ []) count
  ranges_from-expand start n idx chunk broker (b ∷ bs) e =
      elim (Bool-cases (differs dec b broker chunk)) [
        | inl new ↦
            let count : idx - 1 + 1 - start ≡ suc n = omega arith in
            let later =
              ranges_from-expand idx 0 (suc idx) b.request_id b.broker_id bs (omega arith) in
            rw (ranges_from, new)
              (ap
                  (λ k.
                    replicate k (chunk, broker)
                    ++ expand (ranges_from dec idx (suc idx) b.request_id b.broker_id bs))
                  count
                ∙ ap (λ xs. replicate (suc n) (chunk, broker) ++ xs) later)
        | inr old ↦
            rw (ranges_from, old)
              (ranges_from-expand start (suc n) (suc idx) chunk broker bs (omega arith)
                ∙ replicate-suc (suc n) (chunk, broker) (map source bs)
                ∙ ap (λ x. replicate (suc n) (chunk, broker) ++ x ∷ map source bs)
                    (sym (differs-false b broker chunk old)))
      ]

  ranges_from-Follow :
      (start n idx : ℕ) (chunk broker : K) (bars : List (HistoricalBar K))
      → idx ≡ start + suc n
      → Follow start (ranges_from dec start idx chunk broker bars)
  unfolding ranges_from
  ranges_from-Follow start n idx chunk broker [] e = (refl, omega arith, tt)
  ranges_from-Follow start n idx chunk broker (b ∷ bs) e =
      elim (Bool-cases (differs dec b broker chunk)) [
        | inl new ↦
            let at_idx : idx ≡ idx - 1 + 1 = omega arith in
            rw (ranges_from, new)
              (
                refl,
                omega arith,
                subst (λ k. Follow k (ranges_from dec idx (suc idx) b.request_id b.broker_id bs))
                    at_idx
                    (ranges_from-Follow idx 0 (suc idx) b.request_id b.broker_id bs (omega arith)),
              )
        | inr old ↦
            rw (ranges_from, old)
              (ranges_from-Follow start (suc n) (suc idx) chunk broker bs (omega arith))
      ]

  -- The ranges of bars follow on each other from index 0, and say of each bar, in turn, the request and
  -- the broker that its own provenance names.
  pub populate_bar_ranges-expand :
      (bars : List (HistoricalBar K))
      → let ranges = populate_bar_ranges dec bars in
        (expand ranges ≡ map source bars) × Follow 0 ranges
  unfolding populate_bar_ranges
  populate_bar_ranges-expand [] = (refl, tt)
  populate_bar_ranges-expand (b ∷ bs) = (
    ranges_from-expand 0 0 1 b.request_id b.broker_id bs (omega arith),
    ranges_from-Follow 0 0 1 b.request_id b.broker_id bs (omega arith),
  )

-- How many of the gaps hold the day.
abbrev pub gaps_of : ℕ → List Gap → ℕ
gaps_of day [] = 0
gaps_of day (g ∷ gs) = one_if (within g.start g.end_ day) + gaps_of day gs

module _ {K : Type 0} where
  -- If there are bars, and the first is of no later day than the last, a day of the query is in one gap if it lies before
  -- the first bar or after the last, and in none otherwise.
  pub detect_gaps-about :
      (day : ℕ → ℕ) (query : HistoricalQuery K) (bar : HistoricalBar K)
      (bars : List (HistoricalBar K)) (d : ℕ)
      → let first = day bar.event_time in
        let last = day (last_bar bar bars).event_time in
        first ≤ last
        → 1 ≤ first
        → query.from_date ≤ d
        → d ≤ query.to_date
        → gaps_of d (detect_gaps day query (bar ∷ bars)) ≡ one_if (ltb d first || ltb last d)
  unfolding detect_gaps
  detect_gaps-about day query bar bars d h one from to = ground arith
