-- ===== src/Historical/Numbered.antt =====
-- The numbers that `fetch` of brokers/common/historical_coordinator.py gives the bars, and its sort of all bars by time:
-- neither changes which bar is that of a time.
use inc_trade.Prelude.{
  ℕ, suc, ◌<◌, ◌≡◌, ◌∙◌, refl, Option, none, some, List, [], ◌∷◌, leb, ◌==◌, if◌then◌else◌, arith,
  All, Bool-cases, inl, inr,
}
use inc_trade.Historical.Models.{MergeStrategy, HistoricalBar}
use inc_trade.Historical.Merge.{time_of, insert_by, sort_by, reindex}
use inc_trade.Historical.Merged.{Ascends, first_at, kept, winner}

module _ {K : Type 0} where
  -- The indices of the bars count from here on.
  abbrev pub Counts : ℕ → List (HistoricalBar K) → Type 0
  Counts n [] = Unit
  Counts n (b ∷ bs) = (b.bar_index ≡ n) × Counts (suc n) bs

  pub reindex-Counts : (n : ℕ) (bs : List (HistoricalBar K)) → Counts n (reindex n bs)
  unfolding reindex
  reindex-Counts n [] = tt
  reindex-Counts n (b ∷ bs) = (refl, reindex-Counts (suc n) bs)

  reindex-All :
      (n t : ℕ) (bs : List (HistoricalBar K))
      → All (λ (c : HistoricalBar K). t < c.event_time) bs
      → All (λ (c : HistoricalBar K). t < c.event_time) (reindex n bs)
  unfolding reindex
  reindex-All n t [] h = tt
  reindex-All n t (b ∷ bs) h = (h.0, reindex-All (suc n) t bs h.1)

  pub reindex-Ascends : (n : ℕ) (bs : List (HistoricalBar K)) → Ascends bs → Ascends (reindex n bs)
  unfolding reindex
  reindex-Ascends n [] h = tt
  reindex-Ascends n (b ∷ bs) h =
      (reindex-All (suc n) b.event_time bs h.0, reindex-Ascends (suc n) bs h.1)

  -- A bar but for its number.
  abbrev pub unnumbered : Option (HistoricalBar K) → Option (HistoricalBar K)
  unnumbered none = none
  unnumbered (some b) = some (record b { bar_index = 0 })

  pub first_at-reindex :
      (n t : ℕ) (bs : List (HistoricalBar K))
      → unnumbered (first_at t (reindex n bs)) ≡ unnumbered (first_at t bs)
  unfolding reindex
  first_at-reindex n t [] = refl
  first_at-reindex n t (b ∷ bs) = ground (arith, first_at-reindex (suc n) t bs)

module _ {K : Type 0} (unit : ℕ) (strategy : MergeStrategy) (tolerance : ℕ) (t : ℕ) where
  winner-insert_by :
      (b : HistoricalBar K) (found : Option (HistoricalBar K)) (bs : List (HistoricalBar K))
      → winner unit strategy tolerance t found (insert_by time_of b bs)
        ≡ winner unit strategy tolerance t found (b ∷ bs)
  unfolding insert_by
  winner-insert_by b found [] = refl
  winner-insert_by b found (c ∷ cs) = elim (Bool-cases (leb b.event_time c.event_time)) [
    | inl e ↦ rw e refl
    | inr e ↦ ground (
      arith,
      e,
      winner-insert_by b
          (if c.event_time == t then some (kept unit strategy tolerance found c) else found) cs,
    )
  ]

  pub winner-sort_by :
      (found : Option (HistoricalBar K)) (bs : List (HistoricalBar K))
      → winner unit strategy tolerance t found (sort_by time_of bs)
        ≡ winner unit strategy tolerance t found bs
  unfolding sort_by
  winner-sort_by found [] = refl
  winner-sort_by found (b ∷ bs) =
      winner-insert_by b found (sort_by time_of bs)
      ∙ winner-sort_by
          (if b.event_time == t then some (kept unit strategy tolerance found b) else found) bs
