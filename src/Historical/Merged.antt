-- ===== src/Historical/Merged.antt =====
-- What `_merge` of brokers/common/historical_coordinator.py come to.
use inc_trade.Prelude.{
  ℕ, ◌<◌, ◌≡◌, ◌≢◌, ◌∙◌, ap, refl, false, Option, none, some, List, [], ◌∷◌, map, leb, ◌==◌,
  if◌then◌else◌, arith, All, IsDistinct, mem, ℕ_discrete, Option-cases, Bool-cases, inl, inr,
}
use inc_trade.Prelude.Dict.{
  Dict, keys, lookup, lookup-insert, insert-IsDistinct, All-lookup, All-insert, All-lookup,
}
use inc_trade.Historical.Models.{
  MergeStrategy, prefer_primary, prefer_newest_provenance, fail_on_conflict, HistoricalBar,
}
use inc_trade.Historical.Merge.{
  Merged, time_of, insert_by, sort_by, within_tolerance, resolve, merge_bar, merge_bars, merge,
}

module _ {K : Type 0} where
  -- The first bar of a time.
  abbrev pub first_at : ℕ → List (HistoricalBar K) → Option (HistoricalBar K)
  first_at t [] = none
  first_at t (b ∷ bs) = if b.event_time == t then some b else first_at t bs

  -- The bars stand by time, and no two have the same.
  abbrev pub Ascends : List (HistoricalBar K) → Type 0
  Ascends [] = Unit
  Ascends (b ∷ bs) = All (λ (c : HistoricalBar K). b.event_time < c.event_time) bs × Ascends bs

  All-insert_by :
      (P : HistoricalBar K → Type 0) (b : HistoricalBar K) (bs : List (HistoricalBar K))
      → P b
      → All P bs
      → All P (insert_by time_of b bs)
  unfolding insert_by
  All-insert_by P b [] p h = (p, tt)
  All-insert_by P b (c ∷ cs) p h = elim (Bool-cases (leb b.event_time c.event_time)) [
    | inl e ↦ rw e (p, h)
    | inr e ↦ rw e (h.0, All-insert_by P b cs p h.1)
  ]

  All-later :
      (b c : HistoricalBar K) (cs : List (HistoricalBar K))
      → b.event_time < c.event_time
      → All (λ (d : HistoricalBar K). c.event_time < d.event_time) cs
      → All (λ (d : HistoricalBar K). b.event_time < d.event_time) cs
  All-later b c [] h k = tt
  All-later b c (d ∷ ds) h k = (omega (arith, k.0), All-later b c ds h k.1)

  insert_by-Ascends :
      (b : HistoricalBar K) (bs : List (HistoricalBar K))
      → All (λ (c : HistoricalBar K). b.event_time ≢ c.event_time) bs
      → Ascends bs
      → Ascends (insert_by time_of b bs)
  unfolding insert_by
  insert_by-Ascends b [] n h = (tt, tt)
  insert_by-Ascends b (c ∷ cs) n h = elim (Bool-cases (leb b.event_time c.event_time)) [
    | inl e ↦
        let before : b.event_time < c.event_time = ground (arith, n.0) in
        rw e ((before, All-later b c cs before h.0), h)
    | inr e ↦ rw e (All-insert_by _ b cs (ground arith) h.0, insert_by-Ascends b cs n.1 h.1)
  ]

  All-sort_by :
      (P : HistoricalBar K → Type 0) (bs : List (HistoricalBar K))
      → All P bs
      → All P (sort_by time_of bs)
  unfolding sort_by
  All-sort_by P [] h = tt
  All-sort_by P (b ∷ bs) h = All-insert_by P b (sort_by time_of bs) h.0 (All-sort_by P bs h.1)

  first_at-insert_by :
      (t : ℕ) (b : HistoricalBar K) (bs : List (HistoricalBar K))
      → first_at t (insert_by time_of b bs) ≡ first_at t (b ∷ bs)
  unfolding insert_by
  first_at-insert_by t b [] = refl
  first_at-insert_by t b (c ∷ cs) = ground (arith, first_at-insert_by t b cs)

  first_at-sort_by :
      (t : ℕ) (bs : List (HistoricalBar K)) → first_at t (sort_by time_of bs) ≡ first_at t bs
  unfolding sort_by
  first_at-sort_by t [] = refl
  first_at-sort_by t (b ∷ bs) =
      ground (arith, first_at-insert_by t b (sort_by time_of bs), first_at-sort_by t bs)

  -- A bar stands under its time.
  abbrev Timed : ℕ × HistoricalBar K → Type 0
  Timed e = e.1.event_time ≡ e.0

  abbrev values : Dict ℕ (HistoricalBar K) → List (HistoricalBar K)
  values d = map (λ (e : ℕ × HistoricalBar K). e.1) d

  first_at-values :
      (t : ℕ) (d : Dict ℕ (HistoricalBar K))
      → All Timed d
      → first_at t (values d) ≡ lookup ℕ_discrete t d
  first_at-values t [] h = refl
  first_at-values t (e ∷ d) h = ground (arith, h.0, first_at-values t d h.1)

  values-new :
      (b : HistoricalBar K) (t : ℕ) (d : Dict ℕ (HistoricalBar K))
      → b.event_time ≡ t
      → All Timed d
      → mem ℕ_discrete t (keys d) ≡ false
      → All (λ (c : HistoricalBar K). b.event_time ≢ c.event_time) (values d)
  values-new b t [] e h m = tt
  values-new b t (x ∷ d) e h m =
      ((λ same. ground (arith, h.0)), values-new b t d e h.1 (ground arith))

  values-Ascends :
      (d : Dict ℕ (HistoricalBar K))
      → All Timed d
      → IsDistinct ℕ_discrete (keys d)
      → Ascends (sort_by time_of (values d))
  unfolding sort_by
  values-Ascends [] h u = tt
  values-Ascends (e ∷ d) h u =
      insert_by-Ascends e.1 (sort_by time_of (values d))
        (All-sort_by _ (values d) (values-new e.1 e.0 d h.0 h.1 u.0)) (values-Ascends d h.1 u.1)

module _ {K : Type 0} (unit : ℕ) (strategy : MergeStrategy) (tolerance : ℕ) where
  -- Which of two bars out of tolerance stands: the earlier, but for the newest by provenance, where it is the later if
  -- and only if it was fetched after the earlier.
  abbrev pub chosen : MergeStrategy → HistoricalBar K → HistoricalBar K → HistoricalBar K
  chosen prefer_primary earlier later = earlier
  chosen fail_on_conflict earlier later = earlier
  chosen prefer_newest_provenance earlier later =
      if leb later.fetched_at earlier.fetched_at then earlier else later

  -- What a later bar makes of the one that is kept for its time.
  abbrev pub kept : Option (HistoricalBar K) → HistoricalBar K → HistoricalBar K
  kept none bar = bar
  kept (some existing) bar =
      if within_tolerance unit tolerance existing.close bar.close
      then existing
      else chosen strategy existing bar

  -- The bars of one time alone, one after the other.
  abbrev pub winner :
      ℕ → Option (HistoricalBar K) → List (HistoricalBar K) → Option (HistoricalBar K)
  winner t found [] = found
  winner t found (b ∷ bs) = winner t (if b.event_time == t then some (kept found b) else found) bs

  resolve-chosen :
      (x b : HistoricalBar K) → resolve unit strategy tolerance x b ≡ chosen strategy x b
  resolve-chosen x b = ground arith

  merge_bar-lookup :
      (t : ℕ) (b : HistoricalBar K) (m : Merged K)
      → lookup ℕ_discrete t (merge_bar unit strategy tolerance b m).0 ≡ (
          if b.event_time == t
          then some (kept (lookup ℕ_discrete t m.0) b)
          else lookup ℕ_discrete t m.0)
  unfolding merge_bar
  merge_bar-lookup t b m = elim (Option-cases (lookup ℕ_discrete b.event_time m.0)) [
    | inl e ↦ rw (merge_bar, e) (ground (arith, e, lookup-insert ℕ_discrete t b.event_time b m.0))
    | inr (x, e) ↦ elim (Bool-cases (within_tolerance unit tolerance x.close b.close)) [
      | inl f ↦ rw (merge_bar, e, f) (ground (arith, e, f))
      | inr f ↦
          rw (merge_bar, e, f)
            (ground (
              arith,
              e,
              f,
              lookup-insert ℕ_discrete t b.event_time (resolve unit strategy tolerance x b) m.0,
            ))
    ]
  ]

  resolve-time :
      (x b : HistoricalBar K)
      → x.event_time ≡ b.event_time
      → (resolve unit strategy tolerance x b).event_time ≡ b.event_time
  resolve-time x b e = ground arith

  -- Each bar stands under its time, and no time twice.
  abbrev IsKept : Merged K → Type 0
  IsKept m = All Timed m.0 × IsDistinct ℕ_discrete (keys m.0)

  merge_bar-IsKept :
      (b : HistoricalBar K) (m : Merged K)
      → IsKept m
      → IsKept (merge_bar unit strategy tolerance b m)
  unfolding merge_bar
  merge_bar-IsKept b m h = elim (Option-cases (lookup ℕ_discrete b.event_time m.0)) [
    | inl e ↦
        rw (merge_bar, e)
          (
            All-insert ℕ_discrete Timed b.event_time b m.0 h.0 refl,
            insert-IsDistinct ℕ_discrete b.event_time b m.0 h.1,
          )
    | inr (x, e) ↦
        let same : x.event_time ≡ b.event_time =
          All-lookup ℕ_discrete Timed b.event_time x m.0 h.0 e in
        let y = resolve unit strategy tolerance x b in
        elim (Bool-cases (within_tolerance unit tolerance x.close b.close)) [
          | inl f ↦ rw (merge_bar, e, f) h
          | inr f ↦
              rw (merge_bar, e, f)
                (
                  All-insert ℕ_discrete Timed b.event_time y m.0 h.0 (resolve-time x b same),
                  insert-IsDistinct ℕ_discrete b.event_time y m.0 h.1,
                )
        ]
  ]

  merge_bars-IsKept :
      (bs : List (HistoricalBar K)) (m : Merged K)
      → IsKept m
      → IsKept (merge_bars unit strategy tolerance bs m)
  unfolding merge_bars
  merge_bars-IsKept [] m h = h
  merge_bars-IsKept (b ∷ bs) m h =
      merge_bars-IsKept bs (merge_bar unit strategy tolerance b m) (merge_bar-IsKept b m h)

  merge_bars-lookup :
      (t : ℕ) (bs : List (HistoricalBar K)) (m : Merged K)
      → lookup ℕ_discrete t (merge_bars unit strategy tolerance bs m).0
        ≡ winner t (lookup ℕ_discrete t m.0) bs
  unfolding merge_bars
  merge_bars-lookup t [] m = refl
  merge_bars-lookup t (b ∷ bs) m =
      merge_bars-lookup t bs (merge_bar unit strategy tolerance b m)
      ∙ ap (λ x. winner t x bs) (merge_bar-lookup t b m)

  -- The merged bars ascend strictly in time, and for each time the bar is that which the bars of this time alone lead to:
  -- the first of them, unless the strategy is the newest by provenance and a later one that is out of tolerance and was
  -- fetched later than the one so far takes its place.
  pub merge-winner :
      (bars : List (HistoricalBar K))
      → let merged = (merge unit strategy tolerance bars).0 in
        Ascends merged × ((t : ℕ) → first_at t merged ≡ winner t none bars)
  unfolding merge
  merge-winner bars =
      let m = merge_bars unit strategy tolerance bars ([], []) in
      let (timed, distinct) = merge_bars-IsKept bars ([], []) (tt, tt) in
      (
        values-Ascends m.0 timed distinct,
        λ t.
            first_at-sort_by t (values m.0)
            ∙ first_at-values t m.0 timed
            ∙ merge_bars-lookup t bars ([], []),
      )
