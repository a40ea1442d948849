-- ===== src/Historical/Once.antt =====
-- The plan of brokers/common/historical_coordinator.py asks for a day once.
use Prim.Native.String.{String}
use inc_trade.Prelude.{
  ℕ, zero, suc, ◌+◌, ◌-◌, ◌≤◌, ◌<◌, min, max, ◌≡◌, ◌∙◌, ap, refl, Bool, false, ◌&&◌, ◌||◌, Option,
  some, List, [], ◌∷◌, ◌++◌, leb, if◌then◌else◌, arith, All, Bool-cases, inl, inr,
}
use inc_trade.Prelude.Dict.{Dict}
use inc_trade.Prelude.Result.{ok}
use inc_trade.Routing.Models.{RouteDecision}
use inc_trade.Routing.Policy.{Mode, SourceSelectionPolicy}
use inc_trade.Routing.Registry.{BrokerRegistry}
use inc_trade.Routing.Registry.Consistent.{IsConsistent}
use inc_trade.Routing.Router.Eligible.{route-ends}
use inc_trade.Routing.Router.{EndpointClass, route}
use inc_trade.Historical.Models.{HistoricalQuery, ChunkPlan, HistoricalCaps}
use inc_trade.Historical.Plan.{
  Range, shortest, longest, if_days, split_range, partition_windows, broker_windows,
  partition_ranges, split_chunks, max_chunk_of, plan_ranges, bars_request, eligible_brokers,
  plan_chunks,
}

abbrev pub one_if : Bool → ℕ
one_if b = if b then 1 else 0

abbrev pub within : ℕ → ℕ → ℕ → Bool
within from to day = leb from day && leb day to

-- How many of the ranges hold the day.
abbrev pub ranges_of : {K : Type 0} → ℕ → Dict K Range → ℕ
ranges_of day [] = 0
ranges_of day ((broker, (from, to)) ∷ ranges) = one_if (within from to day) + ranges_of day ranges

-- How many of the chunks hold the day.
abbrev pub chunks_of : {K : Type 0} → ℕ → List (ChunkPlan K) → ℕ
chunks_of day [] = 0
chunks_of day (c ∷ cs) = one_if (within c.from_date c.to_date day) + chunks_of day cs

-- Some window reaches back to the day.
abbrev pub reached : {K : Type 0} → ℕ → ℕ → Dict K ℕ → Bool
reached today day [] = false
reached today day (w ∷ ws) = leb (today - w.1) day || reached today day ws

module _ {K : Type 0} where
  ranges_of-append :
      (day : ℕ) (xs ys : Dict K Range)
      → ranges_of day (xs ++ ys) ≡ ranges_of day xs + ranges_of day ys
  ranges_of-append day [] ys = omega arith
  ranges_of-append day (x ∷ xs) ys = ground (arith, ranges_of-append day xs ys)

  chunks_of-append :
      (day : ℕ) (xs ys : List (ChunkPlan K))
      → chunks_of day (xs ++ ys) ≡ chunks_of day xs + chunks_of day ys
  chunks_of-append day [] ys = omega arith
  chunks_of-append day (x ∷ xs) ys = ground (arith, chunks_of-append day xs ys)

  reached-longest :
      (today day : ℕ) (b : K × ℕ) (cs : Dict K ℕ)
      → leb (today - (longest b cs).1) day ≡ reached today day (b ∷ cs)
  unfolding longest
  reached-longest today day b [] = ground arith
  reached-longest today day b (c ∷ cs) = elim (Bool-cases (leb b.1 c.1)) [
    | inl e ↦ rw (longest, e) (ground (arith, reached-longest today day c cs))
    | inr e ↦ rw (longest, e) (ground (arith, reached-longest today day b cs))
  ]

  longest_le : (b : K × ℕ) (cs : Dict K ℕ) → b.1 ≤ (longest b cs).1
  unfolding longest
  longest_le b [] = omega arith
  longest_le b (c ∷ cs) = elim (Bool-cases (leb b.1 c.1)) [
    | inl e ↦ rw (longest, e) (ground (arith, longest_le c cs))
    | inr e ↦ rw (longest, e) (longest_le b cs)
  ]

  shortest_le : (b : K × ℕ) (cs : Dict K ℕ) → (shortest b cs).1 ≤ b.1
  unfolding shortest
  shortest_le b [] = omega arith
  shortest_le b (c ∷ cs) = elim (Bool-cases (leb b.1 c.1)) [
    | inl e ↦ rw (shortest, e) (shortest_le b cs)
    | inr e ↦ rw (shortest, e) (ground (arith, shortest_le c cs))
  ]

  if_days-count :
      (broker : K) (from to day : ℕ)
      → ranges_of day (if_days broker from to) ≡ one_if (within from to day)
  if_days-count broker from to day = ground arith

  split_range-count :
      (from to today day : ℕ) (short long : K × ℕ)
      → short.1 ≤ long.1
      → 1 ≤ from
      → from ≤ day
      → day ≤ to
      → ranges_of day (split_range from to today short long) ≡ one_if (leb (today - long.1) day)
  unfolding split_range
  split_range-count from to today day short long h p f t =
      let short_from = max from (today - short.1) in
      let long_from = max from (today - long.1) in
      ground (
        arith,
        ranges_of-append day (if_days short.0 short_from to)
            (if_days long.0 long_from (short_from - 1)),
        if_days-count short.0 short_from to day,
        if_days-count long.0 long_from (short_from - 1) day,
      )

  -- Of the days that the query asks for, those that the window of some broker reaches back to are in the range of one
  -- broker each, and the others in none.
  partition_windows-once :
      (from to today day : ℕ) (ws : Dict K ℕ)
      → 1 ≤ from
      → from ≤ day
      → day ≤ to
      → ranges_of day (partition_windows from to today ws) ≡ one_if (reached today day ws)
  unfolding partition_windows
  partition_windows-once from to today day [] p f t = refl
  partition_windows-once from to today day (b ∷ []) p f t =
      ground (arith, if_days-count b.0 (max from (today - b.1)) to day)
  partition_windows-once from to today day (b ∷ c ∷ cs) p f t =
      let short = shortest_le b (c ∷ cs) in
      let long = longest_le b (c ∷ cs) in
      split_range-count from to today day (shortest b (c ∷ cs)) (longest b (c ∷ cs))
        (omega (arith, short, long)) p f t
      ∙ ap one_if (reached-longest today day b (c ∷ cs))

  -- The chunks of a range.
  split_chunks-count :
      (fuel max_chunk current to : ℕ) (broker : K)
      → 1 ≤ max_chunk
      → 1 ≤ current
      → to + 1 - current < fuel
      → (chunks : List (ChunkPlan K)) × (split_chunks fuel broker max_chunk current to
          ≡ some chunks)
        × ((day : ℕ) → chunks_of day chunks ≡ one_if (within current to day))
  unfolding split_chunks
  split_chunks-count zero max_chunk current to broker m p h = elim h [ ]
  split_chunks-count (suc fuel) max_chunk current to broker m p h =
      elim (Bool-cases (leb current to)) [
        | inr e ↦ ([], rw (split_chunks, e) refl, λ day. ground arith)
        | inl e ↦
            let end_ = min (current + max_chunk - 1) to in
            let (chunks, f, g) =
              split_chunks-count fuel max_chunk (end_ + 1) to broker m (omega arith)
                (ground arith) in
            let first : ChunkPlan K = record {
              broker_id = broker;
              from_date = current;
              to_date = end_;
              is_fallback = false;
            } in
            (first ∷ chunks, rw (split_chunks, e, f) refl, λ day. ground (arith, g day))
      ]

  -- A range starts at day 1 or later, and has fewer days than there are rounds.
  abbrev pub FitsIn : ℕ → K × Range → Type 0
  FitsIn fuel (broker, (from, to)) = (1 ≤ from) × (to + 1 - from < fuel)

  plan_ranges-count :
      (caps_of : K → Option HistoricalCaps) (fuel : ℕ) (ranges : Dict K Range)
      → ((k : K) → 1 ≤ max_chunk_of caps_of k)
      → All (FitsIn fuel) ranges
      → (chunks : List (ChunkPlan K)) × (plan_ranges caps_of fuel ranges ≡ some chunks)
        × ((day : ℕ) → chunks_of day chunks ≡ ranges_of day ranges)
  unfolding plan_ranges
  plan_ranges-count caps_of fuel [] m fits = ([], refl, λ day. refl)
  plan_ranges-count caps_of fuel ((broker, (from, to)) ∷ ranges) m fits =
      let (chunks, f, g) =
        split_chunks-count fuel (max_chunk_of caps_of broker) from to broker (m broker) fits.0.0
          fits.0.1 in
      let (later, u, v) = plan_ranges-count caps_of fuel ranges m fits.1 in
      (
        chunks ++ later,
        rw (plan_ranges, f, u) refl,
        λ day. ground (arith, chunks_of-append day chunks later, g day, v day),
      )

  All-append :
      (P : K × Range → Type 0) (xs ys : Dict K Range) → All P xs → All P ys → All P (xs ++ ys)
  All-append P [] ys h k = k
  All-append P (x ∷ xs) ys h k = (h.0, All-append P xs ys h.1 k)

  if_days-FitsIn :
      (fuel : ℕ) (broker : K) (from to : ℕ)
      → 1 ≤ from
      → to + 1 < fuel
      → All (FitsIn fuel) (if_days broker from to)
  if_days-FitsIn fuel broker from to p h = ground arith

  split_range-FitsIn :
      (fuel from to today : ℕ) (short long : K × ℕ)
      → 1 ≤ from
      → from + today + to + 1 < fuel
      → All (FitsIn fuel) (split_range from to today short long)
  unfolding split_range
  split_range-FitsIn fuel from to today short long p h =
      let short_from = max from (today - short.1) in
      let long_from = max from (today - long.1) in
      All-append (FitsIn fuel) (if_days short.0 short_from to)
        (if_days long.0 long_from (short_from - 1))
        (if_days-FitsIn fuel short.0 short_from to (omega arith) (omega arith))
        (if_days-FitsIn fuel long.0 long_from (short_from - 1) (omega arith) (omega arith))

  partition_windows-FitsIn :
      (fuel from to today : ℕ) (ws : Dict K ℕ)
      → 1 ≤ from
      → from + today + to + 1 < fuel
      → All (FitsIn fuel) (partition_windows from to today ws)
  unfolding partition_windows
  partition_windows-FitsIn fuel from to today [] p h = tt
  partition_windows-FitsIn fuel from to today (b ∷ []) p h =
      if_days-FitsIn fuel b.0 (max from (today - b.1)) to (omega arith) (omega arith)
  partition_windows-FitsIn fuel from to today (b ∷ c ∷ cs) p h =
      split_range-FitsIn fuel from to today (shortest b (c ∷ cs)) (longest b (c ∷ cs)) p h

module _ {K F G S : Type 0} (dec : Discrete K) (r : BrokerRegistry K F G S)
    (headroom : Option (K → EndpointClass → ℕ)) (policy : SourceSelectionPolicy K F)
    (caps_of : K → Option HistoricalCaps) where
  -- The windows of the brokers that the route names.
  abbrev pub windows_for : RouteDecision K F Mode → Dict K ℕ
  windows_for d =
      broker_windows dec caps_of (eligible_brokers d.parallel_brokers d.primary_broker) []

  -- The plan of a query ends, if no broker has chunks of 0 days. If there is a route, each day that the query asks for,
  -- and that the window of a broker of the route reaches back to, is in exactly one chunk, and no other day of the query
  -- is in any.
  pub plan_chunks-once :
      (fuel today : ℕ) (trace : String) (query : HistoricalQuery K) (d : RouteDecision K F Mode)
      → ((k : K) → 1 ≤ max_chunk_of caps_of k)
      → 1 ≤ query.from_date
      → query.from_date + today + query.to_date + 1 < fuel
      → route dec r headroom policy (bars_request dec r headroom policy caps_of trace) ≡ ok d
      → (chunks : List (ChunkPlan K)) × (plan_chunks dec r headroom policy caps_of fuel today trace
            query
          ≡ ok (some chunks))
        × ((day : ℕ)
            → query.from_date ≤ day
            → day ≤ query.to_date
            → chunks_of day chunks ≡ one_if (reached today day (windows_for d)))
  unfolding plan_chunks partition_ranges
  plan_chunks-once fuel today trace query d m p h e =
      let ws = windows_for d in
      let (chunks, f, g) =
        plan_ranges-count caps_of fuel (partition_windows query.from_date query.to_date today ws) m
          (partition_windows-FitsIn fuel query.from_date query.to_date today ws p h) in
      (
        chunks,
        rw (plan_chunks, e) (ap (λ x. ok x) f),
        λ day from to.
            g day ∙ partition_windows-once query.from_date query.to_date today day ws p from to,
      )

  -- On a consistent registry there is a plan, be it for a route or for none.
  pub plan_chunks-ends :
      (fuel today : ℕ) (trace : String) (query : HistoricalQuery K)
      → IsConsistent dec r
      → ((k : K) → 1 ≤ max_chunk_of caps_of k)
      → 1 ≤ query.from_date
      → query.from_date + today + query.to_date + 1 < fuel
      → (chunks : List (ChunkPlan K)) × (plan_chunks dec r headroom policy caps_of fuel today trace
            query
          ≡ ok (some chunks))
  unfolding plan_chunks
  plan_chunks-ends fuel today trace query c m p h =
      elim (route-ends dec r headroom policy c (bars_request dec r headroom policy caps_of trace)) [
        | inr (_, e, _, _) ↦ ([], rw (plan_chunks, e) refl)
        | inl (d, e, _) ↦
            let (chunks, f, g) = plan_chunks-once fuel today trace query d m p h e in (chunks, f)
      ]
