-- ===== src/Historical/Answers.antt =====
-- The second and third step of `HistoricalDataCoordinator.fetch` of brokers/common/historical_coordinator.py: what the
-- brokers answer for the planned chunks, and for those that fail what the fallbacks answer.
use mathlib.Core.List.{append-nil, append_assoc, map-append}
use inc_trade.Prelude.{
  ◌≡◌, ◌∙◌, sym, ap, refl, inl, inr, Option, none, some, List, [], ◌∷◌, ◌++◌, map, length, arith,
  true, Result-cases,
}
use inc_trade.Prelude.Result.{Result, ok, err}
use inc_trade.Historical.Models.{ChunkPlan, HistoricalBar, ChunkRecord}
use inc_trade.Historical.Fetch.{
  ProvenanceLedger, fetch_chunk, fetch_all, as_fallback, try_brokers, collect,
}

module _ {K E : Type 0} (get_bars : ChunkPlan K → Result E (List (HistoricalBar K))) where
  -- What the ledger is told of a chunk that is asked for.
  abbrev pub outcome : ChunkPlan K → ChunkRecord K E
  outcome plan = elim (get_bars plan) [
    | ok bars ↦ record { plan = plan; bars_fetched = length bars; error = none }
    | err e ↦ record { plan = plan; bars_fetched = 0; error = some e }
  ]

  -- The first answer with bars, if there is one.
  abbrev pub first_bars : List (ChunkPlan K) → List (HistoricalBar K)
  first_bars [] = []
  first_bars (plan ∷ plans) = elim (get_bars plan) [ ok bars ↦ bars | err _ ↦ first_bars plans ]

  -- The plans up to the first that is answered, and with it.
  abbrev pub up_to_answer : List (ChunkPlan K) → List (ChunkPlan K)
  up_to_answer [] = []
  up_to_answer (plan ∷ plans) =
      plan ∷ (elim (get_bars plan) [ ok _ ↦ [] | err _ ↦ up_to_answer plans ])

  module _ (dec : Discrete K) (fallbacks : List K) where
    -- A failed chunk again, for each fallback broker but the one that failed.
    abbrev pub retries : ChunkPlan K → List K → List (ChunkPlan K)
    retries failed [] = []
    retries failed (b ∷ bs) = elim (dec b failed.broker_id) [
      | yes _ ↦ retries failed bs
      | no _ ↦ record failed { broker_id = b; is_fallback = true } ∷ retries failed bs
    ]

    -- The bars of a chunk: those of its own broker, or if it fails those of the first fallback that does not.
    abbrev pub bars_of : ChunkPlan K → List (HistoricalBar K)
    bars_of plan = elim (get_bars plan) [
      | ok bars ↦ bars
      | err _ ↦ map (as_fallback get_bars) (first_bars (retries plan fallbacks))
    ]

    abbrev pub retried : ChunkPlan K → List (ChunkPlan K)
    retried plan = elim (get_bars plan) [
      | ok _ ↦ []
      | err _ ↦ up_to_answer (retries plan fallbacks)
    ]

    abbrev pub all_bars_of : List (ChunkPlan K) → List (HistoricalBar K)
    all_bars_of [] = []
    all_bars_of (plan ∷ plans) = bars_of plan ++ all_bars_of plans

    abbrev pub all_retried : List (ChunkPlan K) → List (ChunkPlan K)
    all_retried [] = []
    all_retried (plan ∷ plans) = retried plan ++ all_retried plans

  abbrev pub answered : ChunkPlan K → ChunkPlan K × Option (List (HistoricalBar K))
  answered plan = (plan, elim (get_bars plan) [ ok bars ↦ some bars | err _ ↦ none ])

  fetch_chunk-answered :
      (p : ChunkPlan K) (ledger : ProvenanceLedger K E)
      → ((fetch_chunk get_bars p ledger).0.chunks ≡ ledger.chunks ++ outcome p ∷ [])
        × ((p, (fetch_chunk get_bars p ledger).1) ≡ answered p)
  unfolding fetch_chunk
  fetch_chunk-answered p ledger = elim (Result-cases (get_bars p)) [
    | inl (bars, e) ↦ (ground (arith, e), ground (arith, e))
    | inr (x, e) ↦ (ground (arith, e), ground (arith, e))
  ]

  -- Two rounds of notes, one after the other.
  pub noted_after :
      (a b c : List (ChunkRecord K E)) (xs ys : List (ChunkPlan K))
      → b ≡ a ++ map outcome xs
      → c ≡ b ++ map outcome ys
      → c ≡ a ++ map outcome (xs ++ ys)
  noted_after a b c xs ys e f =
      f
      ∙ ap (λ l. l ++ map outcome ys) e
      ∙ append_assoc a (map outcome xs) (map outcome ys)
      ∙ ap (λ l. a ++ l) (sym (map-append outcome xs ys))

  pub fetch_all-answered :
      (plans : List (ChunkPlan K)) (ledger : ProvenanceLedger K E)
      → ((fetch_all get_bars plans ledger).0.chunks ≡ ledger.chunks ++ map outcome plans)
        × ((fetch_all get_bars plans ledger).1 ≡ map answered plans)
  unfolding fetch_all
  fetch_all-answered [] ledger = (sym (append-nil ledger.chunks), refl)
  fetch_all-answered (p ∷ ps) ledger =
      let next = (fetch_chunk get_bars p ledger).0 in
      let (noted, told) = fetch_chunk-answered p ledger in
      let (noted', told') = fetch_all-answered ps next in
      (
        noted_after ledger.chunks next.chunks _ (p ∷ []) ps noted noted',
        ap (λ a. a ∷ (fetch_all get_bars ps next).1) told ∙ ap (λ l. answered p ∷ l) told',
      )

  abbrev or_none : Option (List (HistoricalBar K)) → List (HistoricalBar K)
  or_none found = elim found [ none ↦ [] | some bars ↦ bars ]

  module _ (dec : Discrete K) (fallbacks : List K) where
    try_brokers-first :
        (failed : ChunkPlan K) (bs : List K) (ledger : ProvenanceLedger K E)
        → let plans = retries dec fallbacks failed bs in
          let (after, found) = try_brokers get_bars dec failed bs ledger in
          (after.chunks ≡ ledger.chunks ++ map outcome (up_to_answer plans))
          × (or_none found ≡ map (as_fallback get_bars) (first_bars plans))
    unfolding try_brokers
    try_brokers-first failed [] ledger = (sym (append-nil ledger.chunks), refl)
    try_brokers-first failed (b ∷ bs) ledger =
        let plan : ChunkPlan K = record failed { broker_id = b; is_fallback = true } in
        let next = (fetch_chunk get_bars plan ledger).0 in
        let (noted, told) = fetch_chunk-answered plan ledger in
        let (same, found) = try_brokers-first failed bs ledger in
        let (same', found') = try_brokers-first failed bs next in
        elim (dec b failed.broker_id) [
          | yes e ↦ (ground (arith, e, same), ground (arith, e, found))
          | no n ↦ elim (Result-cases (get_bars plan)) [
            | inl (bars, e) ↦ (ground (arith, n, e, noted), ground (arith, n, e))
            | inr (x, e) ↦ (
              ground (
                arith,
                n,
                e,
                noted_after ledger.chunks next.chunks _ (plan ∷ [])
                    (up_to_answer (retries dec fallbacks failed bs)) noted same',
              ),
              ground (arith, n, e, found'),
            )
          ]
        ]

    pub collect-all_bars_of :
        (plans : List (ChunkPlan K)) (ledger : ProvenanceLedger K E)
        → let (after, bars) = collect get_bars dec fallbacks (map answered plans) ledger in
          (after.chunks ≡ ledger.chunks ++ map outcome (all_retried dec fallbacks plans))
          × (bars ≡ all_bars_of dec fallbacks plans)
    unfolding collect
    collect-all_bars_of [] ledger = (sym (append-nil ledger.chunks), refl)
    collect-all_bars_of (p ∷ ps) ledger = elim (Result-cases (get_bars p)) [
      | inl (bars, e) ↦
          let (noted, all_) = collect-all_bars_of ps ledger in
          (ground (arith, e, noted), ground (arith, e, all_))
      | inr (x, e) ↦
          let next = (try_brokers get_bars dec p fallbacks ledger).0 in
          let (noted, first) = try_brokers-first p fallbacks ledger in
          let (noted', all_) = collect-all_bars_of ps next in
          (
            ground (
              arith,
              e,
              noted_after ledger.chunks next.chunks _
                  (up_to_answer (retries dec fallbacks p fallbacks)) (all_retried dec fallbacks ps)
                  noted noted',
            ),
            ground (arith, e, first, all_),
          )
    ]
