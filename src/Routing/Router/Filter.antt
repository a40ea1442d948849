-- ===== src/Routing/Router/Filter.antt =====
-- The filters of `BrokerRouter.route`: which candidates come through.
use inc_trade.Prelude.{
  ◌≡◌, refl, ◌∙◌, Bool, true, false, ◌&&◌, inl, inr, Bool-cases, Option-cases, ◌||◌, not, Option,
  none, some, List, [], ◌∷◌, filter, mem, arith,
}
use inc_trade.Prelude.Dict.{Dict, lookup, contains, insert, contains-insert, is_some}
use inc_trade.Prelude.Result.{ok}
use inc_trade.Routing.Models.{
  is_usable, Rejection, not_registered, missing_features, missing_policy_features, unhealthy,
}
use inc_trade.Routing.Registry.{BrokerRegistry, get_capabilities, get_health, is_registered}
use inc_trade.Routing.Registry.Consistent.{IsConsistent}
use inc_trade.Routing.Router.{missing, check_features, examine, filter_capable, filter_healthy}

-- Every feature is supported.
abbrev pub supports_all : {F : Type 0} → (F → Bool) → List F → Bool
supports_all supports [] = true
supports_all supports (f ∷ fs) = supports f && supports_all supports fs

abbrev is_empty : {A : Type 0} → List A → Bool
is_empty [] = true
is_empty (x ∷ xs) = false

missing-is_empty :
    {F : Type 0} (supports : F → Bool) (fs : List F)
    → is_empty (missing supports fs) ≡ supports_all supports fs
unfolding missing
missing-is_empty supports [] = refl
missing-is_empty supports (f ∷ fs) = ground (arith, missing-is_empty supports fs)

module _ {K F G S : Type 0} (dec : Discrete K) (r : BrokerRegistry K F G S) where
  -- The broker's descriptor, which supports nothing where there is none.
  abbrev pub descriptor_of : K → F → Bool
  descriptor_of bid = elim (lookup dec bid r.capabilities) [ none ↦ λ _. false | some s ↦ s ]

  -- Registered, and with all features of both lists.
  abbrev pub is_capable : List F → List F → K → Bool
  is_capable wanted required bid =
      is_registered dec bid r
      && (supports_all (descriptor_of bid) wanted && supports_all (descriptor_of bid) required)

  -- Capable and healthy.
  abbrev pub is_eligible : List F → List F → K → Bool
  is_eligible wanted required bid =
      is_capable wanted required bid && is_usable (get_health dec bid r)

  -- One check on a broker that is described: it raises nothing, and passes exactly if the broker
  -- supports all the features.
  check_features-described :
      (reject : List F → Rejection F) (fs : List F) (bid : K)
      → contains dec bid r.capabilities ≡ true
      → (v : Option (Rejection F)) × (check_features dec r reject fs bid ≡ ok v)
        × (is_some v ≡ not (supports_all (descriptor_of bid) fs))
  unfolding check_features get_capabilities
  check_features-described reject [] bid h = (none, refl, refl)
  check_features-described reject (f ∷ fs) bid h = (
    elim (missing (descriptor_of bid) (f ∷ fs)) [ [] ↦ none | x ∷ xs ↦ some (reject (x ∷ xs)) ],
    ground arith,
    ground (arith, missing-is_empty (descriptor_of bid) (f ∷ fs)),
  )

  -- The verdict on a candidate: it is accepted exactly if it is capable.
  examine-verdict :
      IsConsistent dec r
      → (wanted required : List F) (bid : K)
      → (v : Option (Rejection F)) × (examine dec r wanted required bid ≡ ok v)
        × (is_some v ≡ not (is_capable wanted required bid))
  unfolding examine
  examine-verdict c wanted required bid = elim (Bool-cases (is_registered dec bid r)) [
    | inr unknown ↦ (some not_registered, ground arith, ground arith)
    | inl known ↦
        let described : contains dec bid r.capabilities ≡ true = c.described bid ∙ known in
        let (v, checks, passes) = check_features-described missing_features wanted bid described in
        elim (Option-cases v) [
          | inr (reason, stops) ↦ (some reason, ground arith, ground arith)
          | inl goes_on ↦
              let (w, checks', passes') =
                check_features-described missing_policy_features required bid described in
              (w, ground arith, ground arith)
        ]
  ]

  -- The capable candidates, and the rejections that were there before with those that are not.
  pub filter_capable-filter :
      IsConsistent dec r
      → (wanted required : List F) (bids : List K) (rejected : Dict K (Rejection F))
      → (found : Dict K (Rejection F)) × (filter_capable dec r wanted required bids rejected
          ≡ ok (filter (is_capable wanted required) bids, found))
        × ((k : K)
            → contains dec k found
              ≡ (contains dec k rejected || (mem dec k bids && not (is_capable wanted required k))))
  unfolding filter_capable
  filter_capable-filter c wanted required [] rejected = (rejected, refl, λ k. ground arith)
  filter_capable-filter c wanted required (bid ∷ bids) rejected =
      let (v, examined, accepts) = examine-verdict c wanted required bid in
      elim (Option-cases v) [
        | inl accepted ↦
            let (found, filtered, same) = filter_capable-filter c wanted required bids rejected in
            (found, ground arith, λ k. ground (arith, same k))
        | inr (reason, refused) ↦
            let (found, filtered, same) =
              filter_capable-filter c wanted required bids (insert dec bid reason rejected) in
            (
              found,
              ground arith,
              λ k. ground (arith, same k, contains-insert dec k bid reason rejected),
            )
      ]

  pub filter_healthy-filter :
      (bids : List K) (rejected : Dict K (Rejection F))
      → (filter_healthy dec r bids rejected).0
        ≡ filter (λ bid. is_usable (get_health dec bid r)) bids
  unfolding filter_healthy
  filter_healthy-filter [] rejected = refl
  filter_healthy-filter (bid ∷ bids) rejected = ground (
    arith,
    filter_healthy-filter bids rejected,
    filter_healthy-filter bids (insert dec bid (unhealthy (get_health dec bid r).reason) rejected),
  )

  pub contains-filter_healthy :
      (bids : List K) (rejected : Dict K (Rejection F)) (k : K)
      → contains dec k (filter_healthy dec r bids rejected).1
        ≡ (contains dec k rejected || (mem dec k bids && not (is_usable (get_health dec k r))))
  unfolding filter_healthy
  contains-filter_healthy [] rejected k = ground arith
  contains-filter_healthy (bid ∷ bids) rejected k =
      let reason : Rejection F = unhealthy (get_health dec bid r).reason in
      ground (
        arith,
        contains-filter_healthy bids rejected k,
        contains-filter_healthy bids (insert dec bid reason rejected) k,
        contains-insert dec k bid reason rejected,
      )
