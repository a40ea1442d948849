-- ===== src/Upstox/TextTests.antt =====
-- Modes given as texts, on a small input, and the theorem there.
use inc_trade.Prelude.{ℕ, ◌≡◌, refl, false, some, List, [], ◌∷◌, mem, ℕ_discrete}
use inc_trade.Prelude.Dict.{insert}
use inc_trade.Upstox.Subscriptions.{
  Mode, ltpc, full, Limits, SubscriptionManager, new_manager, set_mode, subscribe_one,
  subscribe_all, subscribe,
}
use inc_trade.Upstox.Subscriptions.InStep.{IsInStep}
use inc_trade.Upstox.Subscriptions.Kept.{Call, subscribes, run, run-IsInStep}
use inc_trade.Upstox.Subscriptions.Text.{
  ltp_text, full_text, other_text, normalise_mode, key_error, subscribe_text, mode_for,
  total_subscriptions, active_categories, keys_for_mode, subscribe_text-loses,
}

abbrev limits : Limits
limits = record { individual = λ m. 3; combined = λ m. 1 }

abbrev calls : List (Call ℕ)
calls = subscribes (1 ∷ 2 ∷ []) ltp_text ∷ subscribes (3 ∷ []) full_text ∷ []

abbrev manager : SubscriptionManager ℕ
manager = run ℕ_discrete calls (new_manager limits)

reads_test :
    (total_subscriptions manager ≡ 3)
    × (active_categories manager ≡ ltpc ∷ full ∷ [])
    × (keys_for_mode ltp_text manager ≡ 1 ∷ 2 ∷ [])
unfolding total_subscriptions active_categories keys_for_mode run subscribe_text normalise_mode
    subscribe subscribe_all subscribe_one set_mode new_manager insert ℕ_discrete
reads_test = (refl, refl, refl)

manager-IsInStep : IsInStep ℕ_discrete manager
unfolding normalise_mode
manager-IsInStep = run-IsInStep ℕ_discrete calls limits ((ltpc, refl), ((full, refl), tt))

first_mode : mode_for ℕ_discrete 1 manager ≡ some ltpc
unfolding run subscribe_text normalise_mode subscribe subscribe_all subscribe_one set_mode
    new_manager insert ℕ_discrete
first_mode = refl

subscribe_text-loses_example :
    let (after, e) = subscribe_text ℕ_discrete (1 ∷ 2 ∷ []) other_text manager in
    (e ≡ some key_error)
    × (mode_for ℕ_discrete 1 after ≡ some ltpc)
    × ((n : Mode) → mem ℕ_discrete 1 (after.by_mode n) ≡ false)
    × ((subscribe ℕ_discrete (1 ∷ []) ltpc after).0 ≡ after)
subscribe_text-loses_example =
    subscribe_text-loses ℕ_discrete 1 (2 ∷ []) ltpc manager manager-IsInStep first_mode
