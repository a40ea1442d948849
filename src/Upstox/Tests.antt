-- ===== src/Upstox/Tests.antt =====
-- Subscriptions under small caps, and the theorems at concrete inputs.
use inc_trade.Prelude.{ℕ, ◌≡◌, refl, some, List, [], ◌∷◌, remove, ℕ_discrete}
use inc_trade.Prelude.Dict.{insert, erase}
use inc_trade.Upstox.Subscriptions.{
  ltpc, full, Limits, SubscriptionManager, new_manager, individual_exceeded, combined_exceeded,
  set_mode, any_active, enforce, subscribe_one, subscribe_all, subscribe, unsubscribe_one,
  unsubscribe,
}
use inc_trade.Upstox.Subscriptions.InStep.{IsInStep}
use inc_trade.Upstox.Subscriptions.Text.{ltp_text, full_text, normalise_mode, subscribe_text}
use inc_trade.Upstox.Subscriptions.Kept.{Call, subscribes, unsubscribes, run, run-IsInStep}

abbrev limits : Limits
limits = record { individual = λ m. 3; combined = λ m. 1 }

abbrev calls : List (Call ℕ)
calls =
    subscribes (1 ∷ 2 ∷ 3 ∷ []) ltp_text
    ∷ subscribes (3 ∷ []) full_text
    ∷ unsubscribes (2 ∷ 9 ∷ [])
    ∷ []

abbrev manager : SubscriptionManager ℕ
manager = run ℕ_discrete calls (new_manager limits)

subscriptions_test :
    (manager.by_mode ltpc ≡ 1 ∷ [])
    × (manager.by_mode full ≡ 3 ∷ [])
    × ((subscribe ℕ_discrete (4 ∷ 5 ∷ 6 ∷ []) ltpc manager).1 ≡ some individual_exceeded)
    × ((subscribe ℕ_discrete (4 ∷ []) ltpc manager).1 ≡ some combined_exceeded)
unfolding run subscribe_text normalise_mode subscribe subscribe_all subscribe_one unsubscribe
    unsubscribe_one enforce any_active set_mode new_manager insert erase remove ℕ_discrete
subscriptions_test = (refl, refl, refl, refl)

run-IsInStep_example : IsInStep ℕ_discrete manager
unfolding normalise_mode
run-IsInStep_example = run-IsInStep ℕ_discrete calls limits ((ltpc, refl), ((full, refl), (tt, tt)))

raised : (subscribe ℕ_discrete (4 ∷ []) ltpc manager).1 ≡ some combined_exceeded
unfolding run subscribe_text normalise_mode subscribe subscribe_all subscribe_one unsubscribe
    unsubscribe_one enforce any_active set_mode new_manager insert erase remove ℕ_discrete
raised = refl
