-- ===== src/Upstox/Subscriptions/Kept.antt =====
-- A session of calls, and what an error leaves behind.
use inc_trade.Prelude.{
  All, ◌<◌, ◌≡◌, subst, refl, true, some, List, [], ◌∷◌, length, mem, arith, min, inl, inr,
  Option-cases,
}
use inc_trade.Prelude.Dict.{lookup, lookup-insert}
use inc_trade.Upstox.Subscriptions.{
  Mode, Limits, SubscriptionManager, new_manager, LimitExceeded, enforce, subscribe_one,
  subscribe_all, subscribe, unsubscribe,
}
use inc_trade.Upstox.Subscriptions.Text.{ModeText, normalise_mode, subscribe_text}
use inc_trade.Upstox.Subscriptions.InStep.{
  IsInStep, mode_eq-true, subscribe_all-IsInStep, unsubscribe-IsInStep,
}

-- The calls of a session, with modes as texts: an error of `subscribe` does not end it.
pub data Call (K : Type 0) : Type 0 where
  subscribes : List K → ModeText → Call K
  unsubscribes : List K → Call K

-- The text of a `subscribe` is one that means a mode.
abbrev pub NamesMode : {K : Type 0} → Call K → Type 0
NamesMode (subscribes ks text) = (m : Mode) × (normalise_mode text ≡ some m)
NamesMode (unsubscribes ks) = Unit

module _ {K : Type 0} (dec : Discrete K) where
  unfoldable pub run : List (Call K) → SubscriptionManager K → SubscriptionManager K
  unfolding subscribe_text
  run [] s = s
  run (subscribes ks text ∷ xs) s = run xs (subscribe_text dec ks text s).0
  run (unsubscribes ks ∷ xs) s = run xs (unsubscribe dec ks s)

  subscribe_text-IsInStep :
      (ks : List K) (text : ModeText) (m : Mode) (s : SubscriptionManager K)
      → normalise_mode text ≡ some m
      → IsInStep dec s
      → IsInStep dec (subscribe_text dec ks text s).0
  unfolding subscribe_text subscribe
  subscribe_text-IsInStep ks text m s e h =
      rw (subscribe_text, e) (subscribe_all-IsInStep dec m ks s h)

  run-IsInStep_from :
      (xs : List (Call K)) (s : SubscriptionManager K)
      → All NamesMode xs
      → IsInStep dec s
      → IsInStep dec (run xs s)
  unfolding run
  run-IsInStep_from [] s named h = h
  run-IsInStep_from (subscribes ks text ∷ xs) s ((m, e), named) h =
      run-IsInStep_from xs (subscribe_text dec ks text s).0 named
        (subscribe_text-IsInStep ks text m s e h)
  run-IsInStep_from (unsubscribes ks ∷ xs) s named h =
      run-IsInStep_from xs (unsubscribe dec ks s) named.1 (unsubscribe-IsInStep dec ks s h)

  -- After any calls of a new manager in which the texts for a mode mean one, also after such as end with the error
  -- for a cap: a key is in the set of a mode exactly if that is the mode it was given, so in one set at most, and no
  -- set has a key twice.
  pub run-IsInStep :
      (xs : List (Call K)) (limits : Limits)
      → All NamesMode xs
      → IsInStep dec (run xs (new_manager limits))
  unfolding new_manager
  run-IsInStep xs limits named =
      run-IsInStep_from xs (new_manager limits) named
        (record { sets_distinct = λ m. tt; keys_distinct = tt; agrees = λ k m. refl })

  stays_subscribed :
      (m : Mode) (k : K) (ks : List K) (s : SubscriptionManager K)
      → lookup dec k s.by_key ≡ some m
      → lookup dec k (subscribe_all dec m ks s).by_key ≡ some m
  unfolding subscribe_all subscribe_one
  stays_subscribed m k [] s h = h
  stays_subscribed m k (j ∷ ks) s h =
      stays_subscribed m k ks (subscribe_one dec m j s)
        (ground (arith, h, lookup-insert dec k j m s.by_key))

  one_subscribed :
      (m : Mode) (k : K) (s : SubscriptionManager K)
      → lookup dec k (subscribe_one dec m k s).by_key ≡ some m
  unfolding subscribe_one
  one_subscribed m k s = elim (Option-cases (lookup dec k s.by_key)) [
    | inl new ↦ ground (arith, new, lookup-insert dec k k m s.by_key)
    | inr (old, known) ↦ ground (arith, known, mode_eq-true old m, lookup-insert dec k k m s.by_key)
  ]

  all_subscribed :
      (m : Mode) (ks : List K) (s : SubscriptionManager K) (k : K)
      → mem dec k ks ≡ true
      → lookup dec k (subscribe_all dec m ks s).by_key ≡ some m
  unfolding subscribe_all subscribe_one
  all_subscribed m [] s k h = absurd (ground arith)
  all_subscribed m (j ∷ ks) s k h = elim (dec j k) [
    | yes same ↦ stays_subscribed m k ks (subscribe_one dec m j s) (
        subst (λ i. lookup dec i (subscribe_one dec m j s).by_key ≡ some m) same
          (one_subscribed m j s))
    | no other ↦ all_subscribed m ks (subscribe_one dec m j s) k (ground arith)
  ]

  limits_kept :
      (m : Mode) (ks : List K) (s : SubscriptionManager K)
      → (subscribe_all dec m ks s).limits ≡ s.limits
  unfolding subscribe_all subscribe_one
  limits_kept m [] s = refl
  limits_kept m (k ∷ ks) s = ground (arith, limits_kept m ks (subscribe_one dec m k s))

  -- A `subscribe` that raises has subscribed all the same: every key of the call has the mode, and the
  -- set of the mode is left above one of its caps.
  pub subscribe-keeps :
      (ks : List K) (m : Mode) (s : SubscriptionManager K) (e : LimitExceeded)
      → (subscribe dec ks m s).1 ≡ some e
      → let after = (subscribe dec ks m s).0 in
        ((k : K) → mem dec k ks ≡ true → lookup dec k after.by_key ≡ some m)
        × (min (s.limits.individual m) (s.limits.combined m) < length (after.by_mode m))
  unfolding subscribe enforce
  subscribe-keeps ks m s e h = (all_subscribed m ks s, ground (arith, h, limits_kept m ks s))
