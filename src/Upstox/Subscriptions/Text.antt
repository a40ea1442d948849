-- ===== src/Upstox/Subscriptions/Text.antt =====
-- Modes as texts in brokers/upstox/websocket/v3_subscription_manager.py: `_normalise_mode`, `subscribe` with a text,
-- and the reads.
use inc_trade.Prelude.{
  ℕ, ◌+◌, ◌≡◌, refl, true, false, Option, none, some, List, [], ◌∷◌, length, mem, arith, filter,
  mem-remove_self, inl, inr, Bool-cases,
}
use inc_trade.Prelude.Dict.{keys, lookup}
use inc_trade.Upstox.Subscriptions.{
  Mode, ltpc, option_greeks, full, full_d30, mode_eq, SubscriptionManager, LimitExceeded, set_mode,
  is_active, discard_from, subscribe, subscribe_all, subscribe_one,
}
use inc_trade.Upstox.Subscriptions.InStep.{IsInStep}

-- A text after `lower` and `strip`: the texts that mean a mode, and any other.
pub data ModeText : Type 0 where
  ltp_text ltpc_text greeks_text option_greeks_text full_text full_d30_text d30_text other_text :
      ModeText

unfoldable pub normalise_mode : ModeText → Option Mode
normalise_mode ltp_text = some ltpc
normalise_mode ltpc_text = some ltpc
normalise_mode greeks_text = some option_greeks
normalise_mode option_greeks_text = some option_greeks
normalise_mode full_text = some full
normalise_mode full_d30_text = some full_d30
normalise_mode d30_text = some full_d30
normalise_mode other_text = none

pub data SubscribeError : Type 0 where
  limit_exceeded : LimitExceeded → SubscribeError
  key_error : SubscribeError

abbrev pub limit_error : Option LimitExceeded → Option SubscribeError
limit_error none = none
limit_error (some e) = some (limit_exceeded e)

mode_eq_self : (m : Mode) → mode_eq m m ≡ true
mode_eq_self ltpc = refl
mode_eq_self option_greeks = refl
mode_eq_self full = refl
mode_eq_self full_d30 = refl

module _ {K : Type 0} (dec : Discrete K) where
  -- `subscribe` under no mode: the first key is discarded from its set before the set of the mode is looked
  -- up, and without a key it is `_enforce` that fails.
  unfoldable pub subscribe_unknown : List K → SubscriptionManager K → SubscriptionManager K
  unfolding set_mode
  subscribe_unknown [] s = s
  subscribe_unknown (k ∷ ks) s = record s {
    by_mode = discard_from dec (lookup dec k s.by_key) k s.by_mode;
  }

  -- `subscribe` with a text.
  unfoldable pub subscribe_text :
      List K → ModeText → SubscriptionManager K → SubscriptionManager K × Option SubscribeError
  unfolding normalise_mode subscribe subscribe_unknown
  subscribe_text keys text s = elim (normalise_mode text) [
    | some m ↦ let (after, e) = subscribe dec keys m s in (after, limit_error e)
    | none ↦ (subscribe_unknown keys s, some key_error)
  ]

  -- The empty text is no mode.
  abbrev pub mode_for : K → SubscriptionManager K → Option Mode
  mode_for k s = lookup dec k s.by_key

  -- A key that has the mode is passed over.
  subscribe_one-same :
      (k : K) (m : Mode) (s : SubscriptionManager K)
      → mode_for k s ≡ some m
      → subscribe_one dec m k s ≡ s
  unfolding subscribe_one
  subscribe_one-same k m s e = ground (arith, e, mode_eq_self m)

  -- The key is in no set behind the failure.
  no_set :
      (k : K) (ks : List K) (m : Mode) (s : SubscriptionManager K)
      → IsInStep dec s
      → mode_for k s ≡ some m
      → (n : Mode) → mem dec k ((subscribe_unknown (k ∷ ks) s).by_mode n) ≡ false
  unfolding subscribe_unknown set_mode
  no_set k ks m s step e n = elim (Bool-cases (mode_eq m n)) [
    | inl same ↦ rw (e, same) (mem-remove_self dec k (s.by_mode m) (step.sets_distinct m))
    | inr other ↦ ground (arith, e, other, step.agrees k n)
  ]

  -- After a call with a text that is no mode, whose first key has a mode: the key still has it, but is in
  -- no set, and to subscribe it again to its mode does not bring it back.
  pub subscribe_text-loses :
      (k : K) (ks : List K) (m : Mode) (s : SubscriptionManager K)
      → IsInStep dec s
      → mode_for k s ≡ some m
      → let (after, e) = subscribe_text (k ∷ ks) other_text s in
        (e ≡ some key_error)
        × (mode_for k after ≡ some m)
        × ((n : Mode) → mem dec k (after.by_mode n) ≡ false)
        × ((subscribe dec (k ∷ []) m after).0 ≡ after)
  unfolding subscribe_text subscribe_unknown normalise_mode subscribe subscribe_all subscribe_one
      set_mode
  subscribe_text-loses k ks m s step e =
      (refl, e, no_set k ks m s step e, subscribe_one-same k m (subscribe_unknown (k ∷ ks) s) e)

abbrev pub modes : List Mode
modes = ltpc ∷ option_greeks ∷ full ∷ full_d30 ∷ []

module _ {K : Type 0} where
  unfoldable pub total_subscriptions : SubscriptionManager K → ℕ
  total_subscriptions s =
      length (s.by_mode ltpc)
      + length (s.by_mode option_greeks)
      + length (s.by_mode full)
      + length (s.by_mode full_d30)

  unfoldable pub active_categories : SubscriptionManager K → List Mode
  active_categories s = filter (λ m. is_active (s.by_mode m)) modes

  -- `ltpc_count`, `greeks_count`, `full_count` and `d30_count`
  abbrev pub count : Mode → SubscriptionManager K → ℕ
  count m s = length (s.by_mode m)

  unfoldable pub keys_for_mode : ModeText → SubscriptionManager K → List K
  unfolding normalise_mode
  keys_for_mode text s = elim (normalise_mode text) [ none ↦ [] | some m ↦ s.by_mode m ]
