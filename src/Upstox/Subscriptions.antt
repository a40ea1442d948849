-- ===== src/Upstox/Subscriptions.antt =====
-- `UpstoxV3SubscriptionManager` of brokers/upstox/websocket/v3_subscription_manager.py. A set is a list
-- without repetition. A mode is one of the four after `_normalise_mode`; Text has the calls with a
-- text, which for any other text end in a `KeyError`.
pub mod InStep
pub mod Kept
pub mod Text
use inc_trade.Prelude.{
  ℕ, ◌+◌, Bool, true, false, ◌&&◌, ◌||◌, not, Option, none, some, List, [], ◌∷◌, ◌++◌, length, mem,
  remove, ltb, if◌then◌else◌,
}
use inc_trade.Prelude.Dict.{Dict, lookup, insert, erase}

pub data Mode : Type 0 where
  ltpc option_greeks full full_d30 : Mode

abbrev pub mode_eq : Mode → Mode → Bool
mode_eq ltpc ltpc = true
mode_eq option_greeks option_greeks = true
mode_eq full full = true
mode_eq full_d30 full_d30 = true
mode_eq _ _ = false

pub record Limits : Type 0 where
  pub individual : Mode → ℕ
  pub combined : Mode → ℕ

-- `UpstoxV3SubscriptionLimits()`
abbrev pub default_limits : Limits
default_limits = record {
  individual = λ m. elim m [ ltpc ↦ 5000 | option_greeks ↦ 3000 | full ↦ 2000 | full_d30 ↦ 50 ];
  combined = λ m. elim m [ ltpc ↦ 2000 | option_greeks ↦ 2000 | full ↦ 1500 | full_d30 ↦ 1500 ];
}

pub record SubscriptionManager (K : Type 0) : Type 0 where
  pub limits : Limits
  pub by_mode : Mode → List K
  pub by_key : Dict K Mode

unfoldable pub new_manager : {K : Type 0} → Limits → SubscriptionManager K
new_manager limits = record { limits = limits; by_mode = λ m. []; by_key = [] }

-- Which cap `SubscriptionLimitExceededError` tells of.
pub data LimitExceeded : Type 0 where
  individual_exceeded combined_exceeded : LimitExceeded

-- `self._by_mode[mode] = keys`
unfoldable pub set_mode : {K : Type 0} → Mode → List K → (Mode → List K) → Mode → List K
set_mode m keys by_mode n = if mode_eq m n then keys else by_mode n

abbrev pub is_active : {K : Type 0} → List K → Bool
is_active [] = false
is_active (k ∷ ks) = true

-- Another mode has subscriptions.
unfoldable pub any_active : {K : Type 0} → Mode → (Mode → List K) → Bool
any_active m by_mode =
    (not (mode_eq ltpc m) && is_active (by_mode ltpc))
    || ((not (mode_eq option_greeks m) && is_active (by_mode option_greeks))
        || ((not (mode_eq full m) && is_active (by_mode full))
            || (not (mode_eq full_d30 m) && is_active (by_mode full_d30))))

-- `_enforce`: nothing, or the error.
unfoldable pub enforce : {K : Type 0} → Mode → SubscriptionManager K → Option LimitExceeded
unfolding any_active
enforce m s =
    let size = length (s.by_mode m) in
    if ltb (s.limits.individual m) size
    then some individual_exceeded
    else if any_active m s.by_mode && ltb (s.limits.combined m) size
    then some combined_exceeded
    else none

module _ {K : Type 0} (dec : Discrete K) where
  -- `add` of a set.
  abbrev pub add : K → List K → List K
  add k keys = if mem dec k keys then keys else keys ++ k ∷ []

  -- `discard` from the set of a mode, if there was one.
  abbrev pub discard_from : Option Mode → K → (Mode → List K) → Mode → List K
  discard_from none k by_mode = by_mode
  discard_from (some old) k by_mode = set_mode old (remove dec k (by_mode old)) by_mode

  -- One round of the loop of `subscribe`.
  unfoldable pub subscribe_one : Mode → K → SubscriptionManager K → SubscriptionManager K
  unfolding set_mode
  subscribe_one m k s =
      let existing = lookup dec k s.by_key in
      let cleared = discard_from existing k s.by_mode in
      let moved : SubscriptionManager K = record s {
        by_mode = set_mode m (add k (cleared m)) cleared;
        by_key = insert dec k m s.by_key;
      } in
      elim existing [ none ↦ moved | some old ↦ if mode_eq old m then s else moved ]

  unfoldable pub subscribe_all : Mode → List K → SubscriptionManager K → SubscriptionManager K
  subscribe_all m [] s = s
  subscribe_all m (k ∷ ks) s = subscribe_all m ks (subscribe_one m k s)

  -- `subscribe`, and `change_mode`; an error does not undo the changes.
  unfoldable pub subscribe :
      List K → Mode → SubscriptionManager K → SubscriptionManager K × Option LimitExceeded
  unfolding subscribe_all enforce
  subscribe keys m s = let after = subscribe_all m keys s in (after, enforce m after)

  unfoldable pub unsubscribe_one : K → SubscriptionManager K → SubscriptionManager K
  unfolding set_mode
  unsubscribe_one k s = record s {
    by_mode = discard_from (lookup dec k s.by_key) k s.by_mode;
    by_key = erase dec k s.by_key;
  }

  unfoldable pub unsubscribe : List K → SubscriptionManager K → SubscriptionManager K
  unfolding unsubscribe_one
  unsubscribe [] s = s
  unsubscribe (k ∷ ks) s = unsubscribe ks (unsubscribe_one k s)
