-- ===== src/Upstox/Subscriptions/InStep.antt =====
-- The sets by mode and the modes by key tell the same.
use inc_trade.Prelude.{
  ◌≡◌, not, refl, Bool, true, false, ◌&&◌, Option, none, some, List, [], ◌∷◌, mem, IsDistinct,
  mem-append, mem-remove_ne, mem-remove_self, remove-IsDistinct, append-IsDistinct, arith, inl, inr,
  Option-cases, Bool-cases,
}
use inc_trade.Prelude.Dict.{
  keys, lookup, insert, insert-IsDistinct, erase-IsDistinct, lookup-insert, lookup-erase_self,
  lookup-erase_ne,
}
use inc_trade.Upstox.Subscriptions.{
  Mode, ltpc, option_greeks, full, full_d30, mode_eq, SubscriptionManager, set_mode, add,
  discard_from, subscribe_one, subscribe_all, unsubscribe_one, unsubscribe,
}

pub mode_eq-true : (m n : Mode) → mode_eq m n ≡ true → m ≡ n
mode_eq-true ltpc ltpc h = refl
mode_eq-true option_greeks option_greeks h = refl
mode_eq-true full full h = refl
mode_eq-true full_d30 full_d30 h = refl
mode_eq-true _ _ h = absurd (ground arith)

-- The key has this mode.
abbrev pub is_mode : Option Mode → Mode → Bool
is_mode none m = false
is_mode (some n) m = mode_eq n m

module _ {K : Type 0} (dec : Discrete K) where
  -- A key is in the set of a mode exactly if that is its mode; no set has a key twice.
  pub record IsInStep (s : SubscriptionManager K) : Type 0 where
    pub sets_distinct : (m : Mode) → IsDistinct dec (s.by_mode m)
    pub keys_distinct : IsDistinct dec (keys s.by_key)
    pub agrees : (k : K) (m : Mode) → mem dec k (s.by_mode m) ≡ is_mode (lookup dec k s.by_key) m

  mem-add :
      (j k : K) (ks : List K)
      → mem dec j (add dec k ks) ≡ (elim (dec k j) [ yes _ ↦ true | no _ ↦ mem dec j ks ])
  mem-add j k ks = ground (arith, mem-append dec j ks (k ∷ []))

  add-IsDistinct : (k : K) (ks : List K) → IsDistinct dec ks → IsDistinct dec (add dec k ks)
  add-IsDistinct k ks u = elim (Bool-cases (mem dec k ks)) [
    | inl there ↦ rw there u
    | inr new ↦ rw new (append-IsDistinct dec k ks u new)
  ]

  discard-IsDistinct :
      (o : Option Mode) (k : K) (by_mode : Mode → List K) (m : Mode)
      → ((n : Mode) → IsDistinct dec (by_mode n))
      → IsDistinct dec (discard_from dec o k by_mode m)
  unfolding set_mode
  discard-IsDistinct none k by_mode m u = u m
  discard-IsDistinct (some old) k by_mode m u = elim (Bool-cases (mode_eq old m)) [
    | inl same ↦ rw same (remove-IsDistinct dec k (by_mode old) (u old))
    | inr other ↦ rw other (u m)
  ]

  mem-discard :
      (o : Option Mode) (j k : K) (by_mode : Mode → List K) (m : Mode)
      → ((n : Mode) → IsDistinct dec (by_mode n))
      → mem dec j (discard_from dec o k by_mode m) ≡ (elim (dec k j) [
        | yes _ ↦ mem dec j (by_mode m) && not (is_mode o m)
        | no _ ↦ mem dec j (by_mode m)
      ])
  unfolding set_mode
  mem-discard none j k by_mode m u = ground arith
  mem-discard (some old) j k by_mode m u = elim (Bool-cases (mode_eq old m)) [
    | inr other ↦ ground arith
    | inl same ↦ ground (
      arith,
      mode_eq-true old m same,
      mem-remove_self dec k (by_mode old) (u old),
      mem-remove_ne dec j k (by_mode old),
    )
  ]

  -- A key is cleared out of every set before it is added.
  move-IsInStep :
      (m : Mode) (k : K) (s : SubscriptionManager K)
      → IsInStep s
      → let cleared = discard_from dec (lookup dec k s.by_key) k s.by_mode in
        IsInStep (record s {
          by_mode = set_mode m (add dec k (cleared m)) cleared;
          by_key = insert dec k m s.by_key;
        })
  unfolding set_mode
  move-IsInStep m k s h =
      let o = lookup dec k s.by_key in
      let cleared = discard_from dec o k s.by_mode in
      record {
        sets_distinct = λ n. elim (Bool-cases (mode_eq m n)) [
          | inl same ↦
              rw same
                (add-IsDistinct k (cleared m) (discard-IsDistinct o k s.by_mode m h.sets_distinct))
          | inr other ↦ rw other (discard-IsDistinct o k s.by_mode n h.sets_distinct)
        ];
        keys_distinct = insert-IsDistinct dec k m s.by_key h.keys_distinct;
        agrees = λ j n. ground (
          arith,
          h.agrees j n,
          h.agrees j m,
          mode_eq-true m n,
          mem-add j k (cleared m),
          mem-discard o j k s.by_mode n h.sets_distinct,
          mem-discard o j k s.by_mode m h.sets_distinct,
          lookup-insert dec j k m s.by_key,
        );
      }

  subscribe_one-IsInStep :
      (m : Mode) (k : K) (s : SubscriptionManager K)
      → IsInStep s
      → IsInStep (subscribe_one dec m k s)
  unfolding subscribe_one
  subscribe_one-IsInStep m k s h = elim (Option-cases (lookup dec k s.by_key)) [
    | inl new ↦ rw (subscribe_one, new) (move-IsInStep m k s h)
    | inr (old, known) ↦ elim (Bool-cases (mode_eq old m)) [
      | inl same ↦ rw (subscribe_one, known, same) h
      | inr other ↦ rw (subscribe_one, known, other) (move-IsInStep m k s h)
    ]
  ]

  pub subscribe_all-IsInStep :
      (m : Mode) (ks : List K) (s : SubscriptionManager K)
      → IsInStep s
      → IsInStep (subscribe_all dec m ks s)
  unfolding subscribe_all
  subscribe_all-IsInStep m [] s h = h
  subscribe_all-IsInStep m (k ∷ ks) s h =
      subscribe_all-IsInStep m ks (subscribe_one dec m k s) (subscribe_one-IsInStep m k s h)

  unsubscribe_one-IsInStep :
      (k : K) (s : SubscriptionManager K) → IsInStep s → IsInStep (unsubscribe_one dec k s)
  unfolding unsubscribe_one
  unsubscribe_one-IsInStep k s h =
      let o = lookup dec k s.by_key in
      record {
        sets_distinct = λ n. discard-IsDistinct o k s.by_mode n h.sets_distinct;
        keys_distinct = erase-IsDistinct dec k s.by_key h.keys_distinct;
        agrees = λ j n. ground (
          arith,
          h.agrees j n,
          mem-discard o j k s.by_mode n h.sets_distinct,
          lookup-erase_self dec k s.by_key h.keys_distinct,
          lookup-erase_ne dec j k s.by_key,
        );
      }

  pub unsubscribe-IsInStep :
      (ks : List K) (s : SubscriptionManager K) → IsInStep s → IsInStep (unsubscribe dec ks s)
  unfolding unsubscribe
  unsubscribe-IsInStep [] s h = h
  unsubscribe-IsInStep (k ∷ ks) s h =
      unsubscribe-IsInStep ks (unsubscribe_one dec k s) (unsubscribe_one-IsInStep k s h)
