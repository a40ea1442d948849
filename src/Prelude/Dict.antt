-- ===== src/Prelude/Dict.antt =====
-- A Python dict in insertion order, over keys with a decidable equality.
use mathlib.Core.Path.{◌≡◌, subst}
use mathlib.Core.Logic.{◌≢◌, ite, if_pos, if_neg}
use mathlib.Core.Bool.{Bool, true, false}
use mathlib.Core.Option.{Option, none, some}
use mathlib.Core.List.{List, [], ◌∷◌}
use Prim.Native.Nat.{◌+◌}
use native.Mathlib.Omega.{arith}
use inc_trade.Prelude.Lists.{length, mem, remove, All, IsDistinct, remove-IsDistinct}

abbrev pub Dict {ℓ} : Type ℓ → Type ℓ → Type ℓ
Dict K V = List (K × V)

abbrev pub is_some {ℓ} : {A : Type ℓ} → Option A → Bool
is_some none = false
is_some (some _) = true

abbrev pub keys {ℓ} : {K V : Type ℓ} → Dict K V → List K
keys [] = []
keys (e ∷ d) = e.0 ∷ keys d

module _ {ℓ} {K V : Type ℓ} (dec : Discrete K) where
  -- `d.get(k)`
  abbrev pub lookup : K → Dict K V → Option V
  lookup k [] = none
  lookup k (e ∷ d) = ite (dec e.0 k) (some e.1) (lookup k d)

  -- `k in d`
  abbrev pub contains : K → Dict K V → Bool
  contains k d = is_some (lookup k d)

  -- `d[k] = v`
  unfoldable pub insert : K → V → Dict K V → Dict K V
  insert k v [] = (k, v) ∷ []
  insert k v (e ∷ d) = ite (dec e.0 k) ((k, v) ∷ d) (e ∷ insert k v d)

  -- `del d[k]`, or nothing on a missing key
  unfoldable pub erase : K → Dict K V → Dict K V
  erase k [] = []
  erase k (e ∷ d) = ite (dec e.0 k) d (e ∷ erase k d)

module _ {ℓ} {K V : Type ℓ} (dec : Discrete K) where
  pub lookup-insert_self : (k : K) (v : V) (d : Dict K V) → lookup dec k (insert dec k v d) ≡ some v
  unfolding insert
  lookup-insert_self k v [] = ground arith
  lookup-insert_self k v (e ∷ d) = ground (arith, lookup-insert_self k v d)

  pub lookup-insert :
      (j k : K) (v : V) (d : Dict K V)
      → lookup dec j (insert dec k v d) ≡ ite (dec k j) (some v) (lookup dec j d)
  unfolding insert
  lookup-insert j k v [] = ground arith
  lookup-insert j k v (e ∷ d) = ground (arith, lookup-insert j k v d)

  pub lookup-erase_ne :
      (j k : K) (d : Dict K V) → j ≢ k → lookup dec j (erase dec k d) ≡ lookup dec j d
  unfolding erase
  lookup-erase_ne j k [] h = ground arith
  lookup-erase_ne j k (e ∷ d) h = ground (arith, lookup-erase_ne j k d h)

  pub mem-keys : (k : K) (d : Dict K V) → mem dec k (keys d) ≡ contains dec k d
  mem-keys k [] = ground arith
  mem-keys k (e ∷ d) = ground (arith, mem-keys k d)

  pub lookup-eq-none : (k : K) (d : Dict K V) → mem dec k (keys d) ≡ false → lookup dec k d ≡ none
  lookup-eq-none k d h = ground (arith, mem-keys k d)

  pub keys-erase : (k : K) (d : Dict K V) → keys (erase dec k d) ≡ remove dec k (keys d)
  unfolding erase remove
  keys-erase k [] = ground arith
  keys-erase k (e ∷ d) = ground (arith, keys-erase k d)

  pub mem-keys-insert :
      (j k : K) (v : V) (d : Dict K V)
      → mem dec j (keys (insert dec k v d))
        ≡ (elim (dec k j) [ yes _ ↦ true | no _ ↦ mem dec j (keys d) ])
  unfolding insert
  mem-keys-insert j k v [] = ground arith
  mem-keys-insert j k v (e ∷ d) = ground (arith, mem-keys-insert j k v d)

  pub insert-IsDistinct :
      (k : K) (v : V) (d : Dict K V)
      → IsDistinct dec (keys d)
      → IsDistinct dec (keys (insert dec k v d))
  unfolding insert
  insert-IsDistinct k v [] u = ground arith
  insert-IsDistinct k v (e ∷ d) u =
      ground (arith, insert-IsDistinct k v d u.1, mem-keys-insert e.0 k v d)

  pub length-insert_new :
      (k : K) (v : V) (d : Dict K V)
      → mem dec k (keys d) ≡ false
      → length (insert dec k v d) ≡ length d + 1
  unfolding insert
  length-insert_new k v [] h = ground arith
  length-insert_new k v (e ∷ d) h = ground (arith, length-insert_new k v d)

  pub length-erase :
      (k : K) (d : Dict K V) → mem dec k (keys d) ≡ true → length (erase dec k d) + 1 ≡ length d
  unfolding erase
  length-erase k [] h = absurd (ground arith)
  length-erase k (e ∷ d) h = ground (arith, length-erase k d)

  pub contains-insert :
      (j k : K) (v : V) (d : Dict K V)
      → contains dec j (insert dec k v d)
        ≡ (elim (dec k j) [ yes _ ↦ true | no _ ↦ contains dec j d ])
  unfolding insert
  contains-insert j k v [] = ground arith
  contains-insert j k v (e ∷ d) = ground (arith, contains-insert j k v d)

  pub lookup-erase_self :
      (k : K) (d : Dict K V) → IsDistinct dec (keys d) → lookup dec k (erase dec k d) ≡ none
  unfolding erase
  lookup-erase_self k [] u = ground arith
  lookup-erase_self k (e ∷ d) u = ground (arith, lookup-erase_self k d u.1, lookup-eq-none k d)

  pub contains-erase :
      (j k : K) (d : Dict K V)
      → IsDistinct dec (keys d)
      → contains dec j (erase dec k d)
        ≡ (elim (dec k j) [ yes _ ↦ false | no _ ↦ contains dec j d ])
  contains-erase j k d u = ground (arith, lookup-erase_self k d u, lookup-erase_ne j k d)

  pub erase-IsDistinct :
      (k : K) (d : Dict K V) → IsDistinct dec (keys d) → IsDistinct dec (keys (erase dec k d))
  erase-IsDistinct k d u = rw (keys-erase k d) (remove-IsDistinct dec k (keys d) u)

  -- A predicate on the entries.
  pub All-insert {κ} :
      (P : K × V → Type κ) (k : K) (v : V) (d : Dict K V)
      → All P d
      → P (k, v)
      → All P (insert dec k v d)
  unfolding insert
  All-insert P k v [] h p = (p, tt)
  All-insert P k v (e ∷ d) h p = elim (dec e.0 k) [
    | yes same ↦ rw (if_pos _ same) (p, h.1)
    | no other ↦ rw (if_neg _ other) (h.0, All-insert P k v d h.1 p)
  ]

  pub All-erase {κ} : (P : K × V → Type κ) (k : K) (d : Dict K V) → All P d → All P (erase dec k d)
  unfolding erase
  All-erase P k [] h = tt
  All-erase P k (e ∷ d) h = elim (dec e.0 k) [
    | yes same ↦ rw (if_pos _ same) h.1
    | no other ↦ rw (if_neg _ other) (h.0, All-erase P k d h.1)
  ]

  pub All-lookup {κ} :
      (P : K × V → Type κ) (k : K) (v : V) (d : Dict K V)
      → All P d
      → lookup dec k d ≡ some v
      → P (k, v)
  All-lookup P k v [] h e = absurd (ground arith)
  All-lookup P k v ((j, w) ∷ d) h e = elim (dec j k) [
    | yes same ↦ subst P (ground arith) h.0
    | no other ↦ All-lookup P k v d h.1 (ground arith)
  ]
