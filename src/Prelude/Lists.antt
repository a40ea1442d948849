-- ===== src/Prelude/Lists.antt =====
-- Lists measured by native numbers, under the library's names, and decided membership.
use Prim.Native.Nat.{ℕ, zero, suc}
use mathlib.Core.Path.{◌≡◌, refl, sym}
use mathlib.Core.Logic.{ite}
use mathlib.Core.Bool.{Bool, true, false, ◌&&◌, ◌||◌}
use mathlib.Core.List.{List, [], ◌∷◌, ◌++◌}
use native.Mathlib.Omega.{arith}

module _ {ℓ} {A : Type ℓ} where
  abbrev pub length : List A → ℕ
  length [] = 0
  length (x ∷ xs) = suc (length xs)

  abbrev pub take : ℕ → List A → List A
  take zero xs = []
  take (suc n) [] = []
  take (suc n) (x ∷ xs) = x ∷ take n xs

-- `[x for x in xs if keep(x)]`
abbrev pub filter {ℓ} : {A : Type ℓ} → (A → Bool) → List A → List A
filter keep [] = []
filter keep (x ∷ xs) = elim (keep x) [ true ↦ x ∷ filter keep xs | false ↦ filter keep xs ]

-- Every element satisfies the predicate.
abbrev pub All {ℓ κ} : {A : Type ℓ} → (A → Type κ) → List A → Type κ
All P [] = Unit
All P (x ∷ xs) = P x × All P xs

module _ {ℓ} {A : Type ℓ} (dec : Discrete A) where
  -- `a in xs`
  abbrev pub mem : A → List A → Bool
  mem a [] = false
  mem a (x ∷ xs) = elim (dec x a) [ yes _ ↦ true | no _ ↦ mem a xs ]

  -- `xs.remove(a)`, or nothing where `a` is missing
  unfoldable pub remove : A → List A → List A
  remove a [] = []
  remove a (x ∷ xs) = ite (dec x a) xs (x ∷ remove a xs)

  -- No element stands twice.
  abbrev pub IsDistinct : List A → Type 0
  IsDistinct [] = Unit
  IsDistinct (x ∷ xs) = (mem x xs ≡ false) × IsDistinct xs

module _ {ℓ} {A : Type ℓ} (dec : Discrete A) where
  pub mem-append : (a : A) (xs ys : List A) → mem dec a (xs ++ ys) ≡ (mem dec a xs || mem dec a ys)
  mem-append a [] ys = ground arith
  mem-append a (x ∷ xs) ys = ground (arith, mem-append a xs ys)

  pub mem-remove_ne :
      (a b : A) (xs : List A) → ¬ (a ≡ b) → mem dec a (remove dec b xs) ≡ mem dec a xs
  unfolding remove
  mem-remove_ne a b [] h = ground arith
  mem-remove_ne a b (x ∷ xs) h = ground (arith, mem-remove_ne a b xs h)

  pub mem-remove_le :
      (a b : A) (xs : List A) → mem dec a xs ≡ false → mem dec a (remove dec b xs) ≡ false
  unfolding remove
  mem-remove_le a b [] h = ground arith
  mem-remove_le a b (x ∷ xs) h = ground (arith, mem-remove_le a b xs)

  pub mem-remove_self :
      (a : A) (xs : List A) → IsDistinct dec xs → mem dec a (remove dec a xs) ≡ false
  unfolding remove
  mem-remove_self a [] u = ground arith
  mem-remove_self a (x ∷ xs) u = ground (arith, mem-remove_self a xs u.1)

  pub remove-IsDistinct :
      (a : A) (xs : List A) → IsDistinct dec xs → IsDistinct dec (remove dec a xs)
  unfolding remove
  remove-IsDistinct a [] u = tt
  remove-IsDistinct a (x ∷ xs) u =
      ground (arith, remove-IsDistinct a xs u.1, mem-remove_le x a xs u.0)

  pub append-IsDistinct :
      (a : A) (xs : List A)
      → IsDistinct dec xs
      → mem dec a xs ≡ false
      → IsDistinct dec (xs ++ a ∷ [])
  append-IsDistinct a [] u h = ground arith
  append-IsDistinct a (x ∷ xs) u h =
      ground (arith, append-IsDistinct a xs u.1, mem-append x xs (a ∷ []))

  pub mem-filter :
      (keep : A → Bool) (a : A) (xs : List A)
      → mem dec a (filter keep xs) ≡ (mem dec a xs && keep a)
  mem-filter keep a [] = ground arith
  mem-filter keep a (x ∷ xs) = ground (arith, mem-filter keep a xs)

module _ {ℓ} {A : Type ℓ} where
  pub filter-filter :
      (keep also : A → Bool) (xs : List A)
      → filter also (filter keep xs) ≡ filter (λ x. keep x && also x) xs
  filter-filter keep also [] = refl
  filter-filter keep also (x ∷ xs) = ground (arith, filter-filter keep also xs)

  pub take-All {κ} : (P : A → Type κ) (n : ℕ) (xs : List A) → All P xs → All P (take n xs)
  take-All P zero xs h = tt
  take-All P (suc n) [] h = tt
  take-All P (suc n) (x ∷ xs) h = (h.0, take-All P n xs h.1)

module _ {ℓ} {A : Type ℓ} (dec : Discrete A) where
  pub All-at {κ} : (P : A → Type κ) (a : A) (xs : List A) → All P xs → mem dec a xs ≡ true → P a
  All-at P a [] hs h = absurd (ground arith)
  All-at P a (x ∷ xs) hs h = elim (dec x a) [
    | yes e ↦ rw (sym e) hs.0
    | no n ↦ All-at P a xs hs.1 (ground arith)
  ]

  pub All-of_mem {κ} :
      (P : A → Type κ) (xs : List A) → ((a : A) → mem dec a xs ≡ true → P a) → All P xs
  All-of_mem P [] f = tt
  All-of_mem P (x ∷ xs) f = (f x (ground arith), All-of_mem P xs (λ a h. f a (ground arith)))
