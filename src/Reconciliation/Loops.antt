-- ===== src/Reconciliation/Loops.antt =====
-- A loop of the engine reports of each key what its body says of the entry.
use inc_trade.Prelude.{
  ◌≡◌, ◌∙◌, subst, refl, sym, ap, Bool, true, false, ◌&&◌, Option, none, some, List, [], ◌∷◌, ◌++◌,
  filter, mem, IsDistinct, arith, if◌then◌else◌, inl, inr, Bool-cases, ite,
}
use inc_trade.Prelude.Dict.{Dict, keys, lookup, insert, lookup-insert, insert-IsDistinct}
use inc_trade.Reconciliation.{DriftItem, collect, fill}

pub filter-append :
    {A : Type 0} (keep : A → Bool) (xs ys : List A)
    → filter keep (xs ++ ys) ≡ filter keep xs ++ filter keep ys
filter-append keep [] ys = refl
filter-append keep (x ∷ xs) ys = ground (arith, filter-append keep xs ys)

append_nil : {A : Type 0} (xs : List A) → xs ++ [] ≡ xs
append_nil [] = refl
append_nil (x ∷ xs) = ap (λ ys. x ∷ ys) (append_nil xs)

abbrev pub is : {K : Type 0} → Discrete K → K → K → Bool
is dec k j = elim (dec k j) [ yes _ ↦ true | no _ ↦ false ]

-- The items about one subject.
abbrev pub about : {K S : Type 0} → Discrete K → K → List (DriftItem K S) → List (DriftItem K S)
about dec k items = filter (λ i. is dec i.subject k) items

module _ {K V : Type 0} (dec : Discrete K) where
  pub fill-IsDistinct :
      (key : V → K) (counts : V → Bool) (d : Dict K V) (xs : List V)
      → IsDistinct dec (keys d)
      → IsDistinct dec (keys (fill dec key counts d xs))
  fill-IsDistinct key counts d [] u = u
  fill-IsDistinct key counts d (x ∷ xs) u =
      fill-IsDistinct key counts (if counts x then insert dec (key x) x d else d) xs
        (ground (arith, u, insert-IsDistinct dec (key x) x d u))

  -- The last row with the key.
  pub latest : (V → K) → (V → Bool) → K → Option V → List V → Option V
  latest key counts k found [] = found
  latest key counts k found (x ∷ xs) =
      latest key counts k (if counts x && is dec (key x) k then some x else found) xs

  pub lookup-fill :
      (key : V → K) (counts : V → Bool) (k : K) (d : Dict K V) (xs : List V)
      → lookup dec k (fill dec key counts d xs) ≡ latest key counts k (lookup dec k d) xs
  unfolding latest
  lookup-fill key counts k d [] = refl
  lookup-fill key counts k d (x ∷ xs) =
      lookup-fill key counts k (if counts x then insert dec (key x) x d else d) xs
      ∙ ap (λ o. latest key counts k o xs) (ground (arith, lookup-insert dec k (key x) x d))

-- No item is about anything, so there is none.
pub no_items :
    {K S : Type 0} (dec : Discrete K) (items : List (DriftItem K S))
    → ((k : K) → about dec k items ≡ [])
    → items ≡ []
no_items dec [] h = refl
no_items dec (i ∷ items) h = absurd (ground (arith, h i.subject))

-- Rows stand under their keys.
abbrev pub Keyed : {K V : Type 0} → (V → K) → Dict K V → Type 0
Keyed key [] = Unit
Keyed key (e ∷ d) = (key e.1 ≡ e.0) × Keyed key d

module _ {K V : Type 0} (dec : Discrete K) where
  insert-Keyed :
      (key : V → K) (v : V) (d : Dict K V) → Keyed key d → Keyed key (insert dec (key v) v d)
  unfolding insert
  insert-Keyed key v [] h = (refl, tt)
  insert-Keyed key v (e ∷ d) h =
      elim (dec e.0 (key v))
        as (λ x. Keyed key (ite x ((key v, v) ∷ d) (e ∷ insert dec (key v) v d))) [
          | yes same ↦ (refl, h.1)
          | no other ↦ (h.0, insert-Keyed key v d h.1)
        ]

  pub fill-Keyed :
      (key : V → K) (counts : V → Bool) (d : Dict K V) (xs : List V)
      → Keyed key d
      → Keyed key (fill dec key counts d xs)
  fill-Keyed key counts d [] h = h
  fill-Keyed key counts d (x ∷ xs) h = elim (Bool-cases (counts x)) [
    | inl yes' ↦
        rw yes' (fill-Keyed key counts (insert dec (key x) x d) xs (insert-Keyed key x d h))
    | inr no' ↦ rw no' (fill-Keyed key counts d xs h)
  ]

module _ {K V S : Type 0} (dec : Discrete K) where
  -- The loop body reports only about the key.
  abbrev pub Reports : (K → V → List (DriftItem K S)) → Dict K V → Type 0
  Reports f [] = Unit
  Reports f (e ∷ d) =
      ((j : K) → about dec j (f e.0 e.1) ≡ (if is dec e.0 j then f e.0 e.1 else [])) × Reports f d

  about-collect_missing :
      (f : K → V → List (DriftItem K S)) (d : Dict K V) (k : K)
      → Reports f d
      → mem dec k (keys d) ≡ false
      → about dec k (collect f d) ≡ []
  about-collect_missing f [] k r h = refl
  about-collect_missing f (e ∷ d) k r h = ground (
    arith,
    r.0 k,
    filter-append (λ i. is dec i.subject k) (f e.0 e.1) (collect f d),
    about-collect_missing f d k r.1,
  )

  -- Of a dictionary, the loop reports of a key what its body says of the entry.
  pub about-collect :
      (f : K → V → List (DriftItem K S)) (d : Dict K V) (k : K)
      → Reports f d
      → IsDistinct dec (keys d)
      → about dec k (collect f d) ≡ (elim (lookup dec k d) [ none ↦ [] | some v ↦ f k v ])
  about-collect f [] k r u = refl
  about-collect f (e ∷ d) k r u = elim (dec e.0 k) [
    | yes same ↦
        let gone : mem dec k (keys d) ≡ false = rw (sym same) u.0 in
        ground (
          arith,
          r.0 k,
          filter-append (λ i. is dec i.subject k) (f e.0 e.1) (collect f d),
          about-collect_missing f d k r.1 gone,
          append_nil (f k e.1),
        )
    | no other ↦ ground (
      arith,
      r.0 k,
      filter-append (λ i. is dec i.subject k) (f e.0 e.1) (collect f d),
      about-collect f d k r.1 u.1,
    )
  ]

  pub Reports-all :
      (f : K → V → List (DriftItem K S)) (d : Dict K V)
      → ((k : K) (v : V) (j : K) → about dec j (f k v) ≡ (if is dec k j then f k v else []))
      → Reports f d
  Reports-all f [] h = tt
  Reports-all f (e ∷ d) h = (h e.0 e.1, Reports-all f d h)

  pub Reports-Keyed :
      (f : K → V → List (DriftItem K S)) (key : V → K) (d : Dict K V)
      → Keyed key d
      → ((v : V) (j : K)
          → about dec j (f (key v) v) ≡ (if is dec (key v) j then f (key v) v else []))
      → Reports f d
  Reports-Keyed f key [] h g = tt
  Reports-Keyed f key (e ∷ d) h g = (
    λ j. subst (λ k. about dec j (f k e.1) ≡ (if is dec k j then f k e.1 else [])) h.0 (g e.1 j),
    Reports-Keyed f key d h.1 g,
  )
