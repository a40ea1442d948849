-- ===== src/Upstox/Slices/Whole.antt =====
-- The children of a sliced order make up the order.
use inc_trade.Prelude.{
  ℕ, zero, suc, ◌+◌, ◌-◌, ◌*◌, ◌≤◌, ◌<◌, ◌/◌, min, max, ◌≡◌, ◌≢◌, ap, subst, refl, true, Option,
  List, [], ◌∷◌, All, length, arith, inl, inr, Result-cases,
}
use inc_trade.Prelude.Int.{ℤ, pos, negsuc}
use inc_trade.Prelude.Result.{Result, err}
use inc_trade.Upstox.Slices.{
  SliceOrderRequest, Child, Slicing, returns, raises, stuck, slice_qty, freeze_qty, or_else,
  with_child, place_children, place_slice_order,
}

-- The quantities that have been placed, in all.
abbrev pub total : {V : Type 0} → List (Child V) → ℕ
total [] = 0
total (c ∷ cs) = elim c.quantity [ pos n ↦ n | negsuc _ ↦ 0 ] + total cs

-- A quantity of at least 1 and at most the slice.
abbrev pub Fits : {V : Type 0} → ℕ → Child V → Type 0
Fits slice c = (q : ℕ) × (c.quantity ≡ pos q) × (1 ≤ q) × (q ≤ slice)

-- A slice more is needed only for what the slices before it leave.
fewest :
    (n slice remaining : ℕ)
    → 1 ≤ remaining
    → n * slice < remaining - min slice remaining + slice
    → suc n * slice < remaining + slice
fewest zero slice remaining h p = omega arith
fewest (suc n) slice remaining h p = grind arith

or_else-pos : (a b : ℕ) → (slice : ℕ) × (or_else a (max 1 b) ≡ suc slice)
or_else-pos (suc a) b = (a, refl)
or_else-pos zero zero = (0, refl)
or_else-pos zero (suc b) = (b, omega arith)

module _ {E V : Type 0} (place_order : ℕ → ℤ → Result E V) where
  -- The right end of slicing `remaining` from the given call on: all of it is placed in slices, as few as will do; or
  -- the call after the last child has raised, and less than all has been placed.
  abbrev pub Slices : ℕ → ℕ → ℕ → Slicing E V → Type 0
  Slices slice call remaining (returns cs) =
      (total cs ≡ remaining) × All (Fits slice) cs × (length cs * slice < remaining + slice)
  Slices slice call remaining (raises cs e) =
      (total cs < remaining)
      × All (Fits slice) cs
      × ((q : ℕ) × (place_order (call + length cs) (pos q) ≡ err e))
  Slices slice call remaining stuck = ⊥

  with_child-Slices :
      (slice call remaining : ℕ) (v : V) (x : Slicing E V)
      → Slices (suc slice) (suc call) (suc remaining - min (suc slice) (suc remaining)) x
      → Slices
          (suc slice)
          call
          (suc remaining)
          (with_child (record { order_id = v; quantity = pos (min (suc slice) (suc remaining)) }) x)
  with_child-Slices slice call remaining v (returns cs) (h0, h1, h2) = (
    omega arith,
    ((min (suc slice) (suc remaining), refl, omega arith, omega arith), h1),
    fewest (length cs) (suc slice) (suc remaining) (omega arith) h2,
  )
  with_child-Slices slice call remaining v (raises cs e) (h0, h1, h2) = (
    omega arith,
    ((min (suc slice) (suc remaining), refl, omega arith, omega arith), h1),
    (h2.0, subst (λ k. place_order k (pos h2.0) ≡ err e) (omega arith) h2.1),
  )
  with_child-Slices slice call remaining v stuck h = h

  pub place_children-Slices :
      (fuel slice call remaining : ℕ)
      → remaining < fuel
      → Slices
          (suc slice)
          call
          remaining
          (place_children place_order fuel (pos (suc slice)) call remaining)
  unfolding place_children
  place_children-Slices zero slice call remaining h = elim h [ ]
  place_children-Slices (suc fuel) slice call zero h = (refl, tt, omega arith)
  place_children-Slices (suc fuel) slice call (suc remaining) h =
      let qty = pos (min (suc slice) (suc remaining)) in
      elim (Result-cases (place_order call qty)) [
        | inr (e, f) ↦ rw f (
          omega arith,
          tt,
          (
            min (suc slice) (suc remaining),
            subst (λ k. place_order k (pos (min (suc slice) (suc remaining))) ≡ err e) (omega arith)
                f,
          ),
        )
        | inl (v, f) ↦ rw f (
            with_child-Slices slice call remaining v _ (
              place_children-Slices fuel slice (suc call)
                (suc remaining - min (suc slice) (suc remaining)) (omega arith)))
      ]

  -- The slice of a request whose slice quantity is not negative is 1 at least.
  slice_qty-pos :
      (freeze : Option ℕ) (n : ℕ) (request : SliceOrderRequest)
      → request.slice_quantity ≡ pos n
      → (slice : ℕ) × (slice_qty freeze request ≡ pos (suc slice))
  unfolding slice_qty
  slice_qty-pos freeze (suc n) request e = (n, rw (slice_qty, e) refl)
  slice_qty-pos freeze zero request e =
      let (slice, f) = or_else-pos (freeze_qty freeze request.symbol) (request.quantity / 10) in
      (slice, rw (slice_qty, e) (ap (λ n. pos n) f))

  -- A sliced order with an instrument key, whose slice quantity is not negative, has a slice of 1 at least, and ends in
  -- as many rounds as its quantity and one more: all of it is placed, in children of at least 1 and at most the slice, and
  -- no child more than is needed; or the client has raised, and less than all has been placed by then.
  pub place_slice_order-Slices :
      (fuel n : ℕ) (freeze : Option ℕ) (request : SliceOrderRequest)
      → request.slice_quantity ≡ pos n
      → request.quantity < fuel
      → (slice : ℕ) × (slice_qty freeze request ≡ pos (suc slice))
        × Slices
            (suc slice)
            0
            request.quantity
            (place_slice_order place_order fuel true freeze request)
  unfolding place_slice_order
  place_slice_order-Slices fuel n freeze request e h =
      let (slice, f) = slice_qty-pos freeze n request e in
      (slice, f, rw f (place_children-Slices fuel slice 0 request.quantity h))

  place_children-stuck :
      (fuel n call remaining : ℕ)
      → ((k : ℕ) (q : ℤ) (e : E) → place_order k q ≢ err e)
      → place_children place_order fuel (negsuc n) call (suc remaining) ≡ stuck
  unfolding place_children
  place_children-stuck zero n call remaining h = refl
  place_children-stuck (suc fuel) n call remaining h =
      elim (Result-cases (place_order call (negsuc n))) [
        | inr (e, f) ↦ absurd (h call (negsuc n) e f)
        | inl (v, f) ↦ rw f (
            subst
              (λ k.
                with_child (record { order_id = v; quantity = negsuc n })
                  (place_children place_order fuel (negsuc n) (suc call) k)
                ≡ stuck)
              (omega arith)
              (ap (λ x. with_child (record { order_id = v; quantity = negsuc n }) x)
                (place_children-stuck fuel n (suc call) (remaining + suc n) h)))
      ]

  -- A sliced order with a slice quantity below 0 never ends, unless the client raises.
  pub place_slice_order-stuck :
      (fuel n : ℕ) (freeze : Option ℕ) (request : SliceOrderRequest)
      → request.slice_quantity ≡ negsuc n
      → 1 ≤ request.quantity
      → ((k : ℕ) (q : ℤ) (e : E) → place_order k q ≢ err e)
      → place_slice_order place_order fuel true freeze request ≡ stuck
  unfolding place_slice_order slice_qty
  place_slice_order-stuck fuel n freeze request e h safe =
      let whole : suc (request.quantity - 1) ≡ request.quantity = omega arith in
      rw (slice_qty, e)
        (subst (λ q. place_children place_order fuel (negsuc n) 0 q ≡ stuck) whole
          (place_children-stuck fuel n 0 (request.quantity - 1) safe))
