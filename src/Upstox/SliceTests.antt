-- ===== src/Upstox/SliceTests.antt =====
-- Slices of an order, and the theorem on them at a concrete order.
use inc_trade.Prelude.{ℕ, suc, ◌+◌, ◌≡◌, refl, true, false, none, [], ◌∷◌, ltb, arith}
use inc_trade.Prelude.Int.{ℤ, pos}
use inc_trade.Prelude.Result.{Result, ok, err}
use inc_trade.Upstox.Slices.{
  SliceOrderRequest, raises, slice_qty, freeze_qty, infer_freeze_qty, get_or_zero, place_children,
  place_slice_order,
}
use inc_trade.Upstox.Slices.Whole.{Slices, place_slice_order-Slices}

abbrev order : SliceOrderRequest
order = record { symbol = "TCS"; quantity = 4000; slice_quantity = pos 0 }

-- The client takes every order but the third.
abbrev client : ℕ → ℤ → Result ℕ ℕ
client call qty = elim (ltb call 2) [ true ↦ ok (90 + call) | false ↦ err 5 ]

freeze_of_tcs : slice_qty none order ≡ pos 1700
unfolding slice_qty freeze_qty infer_freeze_qty get_or_zero
freeze_of_tcs = refl

two_of_three :
    place_slice_order client 5000 true none order
    ≡ raises
        (record { order_id = 90; quantity = pos 1700 }
          ∷ record { order_id = 91; quantity = pos 1700 }
          ∷ [])
        5
unfolding place_slice_order slice_qty freeze_qty infer_freeze_qty get_or_zero place_children
two_of_three = refl

-- No freeze quantity is known, and the quantity is too small for ten slices.
abbrev small : SliceOrderRequest
small = record { symbol = "XYZ"; quantity = 4; slice_quantity = pos 0 }

slice_of_small : slice_qty none small ≡ pos 1
unfolding slice_qty freeze_qty infer_freeze_qty get_or_zero
slice_of_small = refl

place_slice_order-Slices_example :
    (slice : ℕ) × (slice_qty none order ≡ pos (suc slice))
    × Slices client (suc slice) 0 4000 (place_slice_order client 5000 true none order)
place_slice_order-Slices_example =
    place_slice_order-Slices client 5000 0 none order refl (omega arith)
