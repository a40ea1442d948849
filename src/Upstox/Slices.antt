-- ===== src/Upstox/Slices.antt =====
-- `UpstoxSliceAdapter` of brokers/upstox/orders/slice_adapter.py. What a child order has besides its quantity is
-- the same for all children, and left out; the order client answers the k-th call with an order id (`V`), or raises.
-- The sleep between two calls is left out. A quantity below 0 makes no order, as 0 does.
pub mod Whole
use Prim.Native.String.{String}
use text.Mathlib.Text.{◌==◌}
use inc_trade.Prelude.{
  ℕ, zero, suc, ◌+◌, ◌-◌, ◌/◌, min, max, Bool, true, false, Option, none, some, List, [], ◌∷◌,
  if◌then◌else◌,
}
use inc_trade.Prelude.Int.{ℤ, pos, negsuc}
use inc_trade.Prelude.Result.{Result, ok, err}

pub record SliceOrderRequest : Type 0 where
  pub symbol : String
  pub quantity : ℕ
  pub slice_quantity : ℤ

-- An `Order` of the answer: its id and its quantity.
pub record Child (V : Type 0) : Type 0 where
  pub order_id : V
  pub quantity : ℤ

-- The method returns the children, or raises when some have been placed, or does not end in so many rounds.
pub data Slicing (E V : Type 0) : Type 0 where
  returns : List (Child V) → Slicing E V
  raises : List (Child V) → E → Slicing E V
  stuck : Slicing E V

-- `well_known.get(symbol, 0)`
unfoldable pub get_or_zero : String → List (String × ℕ) → ℕ
get_or_zero k [] = 0
get_or_zero k ((j, v) ∷ m) = if j == k then v else get_or_zero k m

-- `_infer_freeze_qty`, of a symbol that `normalize_symbol` has been through.
unfoldable pub infer_freeze_qty : String → ℕ
unfolding get_or_zero
infer_freeze_qty symbol = get_or_zero symbol (
    ("RELIANCE", 1800)
    ∷ ("TCS", 1700)
    ∷ ("HDFCBANK", 5500)
    ∷ ("INFY", 7000)
    ∷ ("ICICIBANK", 27000)
    ∷ ("SBIN", 15000)
    ∷ ("HDFC", 5500)
    ∷ ("BHARTIARTL", 18300)
    ∷ ("ITC", 32000)
    ∷ [])

-- `a or b` on quantities that are not negative.
abbrev pub or_else : ℕ → ℕ → ℕ
or_else zero b = b
or_else (suc a) b = suc a

-- `freeze_qty`: of the definition, if there is one that has it, or inferred.
unfoldable pub freeze_qty : Option ℕ → String → ℕ
unfolding infer_freeze_qty
freeze_qty none symbol = infer_freeze_qty symbol
freeze_qty (some n) symbol = or_else n (infer_freeze_qty symbol)

-- `slice_qty`
unfoldable pub slice_qty : Option ℕ → SliceOrderRequest → ℤ
unfolding freeze_qty
slice_qty freeze request = elim request.slice_quantity [
  | pos zero ↦ pos (or_else (freeze_qty freeze request.symbol) (max 1 (request.quantity / 10)))
  | pos (suc n) ↦ pos (suc n)
  | negsuc n ↦ negsuc n
]

-- `min(slice_qty, remaining)`, and `remaining` after it is taken off.
abbrev pub next_qty : ℤ → ℕ → ℤ
next_qty (pos n) remaining = pos (min n remaining)
next_qty (negsuc n) remaining = negsuc n

abbrev pub next_remaining : ℤ → ℕ → ℕ
next_remaining (pos n) remaining = remaining - min n remaining
next_remaining (negsuc n) remaining = remaining + suc n

abbrev pub with_child : {E V : Type 0} → Child V → Slicing E V → Slicing E V
with_child c (returns cs) = returns (c ∷ cs)
with_child c (raises cs e) = raises (c ∷ cs) e
with_child c stuck = stuck

module _ {E V : Type 0} (place_order : ℕ → ℤ → Result E V) where
  -- What comes of a call, with what the later rounds come to.
  abbrev pub placed : ℤ → Result E V → Slicing E V → Slicing E V
  placed qty (err e) rest = raises [] e
  placed qty (ok v) rest = with_child (record { order_id = v; quantity = qty }) rest

  -- The loop, in at most so many rounds.
  unfoldable pub place_children : ℕ → ℤ → ℕ → ℕ → Slicing E V
  place_children zero slice call remaining = stuck
  place_children (suc fuel) slice call remaining =
      let rest = place_children fuel slice (suc call) (next_remaining slice remaining) in
      let qty = next_qty slice remaining in
      elim remaining [ zero ↦ returns [] | suc _ ↦ placed qty (place_order call qty) rest ]

  -- `place_slice_order`, where there is an instrument key or none, and the freeze quantity of its definition.
  unfoldable pub place_slice_order : ℕ → Bool → Option ℕ → SliceOrderRequest → Slicing E V
  unfolding place_children slice_qty
  place_slice_order fuel has_key freeze request =
      if has_key
      then place_children fuel (slice_qty freeze request) 0 request.quantity
      else returns []
