-- ===== src/Paper/Orders/Lookup.antt =====
-- What the paper broker finds under an order id.
use Prim.Native.String.{String}
use inc_trade.Prelude.{
  ℕ, zero, suc, ◌+◌, ◌≤◌, ◌<◌, ◌≡◌, subst, sym, refl, Option, none, some, List, [], ◌∷◌, ◌++◌, All,
  map, arith, if◌then◌else◌,
}
use inc_trade.Prelude.Dict.{Dict}
use inc_trade.Paper.Domain.{Terms, Order, Domain, PaperOrders}
use inc_trade.Paper.Orders.{
  has_id, record_fill, record_rejection, place_order, find_order, get_order,
}
use inc_trade.Paper.Orders.Book.{upto, IsBooked}

All-append_one :
    (n : ℕ) (xs : List ℕ) (x : ℕ)
    → All (λ i. i ≤ n) xs
    → x ≤ n + 1
    → All (λ i. i ≤ n + 1) (xs ++ x ∷ [])
All-append_one n [] x h k = (k, tt)
All-append_one n (y ∷ xs) x h k = (omega (arith, h.0), All-append_one n xs x h.1 k)

upto-le : (n : ℕ) → All (λ i. i ≤ n) (upto n)
unfolding upto
upto-le zero = tt
upto-le (suc n) =
    subst (λ m. All (λ i. i ≤ m) (upto n ++ suc n ∷ [])) (omega arith)
      (All-append_one n (upto n) (suc n) (upto-le n) (omega arith))

module _ {S T D V E P K : Type 0} (dom : Domain S T D V E P K) where
  find_order_above :
      (n j : ℕ) (os : List (Order S T D V E))
      → All (λ i. i ≤ n) (map (λ o. o.order_id) os)
      → n < j
      → find_order dom j os ≡ none
  unfolding find_order
  find_order_above n j [] h k = refl
  find_order_above n j (o ∷ os) h k = ground (arith, h.0, find_order_above n j os h.1 k)

  find_order-append :
      (j : ℕ) (os : List (Order S T D V E)) (o : Order S T D V E)
      → find_order dom j (os ++ o ∷ []) ≡ (elim (find_order dom j os) [
        | some x ↦ some x
        | none ↦ if has_id dom j o then some o else none
      ])
  unfolding find_order
  find_order-append j [] o = refl
  find_order-append j (x ∷ os) o = ground (arith, find_order-append j os o)

  append_found :
      (n j : ℕ) (os : List (Order S T D V E)) (o : Order S T D V E)
      → map (λ o. o.order_id) os ≡ upto n
      → o.order_id ≡ n + 1
      → find_order dom j (os ++ o ∷ []) ≡ (if has_id dom j o then some o else find_order dom j os)
  append_found n j os o h e =
      let low = subst (λ ys. All (λ i. i ≤ n) ys) (sym h) (upto-le n) in
      ground (arith, e, find_order-append j os o, find_order_above n (n + 1) os low)

  -- On a book in order, the order that `place_order` returns is found under its id, filled or rejected,
  -- and every other id finds what it found before.
  pub get_order-place_order :
      (first : Dict K P) (t : Terms S T D V) (refusal : Option String) (ltp : ℕ)
      (s : PaperOrders S T D V E P K) (j : ℕ)
      → IsBooked dom first s
      → let (after, order) = place_order dom t refusal ltp s in
        get_order dom j after ≡ (if has_id dom j order then some order else get_order dom j s)
  unfolding get_order place_order record_fill record_rejection
  get_order-place_order first t (some reason) ltp s j h =
      append_found s.order_seq j s.orders (place_order dom t (some reason) ltp s).1 h.ids refl
  get_order-place_order first t none ltp s j h =
      append_found s.order_seq j s.orders (place_order dom t none ltp s).1 h.ids refl
