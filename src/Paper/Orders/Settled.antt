-- ===== src/Paper/Orders/Settled.antt =====
-- Every order of the paper broker is settled at once, so that none can be cancelled or modified.
use Prim.Native.String.{String}
use inc_trade.Prelude.{
  ℕ, ◌≡◌, ◌≢◌, subst, sym, refl, false, ◌&&◌, Option, none, some, List, [], ◌∷◌, ◌++◌, All, arith,
  inl, inr, Option-cases,
}
use inc_trade.Prelude.Dict.{Dict}
use inc_trade.Prelude.Result.{err}
use inc_trade.Paper.Domain.{
  Terms, Order, Domain, PaperOrders, ModifyError, not_found, not_open, Changes,
}
use inc_trade.Paper.Orders.{
  new_paper_orders, has_id, is_open, record_fill, record_rejection, place_order, change_first,
  cancel_order, find_order, modify_order,
}

-- A call that may change the book, with what the risk check and the market data say to it.
pub data Call (S T D V : Type 0) : Type 0 where
  places : Terms S T D V → Option String → ℕ → Call S T D V
  cancels : ℕ → Call S T D V
  modifies : ℕ → Changes T V → Option String → ℕ → Call S T D V

module _ {S T D V E P K : Type 0} (dom : Domain S T D V E P K) where
  unfoldable pub step : Call S T D V → PaperOrders S T D V E P K → PaperOrders S T D V E P K
  step (places t refusal ltp) s = (place_order dom t refusal ltp s).0
  step (cancels id) s = (cancel_order dom id s).0
  step (modifies id c refusal ltp) s = (modify_order dom id c refusal ltp s).0

  unfoldable pub run : List (Call S T D V) → PaperOrders S T D V E P K → PaperOrders S T D V E P K
  run [] s = s
  run (x ∷ xs) s = run xs (step x s)

  -- No order is open.
  abbrev pub AllSettled : List (Order S T D V E) → Type 0
  AllSettled orders = All (λ o. is_open dom o ≡ false) orders

  append-AllSettled :
      (os : List (Order S T D V E)) (o : Order S T D V E)
      → AllSettled os
      → is_open dom o ≡ false
      → AllSettled (os ++ o ∷ [])
  append-AllSettled [] o h k = (k, tt)
  append-AllSettled (x ∷ os) o h k = (h.0, append-AllSettled os o h.1 k)

  change_first-none :
      (id : ℕ) (change : Order S T D V E → Order S T D V E) (os : List (Order S T D V E))
      → AllSettled os
      → change_first dom (λ o. has_id dom id o && is_open dom o) change os ≡ none
  unfolding change_first
  change_first-none id change [] h = refl
  change_first-none id change (o ∷ os) h = ground (arith, h.0, change_first-none id change os h.1)

  find_order_settled :
      (id : ℕ) (os : List (Order S T D V E)) (o : Order S T D V E)
      → AllSettled os
      → find_order dom id os ≡ some o
      → is_open dom o ≡ false
  unfolding find_order
  find_order_settled id [] o h e = absurd (ground arith)
  find_order_settled id (x ∷ os) o h e = ground (arith, h.0, find_order_settled id os o h.1)

  pub cancel_order_settled :
      (id : ℕ) (s : PaperOrders S T D V E P K)
      → AllSettled s.orders
      → cancel_order dom id s ≡ (s, false)
  unfolding cancel_order
  cancel_order_settled id s h =
      ground (arith, change_first-none id (λ o. dom.with_status o dom.cancelled_status) s.orders h)

  pub modify_order_settled :
      (id : ℕ) (c : Changes T V) (refusal : Option String) (ltp : ℕ) (s : PaperOrders S T D V E P K)
      → AllSettled s.orders
      → (e : ModifyError E) × (modify_order dom id c refusal ltp s ≡ (s, err e))
  unfolding modify_order
  modify_order_settled id c refusal ltp s h = elim (Option-cases (find_order dom id s.orders)) [
    | inl missing ↦ (not_found, ground arith)
    | inr (o, found) ↦
        (not_open o.status, ground (arith, found, find_order_settled id s.orders o h found))
  ]

  module _ (filled_not_open : dom.filled_status ≢ dom.open_status)
      (rejected_not_open : dom.rejected_status ≢ dom.open_status) where
    place_order-AllSettled :
        (t : Terms S T D V) (refusal : Option String) (ltp : ℕ) (s : PaperOrders S T D V E P K)
        → AllSettled s.orders
        → AllSettled (place_order dom t refusal ltp s).0.orders
    unfolding place_order record_fill record_rejection
    place_order-AllSettled t none ltp s h =
        append-AllSettled s.orders _ h (ground (arith, filled_not_open))
    place_order-AllSettled t (some reason) ltp s h =
        append-AllSettled s.orders _ h (ground (arith, rejected_not_open))

    pub step-AllSettled :
        (x : Call S T D V) (s : PaperOrders S T D V E P K)
        → AllSettled s.orders
        → AllSettled (step x s).orders
    unfolding step
    step-AllSettled (places t refusal ltp) s h = place_order-AllSettled t refusal ltp s h
    step-AllSettled (cancels id) s h =
        subst (λ r. AllSettled r.0.orders) (sym (cancel_order_settled id s h)) h
    step-AllSettled (modifies id c refusal ltp) s h =
        subst (λ r. AllSettled r.0.orders) (sym (modify_order_settled id c refusal ltp s h).1) h

    pub run-AllSettled :
        (xs : List (Call S T D V)) (s : PaperOrders S T D V E P K)
        → AllSettled s.orders
        → AllSettled (run xs s).orders
    unfolding run
    run-AllSettled [] s h = h
    run-AllSettled (x ∷ xs) s h = run-AllSettled xs (step x s) (step-AllSettled x s h)

    -- Let the statuses of a filled and of a rejected order not be that of an open one. After any calls
    -- of a new book, no order can be cancelled: `cancel_order` answers False for every id and changes
    -- nothing.
    pub cancel_order-refuses :
        (xs : List (Call S T D V)) (positions : Dict K P) (id : ℕ)
        → let s = run xs (new_paper_orders positions) in cancel_order dom id s ≡ (s, false)
    unfolding new_paper_orders
    cancel_order-refuses xs positions id =
        let s = run xs (new_paper_orders positions) in
        cancel_order_settled id s (run-AllSettled xs (new_paper_orders positions) tt)

    -- Let the statuses of a filled and of a rejected order not be that of an open one. After any calls
    -- of a new book, `modify_order` raises for every id, and changes nothing.
    pub modify_order-raises :
        (xs : List (Call S T D V)) (positions : Dict K P) (id : ℕ) (c : Changes T V)
        (refusal : Option String) (ltp : ℕ)
        → let s = run xs (new_paper_orders positions) in
          (e : ModifyError E) × (modify_order dom id c refusal ltp s ≡ (s, err e))
    unfolding new_paper_orders
    modify_order-raises xs positions id c refusal ltp =
        let s = run xs (new_paper_orders positions) in
        modify_order_settled id c refusal ltp s (run-AllSettled xs (new_paper_orders positions) tt)
