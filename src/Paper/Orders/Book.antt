-- ===== src/Paper/Orders/Book.antt =====
-- The book of the paper broker: its orders, its trades and its positions belong together.
use Prim.Native.String.{String}
use inc_trade.Prelude.{
  ℕ, zero, suc, ◌+◌, ◌*◌, ◌≡◌, ◌≢◌, ◌∙◌, subst, sym, refl, ap, Bool, true, false, Option, none,
  some, List, [], ◌∷◌, ◌++◌, length, map, arith, if◌then◌else◌, inl, inr, Bool-cases,
}
use inc_trade.Prelude.Dict.{Dict}
use inc_trade.Paper.Domain.{Terms, Order, Trade, Domain, PaperOrders}
use inc_trade.Paper.Orders.{
  new_paper_orders, or_else, update_position, fill_price, record_fill, record_rejection,
  place_order,
}
use inc_trade.Paper.Orders.Settled.{
  Call, places, cancels, modifies, step, run, AllSettled, step-AllSettled, cancel_order_settled,
  modify_order_settled,
}

-- 1, …, n.
unfoldable pub upto : ℕ → List ℕ
upto zero = []
upto (suc n) = upto n ++ suc n ∷ []

module _ {S T D V E P K : Type 0} (dom : Domain S T D V E P K) where
  abbrev pub is_filled : Order S T D V E → Bool
  is_filled o = elim (dom.dec_status o.status dom.filled_status) [ yes _ ↦ true | no _ ↦ false ]

  -- The trade that settles a filled order.
  abbrev pub trade_of : ℕ → Order S T D V E → Trade S D
  trade_of n o = record {
    trade_id = n;
    order_id = o.order_id;
    symbol = o.terms.symbol;
    exchange = o.terms.exchange;
    side = o.terms.side;
    quantity = or_else o.filled_quantity 0;
    price = or_else o.avg_price 0;
    trade_value = or_else o.avg_price 0 * or_else o.filled_quantity 0;
    product_type = o.terms.product_type;
  }

  -- The trades of the filled orders, numbered in turn behind `n`.
  pub trades_of : ℕ → List (Order S T D V E) → List (Trade S D)
  trades_of n [] = []
  trades_of n (o ∷ os) =
      if is_filled o then trade_of (n + 1) o ∷ trades_of (n + 1) os else trades_of n os

  -- The positions after the trades.
  pub replay : List (Trade S D) → Dict K P → Dict K P
  replay [] positions = positions
  replay (t ∷ ts) positions =
      replay ts
        (update_position dom t.symbol t.exchange t.side t.quantity t.price t.product_type positions)

  -- The ids are 1, …, n in turn; the trades are those of the filled orders; the positions are what the
  -- trades make of the first ones.
  pub record IsBooked (first : Dict K P) (s : PaperOrders S T D V E P K) : Type 0 where
    pub ids : map (λ o. o.order_id) s.orders ≡ upto s.order_seq
    pub trades_match : s.trades ≡ trades_of 0 s.orders
    pub trade_count : s.trade_seq ≡ length s.trades
    pub replays : s.positions ≡ replay s.trades first

  map-append_one :
      (f : Order S T D V E → ℕ) (os : List (Order S T D V E)) (o : Order S T D V E)
      → map f (os ++ o ∷ []) ≡ map f os ++ f o ∷ []
  map-append_one f [] o = refl
  map-append_one f (x ∷ os) o = ap (λ ys. f x ∷ ys) (map-append_one f os o)

  length-append_one : {A : Type 0} (xs : List A) (x : A) → length (xs ++ x ∷ []) ≡ length xs + 1
  length-append_one [] x = omega arith
  length-append_one (y ∷ xs) x = omega (arith, length-append_one xs x)

  trades_of-filled :
      (n : ℕ) (os : List (Order S T D V E)) (o : Order S T D V E)
      → is_filled o ≡ true
      → trades_of n (os ++ o ∷ [])
        ≡ trades_of n os ++ trade_of (n + length (trades_of n os) + 1) o ∷ []
  unfolding trades_of
  trades_of-filled n [] o h = rw h (ap (λ m. trade_of m o ∷ []) (omega arith))
  trades_of-filled n (x ∷ os) o h = elim (Bool-cases (is_filled x)) [
    | inr not_filled ↦ rw not_filled (trades_of-filled n os o h)
    | inl fills ↦ rw fills (
        ap (λ ts. trade_of (n + 1) x ∷ ts)
          (trades_of-filled (n + 1) os o h
            ∙ ap (λ m. trades_of (n + 1) os ++ trade_of m o ∷ []) (omega arith)))
  ]

  trades_of-rejected :
      (n : ℕ) (os : List (Order S T D V E)) (o : Order S T D V E)
      → is_filled o ≡ false
      → trades_of n (os ++ o ∷ []) ≡ trades_of n os
  unfolding trades_of
  trades_of-rejected n [] o h = ground arith
  trades_of-rejected n (x ∷ os) o h =
      ground (arith, trades_of-rejected n os o h, trades_of-rejected (n + 1) os o h)

  replay-append_one :
      (ts : List (Trade S D)) (t : Trade S D) (positions : Dict K P)
      → replay (ts ++ t ∷ []) positions
        ≡ update_position dom t.symbol t.exchange t.side t.quantity t.price t.product_type
            (replay ts positions)
  unfolding replay
  replay-append_one [] t positions = refl
  replay-append_one (x ∷ ts) t positions = replay-append_one ts t _

  ids_next :
      (s : PaperOrders S T D V E P K) (o : Order S T D V E)
      → map (λ o. o.order_id) s.orders ≡ upto s.order_seq
      → o.order_id ≡ s.order_seq + 1
      → map (λ o. o.order_id) (s.orders ++ o ∷ []) ≡ upto (s.order_seq + 1)
  unfolding upto
  ids_next s o h e =
      let next : s.order_seq + 1 ≡ suc s.order_seq = omega arith in
      map-append_one (λ o. o.order_id) s.orders o
      ∙ ap (λ ys. ys ++ o.order_id ∷ []) h
      ∙ ap (λ m. upto s.order_seq ++ m ∷ []) (e ∙ next)
      ∙ sym (ap upto next)

  pub place_order-IsBooked :
      (first : Dict K P) (t : Terms S T D V) (refusal : Option String) (ltp : ℕ)
      (s : PaperOrders S T D V E P K)
      → dom.rejected_status ≢ dom.filled_status
      → IsBooked first s
      → IsBooked first (place_order dom t refusal ltp s).0
  unfolding place_order record_fill record_rejection
  place_order-IsBooked first t (some reason) ltp s ne h =
      let o : Order S T D V E = (place_order dom t (some reason) ltp s).1 in
      record {
        ids = ids_next s o h.ids refl;
        trades_match = h.trades_match ∙ sym (trades_of-rejected 0 s.orders o (ground (arith, ne)));
        trade_count = h.trade_count;
        replays = h.replays;
      }
  place_order-IsBooked first t none ltp s ne h =
      let o : Order S T D V E = (place_order dom t none ltp s).1 in
      let trade : Trade S D = trade_of (s.trade_seq + 1) o in
      let number : s.trade_seq + 1 ≡ 0 + length (trades_of 0 s.orders) + 1 =
        omega (arith, h.trade_count, ap length h.trades_match) in
      record {
        ids = ids_next s o h.ids refl;
        trades_match =
            ap (λ ts. ts ++ trade ∷ []) h.trades_match
            ∙ ap (λ m. trades_of 0 s.orders ++ trade_of m o ∷ []) number
            ∙ sym (trades_of-filled 0 s.orders o (ground arith));
        trade_count = omega (arith, h.trade_count, length-append_one s.trades trade);
        replays =
            ap
              (update_position dom t.symbol t.exchange t.side t.quantity (fill_price dom t ltp)
                t.product_type)
              h.replays
            ∙ sym (replay-append_one s.trades trade first);
      }

  run-IsBooked_from :
      (first : Dict K P) (xs : List (Call S T D V)) (s : PaperOrders S T D V E P K)
      → dom.filled_status ≢ dom.open_status
      → dom.rejected_status ≢ dom.open_status
      → dom.rejected_status ≢ dom.filled_status
      → AllSettled dom s.orders
      → IsBooked first s
      → IsBooked first (run dom xs s)
  unfolding run step
  run-IsBooked_from first [] s fo ro rf settled h = h
  run-IsBooked_from first (places t refusal ltp ∷ xs) s fo ro rf settled h =
      run-IsBooked_from first xs (place_order dom t refusal ltp s).0 fo ro rf
        (step-AllSettled dom fo ro (places t refusal ltp) s settled)
        (place_order-IsBooked first t refusal ltp s rf h)
  run-IsBooked_from first (cancels id ∷ xs) s fo ro rf settled h =
      subst (λ r. IsBooked first (run dom xs r.0)) (sym (cancel_order_settled dom id s settled))
        (run-IsBooked_from first xs s fo ro rf settled h)
  run-IsBooked_from first (modifies id c refusal ltp ∷ xs) s fo ro rf settled h =
      subst (λ r. IsBooked first (run dom xs r.0))
        (sym (modify_order_settled dom id c refusal ltp s settled).1)
        (run-IsBooked_from first xs s fo ro rf settled h)

  -- Let the statuses filled, rejected and open be three. After any calls of a new book, the orders
  -- have the ids 1, 2, … in turn; the trades are exactly those of the filled orders, in turn, with
  -- their quantities and prices; and the positions are what these trades make of the first ones.
  pub run-IsBooked :
      (first : Dict K P) (xs : List (Call S T D V))
      → dom.filled_status ≢ dom.open_status
      → dom.rejected_status ≢ dom.open_status
      → dom.rejected_status ≢ dom.filled_status
      → IsBooked first (run dom xs (new_paper_orders first))
  unfolding new_paper_orders upto trades_of replay
  run-IsBooked first xs fo ro rf =
      run-IsBooked_from first xs (new_paper_orders first) fo ro rf tt
        (record { ids = refl; trades_match = refl; trade_count = refl; replays = refl })
