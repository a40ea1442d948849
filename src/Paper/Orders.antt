-- ===== src/Paper/Orders.antt =====
-- `PaperOrders` of brokers/paper/paper_orders.py without an order manager, so with the state kept
-- inside. The calls of a position manager are left out. What the central risk manager says of an
-- order, and the last price, are arguments of the call that asks for them.
pub mod Book
pub mod Settled
pub mod Lookup
use Prim.Native.String.{String}
use inc_trade.Prelude.{
  ℕ, ◌+◌, ◌*◌, Bool, true, false, ◌&&◌, Option, none, some, List, [], ◌∷◌, ◌++◌, ltb, ◌==◌,
  if◌then◌else◌,
}
use inc_trade.Prelude.Int.{ℤ, pos, neg_of_ℕ}
use inc_trade.Prelude.Dict.{Dict, lookup, insert}
use inc_trade.Prelude.Result.{Result, ok, err}
use inc_trade.Paper.Domain.{
  Side, buy, sell, Terms, Order, Trade, Domain, PaperOrders, ModifyError, not_found, not_open,
  Changes,
}

abbrev pub or_else : {A : Type 0} → Option A → A → A
or_else none old = old
or_else (some new) old = new

unfoldable pub new_paper_orders : {S T D V E P K : Type 0} → Dict K P → PaperOrders S T D V E P K
new_paper_orders positions = record {
  orders = [];
  trades = [];
  order_seq = 0;
  trade_seq = 0;
  positions = positions;
}

module _ {S T D V E P K : Type 0} (dom : Domain S T D V E P K) where
  abbrev pub delta_of : Side → ℕ → ℤ
  delta_of buy quantity = pos quantity
  delta_of sell quantity = neg_of_ℕ quantity

  -- `_update_position`
  unfoldable pub update_position :
      (symbol exchange : S) → Side → (quantity price : ℕ) → D → Dict K P → Dict K P
  update_position symbol exchange side quantity price product positions =
      let key = dom.key symbol exchange in
      let old =
        or_else (lookup dom.dec_key key positions) (dom.new_position symbol exchange product) in
      insert dom.dec_key key (dom.with_fill old (delta_of side quantity) price) positions

  -- The price of a fill: the limit, or the last price of the market data.
  unfoldable pub fill_price : Terms S T D V → ℕ → ℕ
  fill_price t ltp = if ltb 0 t.price && dom.is_limit t.order_type then t.price else ltp

  abbrev pub has_id : ℕ → Order S T D V E → Bool
  has_id id o = o.order_id == id

  abbrev pub is_open : Order S T D V E → Bool
  is_open o = elim (dom.dec_status o.status dom.open_status) [ yes _ ↦ true | no _ ↦ false ]

  -- An order is appended as filled, with its trade and its effect on the position.
  unfoldable pub record_fill :
      ℕ
      → Terms S T D V
      → ℕ
      → PaperOrders S T D V E P K
      → PaperOrders S T D V E P K × Order S T D V E
  unfolding update_position
  record_fill id t price s =
      let order : Order S T D V E = record {
        order_id = id;
        terms = t;
        status = dom.filled_status;
        filled_quantity = some t.quantity;
        avg_price = some price;
        reject_reason = none;
      } in
      let trade : Trade S D = record {
        trade_id = s.trade_seq + 1;
        order_id = id;
        symbol = t.symbol;
        exchange = t.exchange;
        side = t.side;
        quantity = t.quantity;
        price = price;
        trade_value = price * t.quantity;
        product_type = t.product_type;
      } in
      (
        record s {
          orders = s.orders ++ order ∷ [];
          trades = s.trades ++ trade ∷ [];
          trade_seq = s.trade_seq + 1;
          positions =
              update_position t.symbol t.exchange t.side t.quantity price t.product_type
                s.positions;
        },
        order,
      )

  -- An order that the risk check refuses is appended as rejected, with the reason.
  unfoldable pub record_rejection :
      ℕ
      → Terms S T D V
      → String
      → PaperOrders S T D V E P K
      → PaperOrders S T D V E P K × Order S T D V E
  record_rejection id t reason s =
      let order : Order S T D V E = record {
        order_id = id;
        terms = t;
        status = dom.rejected_status;
        filled_quantity = none;
        avg_price = none;
        reject_reason = some reason;
      } in
      (record s { orders = s.orders ++ order ∷ [] }, order)

  -- `_place_internal`, where the risk check refuses with a reason or does not.
  unfoldable pub place_order :
      Terms S T D V
      → Option String
      → ℕ
      → PaperOrders S T D V E P K
      → PaperOrders S T D V E P K × Order S T D V E
  unfolding fill_price record_fill record_rejection
  place_order t refusal ltp s =
      let id = s.order_seq + 1 in
      let s' : PaperOrders S T D V E P K = record s { order_seq = id } in
      elim refusal [
        | some reason ↦ record_rejection id t reason s'
        | none ↦ record_fill id t (fill_price t ltp) s'
      ]

  -- The first order that passes the test is changed; nothing if there is none.
  unfoldable pub change_first :
      (Order S T D V E → Bool)
      → (Order S T D V E → Order S T D V E)
      → List (Order S T D V E)
      → Option (List (Order S T D V E))
  change_first test change [] = none
  change_first test change (o ∷ os) =
      let rest = change_first test change os in
      if test o then some (change o ∷ os) else elim rest [ none ↦ none | some os' ↦ some (o ∷ os') ]

  unfoldable pub cancel_order : ℕ → PaperOrders S T D V E P K → PaperOrders S T D V E P K × Bool
  unfolding change_first
  cancel_order id s =
      elim (change_first (λ o. has_id id o && is_open o)
        (λ o. dom.with_status o dom.cancelled_status) s.orders) [
          | none ↦ (s, false)
          | some orders ↦ (record s { orders = orders }, true)
        ]

  unfoldable pub find_order : ℕ → List (Order S T D V E) → Option (Order S T D V E)
  find_order id [] = none
  find_order id (o ∷ os) = if has_id id o then some o else find_order id os

  unfoldable pub get_order : ℕ → PaperOrders S T D V E P K → Option (Order S T D V E)
  unfolding find_order
  get_order id s = find_order id s.orders

  unfoldable pub changed_terms : Changes T V → Terms S T D V → Terms S T D V
  changed_terms c t = record t {
    order_type = or_else c.order_type t.order_type;
    quantity = or_else c.quantity t.quantity;
    price = or_else c.price t.price;
    trigger_price = or_else c.trigger_price t.trigger_price;
    validity = or_else c.validity t.validity;
  }

  unfoldable pub modify_order :
      ℕ
      → Changes T V
      → Option String
      → ℕ
      → PaperOrders S T D V E P K
      → PaperOrders S T D V E P K × Result (ModifyError E) (Order S T D V E)
  unfolding change_first changed_terms record_fill record_rejection fill_price find_order
  modify_order id c refusal ltp s = elim (find_order id s.orders) [
    | none ↦ (s, err not_found)
    | some original ↦
        let cancels =
          change_first (has_id id) (λ o. dom.with_status o dom.cancelled_status) s.orders in
        let t = changed_terms c original.terms in
        let s' : PaperOrders S T D V E P K = record s {
          orders = or_else cancels s.orders;
          order_seq = s.order_seq + 1;
        } in
        let (after, order) = elim refusal as (λ _. PaperOrders S T D V E P K × Order S T D V E) [
          | some reason ↦ record_rejection (s.order_seq + 1) t reason s'
          | none ↦ record_fill (s.order_seq + 1) t (fill_price t ltp) s'
        ] in
        if is_open original then (after, ok order) else (s, err (not_open original.status))
  ]
