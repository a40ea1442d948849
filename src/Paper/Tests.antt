-- ===== src/Paper/Tests.antt =====
-- A book over statuses that are numbers, and the theorems at concrete inputs.
use inc_trade.Prelude.{ℕ, ◌≡◌, ◌≢◌, refl, none, some, List, [], ◌∷◌, ◌==◌, arith, ℕ_discrete}
use inc_trade.Prelude.Int.{ℤ, pos, ◌+ℤ◌}
use inc_trade.Prelude.Dict.{insert}
use inc_trade.Paper.Domain.{buy, sell, Terms, Domain, PaperOrders, Changes}
use inc_trade.Paper.Orders.{
  new_paper_orders, update_position, fill_price, record_fill, record_rejection, place_order,
  change_first, cancel_order, find_order, modify_order,
}
use inc_trade.Paper.Orders.Settled.{Call, places, cancels, modifies, step, run}
use inc_trade.Paper.Orders.Book.{IsBooked, run-IsBooked}

pair_discrete : Discrete (ℕ × ℕ)
pair_discrete = hlevel ℕ_discrete

-- Order type 1 is a limit order; a position is a quantity.
abbrev domain : Domain ℕ ℕ ℕ ℕ ℕ ℤ (ℕ × ℕ)
domain = record {
  is_limit = λ t. t == 1;
  dec_status = ℕ_discrete;
  open_status = 0;
  filled_status = 1;
  rejected_status = 2;
  cancelled_status = 3;
  with_status = λ o e. record o { status = e };
  dec_key = pair_discrete;
  key = λ symbol exchange. (symbol, exchange);
  new_position = λ symbol exchange product. pos 0;
  with_fill = λ p quantity price. p +ℤ quantity;
}

filled_not_open : domain.filled_status ≢ domain.open_status
filled_not_open = ground arith

rejected_not_open : domain.rejected_status ≢ domain.open_status
rejected_not_open = ground arith

rejected_not_filled : domain.rejected_status ≢ domain.filled_status
rejected_not_filled = ground arith

abbrev terms : Terms ℕ ℕ ℕ ℕ
terms = record {
  symbol = 5;
  exchange = 6;
  side = buy;
  order_type = 1;
  quantity = 10;
  price = 99;
  trigger_price = 0;
  product_type = 0;
  validity = 0;
  correlation_id = none;
}

abbrev changes : Changes ℕ ℕ
changes = record {
  quantity = some 3;
  price = none;
  order_type = none;
  trigger_price = none;
  validity = none;
}

abbrev calls : List (Call ℕ ℕ ℕ ℕ)
calls =
    places terms none 100
    ∷ places terms (some "limit reached") 100
    ∷ cancels 1
    ∷ modifies 1 changes none 100
    ∷ places (record terms { side = sell; quantity = 4; price = 0 }) none 101
    ∷ []

abbrev book : PaperOrders ℕ ℕ ℕ ℕ ℕ ℤ (ℕ × ℕ)
book = run domain calls (new_paper_orders [])

book_test :
    (book.order_seq ≡ 3)
    × (book.trade_seq ≡ 2)
    × (book.positions ≡ ((5, 6), pos 6) ∷ [])
    × ((place_order domain terms none 100 book).1.avg_price ≡ some 99)
    × ((place_order domain (record terms { order_type = 2 }) none 100 book).1.avg_price ≡ some 100)
unfolding run step place_order cancel_order modify_order change_first find_order record_fill
    record_rejection update_position fill_price new_paper_orders insert pair_discrete ℕ_discrete
    ◌+ℤ◌
book_test = (refl, refl, refl, refl, refl)

run-IsBooked_example : IsBooked domain [] book
run-IsBooked_example =
    run-IsBooked domain [] calls filled_not_open rejected_not_open rejected_not_filled
