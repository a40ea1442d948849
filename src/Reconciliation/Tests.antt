-- ===== src/Reconciliation/Tests.antt =====
-- Comparisons of short lists, and the theorems at concrete inputs. An id 0 is no id, and status 1 is
-- that of a working order.
use inc_trade.Prelude.{ℕ, ◌≡◌, refl, Bool, not, none, some, List, [], ◌∷◌, ◌==◌, ◌↔◌, ℕ_discrete}
use inc_trade.Prelude.Int.{ℤ, pos, negsuc}
use inc_trade.Prelude.Dict.{insert}
use inc_trade.Reconciliation.{
  Order, Position, missing_local_order, missing_broker_order, order_status_mismatch,
  position_quantity_mismatch, missing_broker_position, high, medium, check_broker_order,
  check_local_order, compare_orders, check_broker_position, check_local_position, compare_positions,
}
use inc_trade.Reconciliation.Loops.{about}
use inc_trade.Reconciliation.Complete.{
  latest_order, order_drift, OrdersAgree, compare_orders-about, compare_orders-clean,
  latest_position, position_drift, compare_positions-about,
}

pair_discrete : Discrete (ℕ × ℕ)
pair_discrete = hlevel ℕ_discrete

abbrev given : ℕ → Bool
given n = not (n == 0)

abbrev working : ℕ → Bool
working s = s == 1

abbrev text : ℕ → ℕ
text s = s

abbrev order : ℕ → ℕ → Order ℕ ℕ ℕ
order id status = record { order_id = id; symbol = 7; status = status }

abbrev local : List (Order ℕ ℕ ℕ)
local = order 1 1 ∷ order 2 1 ∷ order 0 1 ∷ order 3 2 ∷ order 1 3 ∷ []

abbrev broker : List (Order ℕ ℕ ℕ)
broker = order 1 1 ∷ order 4 1 ∷ []

orders_test :
    compare_orders ℕ_discrete ℕ_discrete given working text local broker
    ≡ record {
      kind = missing_local_order;
      severity = high;
      symbol = 7;
      subject = 4;
      quantities = none;
    }
      ∷ record {
        kind = order_status_mismatch;
        severity = medium;
        symbol = 7;
        subject = 1;
        quantities = none;
      }
      ∷ record {
        kind = missing_broker_order;
        severity = high;
        symbol = 7;
        subject = 2;
        quantities = none;
      }
      ∷ []
unfolding compare_orders check_broker_order check_local_order insert ℕ_discrete
orders_test = refl

compare_orders-about_example :
    about ℕ_discrete 1 (compare_orders ℕ_discrete ℕ_discrete given working text local broker)
    ≡ order_drift ℕ_discrete ℕ_discrete given working text 1
        (latest_order ℕ_discrete ℕ_discrete given working text 1 local)
        (latest_order ℕ_discrete ℕ_discrete given working text 1 broker)
compare_orders-about_example =
    compare_orders-about ℕ_discrete ℕ_discrete given working text local broker 1

compare_orders-clean_example :
    (compare_orders ℕ_discrete ℕ_discrete given working text local local ≡ []) ↔ (
      (k : ℕ)
      → OrdersAgree ℕ_discrete ℕ_discrete given working text
          (latest_order ℕ_discrete ℕ_discrete given working text k local)
          (latest_order ℕ_discrete ℕ_discrete given working text k local))
compare_orders-clean_example =
    compare_orders-clean ℕ_discrete ℕ_discrete given working text local local

abbrev position : ℕ → ℕ → ℤ → Position ℕ
position exchange symbol quantity = record {
  exchange = exchange;
  symbol = symbol;
  quantity = quantity;
}

abbrev held : List (Position ℕ)
held = position 1 1 (pos 5) ∷ position 1 2 (pos 0) ∷ position 2 1 (negsuc 2) ∷ []

abbrev reported : List (Position ℕ)
reported = position 1 1 (pos 6) ∷ []

positions_test :
    compare_positions pair_discrete held reported
    ≡ record {
      kind = position_quantity_mismatch;
      severity = high;
      symbol = 1;
      subject = (1, 1);
      quantities = some (pos 5, pos 6);
    }
      ∷ record {
        kind = missing_broker_position;
        severity = high;
        symbol = 1;
        subject = (2, 1);
        quantities = none;
      }
      ∷ []
unfolding compare_positions check_broker_position check_local_position insert pair_discrete
    ℕ_discrete
positions_test = refl

compare_positions-about_example :
    about pair_discrete (1, 1) (compare_positions pair_discrete held reported)
    ≡ position_drift pair_discrete
        (latest_position pair_discrete (1, 1) held)
        (latest_position pair_discrete (1, 1) reported)
compare_positions-about_example = compare_positions-about pair_discrete held reported (1, 1)
