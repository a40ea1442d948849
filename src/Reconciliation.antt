-- ===== src/Reconciliation.antt =====
-- brokers/common/reconciliation/engine.py: the comparison of the local state with the broker's.
-- `Order`, `Position`, `OrderStatus` and `DriftItem` are of another package: the engine reads of
-- them only what the records below hold. Names and statuses are arguments: which order ids count as
-- given, what `str` makes of a status, and which statuses are OPEN and PARTIALLY_FILLED.
pub mod Loops
pub mod Complete
mod Tests
use inc_trade.Prelude.{
  ℕ, ◌+◌, Bool, true, false, ◌&&◌, not, Option, none, some, List, [], ◌∷◌, ◌++◌, ◌==◌,
  if◌then◌else◌,
}
use inc_trade.Prelude.Int.{ℤ, pos_part, neg_part}
use inc_trade.Prelude.Dict.{Dict, lookup, contains, insert}

pub record Order (K S T : Type 0) : Type 0 where
  pub order_id : K
  pub symbol : S
  pub status : T

pub record Position (S : Type 0) : Type 0 where
  pub exchange : S
  pub symbol : S
  pub quantity : ℤ

pub data Kind : Type 0 where
  missing_local_order missing_broker_order order_status_mismatch : Kind
  missing_local_position position_quantity_mismatch missing_broker_position : Kind

pub data Severity : Type 0 where
  high medium low : Severity

-- The payload names the order or the position; of a mismatch of quantities it holds both, the local
-- one first. The text of the details is left out.
pub record DriftItem (K S : Type 0) : Type 0 where
  pub kind : Kind
  pub severity : Severity
  pub symbol : S
  pub subject : K
  pub quantities : Option (ℤ × ℤ)

-- A loop over the items of a dictionary that appends to a list.
abbrev pub collect : {K V A : Type 0} → (K → V → List A) → Dict K V → List A
collect f [] = []
collect f (e ∷ d) = f e.0 e.1 ++ collect f d

-- A dictionary of the rows by their keys; a row whose key does not count is passed over.
abbrev pub fill : {K V : Type 0} → Discrete K → (V → K) → (V → Bool) → Dict K V → List V → Dict K V
fill dec key counts d [] = d
fill dec key counts d (x ∷ xs) =
    fill dec key counts (if counts x then insert dec (key x) x d else d) xs

abbrev pub eq_ℤ : ℤ → ℤ → Bool
eq_ℤ a b = pos_part a + neg_part b == pos_part b + neg_part a

abbrev pub is_zero : ℤ → Bool
is_zero a = pos_part a == neg_part a

abbrev pub same_text : {T U : Type 0} → Discrete U → (T → U) → T → T → Bool
same_text dec_text text s t = elim (dec_text (text s) (text t)) [ yes _ ↦ true | no _ ↦ false ]

module _ {K S T U : Type 0} (dec : Discrete K) (dec_text : Discrete U) (is_given : K → Bool)
    (is_working : T → Bool) (text : T → U) where
  abbrev pub by_id : List (Order K S T) → Dict K (Order K S T)
  by_id orders = fill dec (λ o. o.order_id) (λ o. is_given o.order_id) [] orders

  -- The body of the first loop of `compare_orders`.
  unfoldable pub check_broker_order : Dict K (Order K S T) → K → Order K S T → List (DriftItem K S)
  check_broker_order local_by_id oid broker_order =
      if contains dec oid local_by_id
      then []
      else record {
        kind = missing_local_order;
        severity = high;
        symbol = broker_order.symbol;
        subject = oid;
        quantities = none;
      }
        ∷ []

  -- The body of the second.
  unfoldable pub check_local_order : Dict K (Order K S T) → K → Order K S T → List (DriftItem K S)
  check_local_order broker_by_id oid local_order = elim (lookup dec oid broker_by_id) [
    | none ↦
        if is_working local_order.status
        then record {
          kind = missing_broker_order;
          severity = high;
          symbol = local_order.symbol;
          subject = oid;
          quantities = none;
        }
          ∷ []
        else []
    | some broker_order ↦
        if same_text dec_text text local_order.status broker_order.status
        then []
        else record {
          kind = order_status_mismatch;
          severity = medium;
          symbol = local_order.symbol;
          subject = oid;
          quantities = none;
        }
          ∷ []
  ]

  unfoldable pub compare_orders : (local broker : List (Order K S T)) → List (DriftItem K S)
  unfolding check_broker_order check_local_order
  compare_orders local broker =
      collect (check_broker_order (by_id local)) (by_id broker)
      ++ collect (check_local_order (by_id broker)) (by_id local)

module _ {S : Type 0} (dec : Discrete (S × S)) where
  abbrev pub key_of : Position S → S × S
  key_of p = (p.exchange, p.symbol)

  abbrev pub by_key : List (Position S) → Dict (S × S) (Position S)
  by_key positions = fill dec key_of (λ p. true) [] positions

  -- The body of the first loop of `compare_positions`.
  unfoldable pub check_broker_position :
      Dict (S × S) (Position S) → S × S → Position S → List (DriftItem (S × S) S)
  check_broker_position local_by_key key broker_pos = elim (lookup dec key local_by_key) [
    | none ↦
        record {
          kind = missing_local_position;
          severity = high;
          symbol = broker_pos.symbol;
          subject = (broker_pos.exchange, broker_pos.symbol);
          quantities = none;
        }
        ∷ []
    | some local_pos ↦
        if eq_ℤ local_pos.quantity broker_pos.quantity
        then []
        else record {
          kind = position_quantity_mismatch;
          severity = high;
          symbol = broker_pos.symbol;
          subject = (broker_pos.exchange, broker_pos.symbol);
          quantities = some (local_pos.quantity, broker_pos.quantity);
        }
          ∷ []
  ]

  -- The body of the second.
  unfoldable pub check_local_position :
      Dict (S × S) (Position S) → S × S → Position S → List (DriftItem (S × S) S)
  check_local_position broker_by_key key local_pos =
      if not (contains dec key broker_by_key) && not (is_zero local_pos.quantity)
      then record {
        kind = missing_broker_position;
        severity = high;
        symbol = local_pos.symbol;
        subject = (local_pos.exchange, local_pos.symbol);
        quantities = none;
      }
        ∷ []
      else []

  unfoldable pub compare_positions : (local broker : List (Position S)) → List (DriftItem (S × S) S)
  unfolding check_broker_position check_local_position
  compare_positions local broker =
      collect (check_broker_position (by_key local)) (by_key broker)
      ++ collect (check_local_position (by_key broker)) (by_key local)
