-- ===== src/Reconciliation/Complete.antt =====
-- The drift that the engine reports of each order and position, against a description of its own.
use inc_trade.Prelude.{
  ◌≡◌, ◌∙◌, refl, sym, ap, Bool, true, false, Option, none, some, List, [], ◌∷◌, arith,
  if◌then◌else◌, ◌↔◌,
}
use inc_trade.Prelude.Int.{ℤ}
use inc_trade.Reconciliation.{
  Order, Position, Kind, Severity, missing_local_order, missing_broker_order, order_status_mismatch,
  missing_local_position, position_quantity_mismatch, missing_broker_position, high, medium,
  DriftItem, collect, eq_ℤ, is_zero, by_id, same_text, check_broker_order, check_local_order,
  compare_orders, key_of, by_key, check_broker_position, check_local_position, compare_positions,
}
use inc_trade.Reconciliation.Loops.{
  about, latest, lookup-fill, fill-IsDistinct, about-collect, no_items, Reports-all, Reports-Keyed,
  fill-Keyed, filter-append, is,
}

module _ {K S T U : Type 0} (dec : Discrete K) (dec_text : Discrete U) (is_given : K → Bool)
    (is_working : T → Bool) (text : T → U) where
  -- The last order of the list with the id.
  abbrev pub latest_order : K → List (Order K S T) → Option (Order K S T)
  latest_order k orders = latest dec (λ o. o.order_id) (λ o. is_given o.order_id) k none orders

  abbrev order_item : Kind → Severity → K → Order K S T → DriftItem K S
  order_item kind severity k o = record {
    kind = kind;
    severity = severity;
    symbol = o.symbol;
    subject = k;
    quantities = none;
  }

  -- What is to be reported of one id, by the local order and the broker's.
  abbrev pub order_drift : K → Option (Order K S T) → Option (Order K S T) → List (DriftItem K S)
  order_drift k none none = []
  order_drift k none (some b) = order_item missing_local_order high k b ∷ []
  order_drift k (some l) none =
      if is_working l.status then order_item missing_broker_order high k l ∷ [] else []
  order_drift k (some l) (some b) =
      if same_text dec_text text l.status b.status
      then []
      else order_item order_status_mismatch medium k l ∷ []

  -- Of each id, `compare_orders` reports exactly what is to be reported of the last local order and
  -- the last order of the broker with that id, one item at most.
  pub compare_orders-about :
      (local broker : List (Order K S T)) (k : K)
      → about dec k (compare_orders dec dec_text is_given is_working text local broker)
        ≡ order_drift k (latest_order k local) (latest_order k broker)
  unfolding compare_orders check_broker_order check_local_order
  compare_orders-about local broker k =
      let l = by_id dec dec_text is_given is_working text local in
      let b = by_id dec dec_text is_given is_working text broker in
      let f = check_broker_order dec dec_text is_given is_working text l in
      let g = check_local_order dec dec_text is_given is_working text b in
      let key : Order K S T → K = λ o. o.order_id in
      let counts : Order K S T → Bool = λ o. is_given o.order_id in
      ground (
        arith,
        filter-append (λ i. is dec i.subject k) (collect f b) (collect g l),
        about-collect dec f b k (Reports-all dec f b (λ i v j. ground arith))
            (fill-IsDistinct dec key counts [] broker tt),
        about-collect dec g l k (Reports-all dec g l (λ i v j. ground arith))
            (fill-IsDistinct dec key counts [] local tt),
        lookup-fill dec key counts k [] local,
        lookup-fill dec key counts k [] broker,
      )

  -- The states agree on an id: what the broker has is there with the same status, and an order that
  -- the broker does not have is not working.
  abbrev pub OrdersAgree : Option (Order K S T) → Option (Order K S T) → Type 0
  OrdersAgree none none = Unit
  OrdersAgree none (some b) = ⊥
  OrdersAgree (some l) none = is_working l.status ≡ false
  OrdersAgree (some l) (some b) = text l.status ≡ text b.status

  order_drift-OrdersAgree :
      (k : K) (l b : Option (Order K S T)) → (order_drift k l b ≡ []) ↔ OrdersAgree l b
  order_drift-OrdersAgree k none none = ((λ e. tt), (λ a. refl))
  order_drift-OrdersAgree k none (some b) = ((λ e. ground arith), (λ a. absurd a))
  order_drift-OrdersAgree k (some l) none = ((λ e. ground arith), (λ a. ground arith))
  order_drift-OrdersAgree k (some l) (some b) = ((λ e. ground arith), (λ a. ground arith))

  -- `compare_orders` reports nothing exactly if the states agree on every id, by the last order of
  -- each list with the id: what the broker has is there locally with the same status, and a local
  -- order that the broker does not have is neither open nor partially filled.
  pub compare_orders-clean :
      (local broker : List (Order K S T))
      → (compare_orders dec dec_text is_given is_working text local broker ≡ [])
        ↔ ((k : K) → OrdersAgree (latest_order k local) (latest_order k broker))
  compare_orders-clean local broker =
      let items = compare_orders dec dec_text is_given is_working text local broker in
      (
        (λ e k.
            (order_drift-OrdersAgree k (latest_order k local) (latest_order k broker)).0
              (sym (compare_orders-about local broker k) ∙ ap (about dec k) e)),
        (λ h. no_items dec items (λ k.
            compare_orders-about local broker k
            ∙ (order_drift-OrdersAgree k (latest_order k local) (latest_order k broker)).1 (h k))),
      )

module _ {S : Type 0} (dec : Discrete (S × S)) where
  -- The last position of the list under the key.
  abbrev pub latest_position : S × S → List (Position S) → Option (Position S)
  latest_position k positions = latest dec (key_of dec) (λ p. true) k none positions

  abbrev position_item : Kind → Position S → Option (ℤ × ℤ) → DriftItem (S × S) S
  position_item kind p quantities = record {
    kind = kind;
    severity = high;
    symbol = p.symbol;
    subject = key_of dec p;
    quantities = quantities;
  }

  -- What is to be reported of one key, by the local position and the broker's.
  abbrev pub position_drift : Option (Position S) → Option (Position S) → List (DriftItem (S × S) S)
  position_drift none none = []
  position_drift none (some b) = position_item missing_local_position b none ∷ []
  position_drift (some l) none =
      if is_zero l.quantity then [] else position_item missing_broker_position l none ∷ []
  position_drift (some l) (some b) =
      if eq_ℤ l.quantity b.quantity
      then []
      else position_item position_quantity_mismatch b (some (l.quantity, b.quantity)) ∷ []

  -- Of each pair of exchange and symbol, `compare_positions` reports exactly what is to be reported of
  -- the last local position and the last position of the broker under it, one item at most.
  pub compare_positions-about :
      (local broker : List (Position S)) (k : S × S)
      → about dec k (compare_positions dec local broker)
        ≡ position_drift (latest_position k local) (latest_position k broker)
  unfolding compare_positions check_broker_position check_local_position
  compare_positions-about local broker k =
      let l = by_key dec local in
      let b = by_key dec broker in
      let f = check_broker_position dec l in
      let g = check_local_position dec b in
      let counts : Position S → Bool = λ p. true in
      ground (
        arith,
        filter-append (λ i. is dec i.subject k) (collect f b) (collect g l),
        about-collect dec f b k
            (Reports-Keyed dec f (key_of dec) b (fill-Keyed dec (key_of dec) counts [] broker tt)
              (λ v j. ground arith))
            (fill-IsDistinct dec (key_of dec) counts [] broker tt),
        about-collect dec g l k
            (Reports-Keyed dec g (key_of dec) l (fill-Keyed dec (key_of dec) counts [] local tt)
              (λ v j. ground arith))
            (fill-IsDistinct dec (key_of dec) counts [] local tt),
        lookup-fill dec (key_of dec) counts k [] local,
        lookup-fill dec (key_of dec) counts k [] broker,
      )
