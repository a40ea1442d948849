-- ===== src/Paper/Domain.antt =====
-- The orders and trades of brokers/paper/paper_orders.py, the state of the book, and what the file
-- uses of another package. Prices and quantities are natural numbers; an order id and a trade id,
-- the texts `PPR-` and `PPR-T-` with the number behind, are the numbers. Time stamps are left out.
use Prim.Native.String.{String}
use inc_trade.Prelude.{ℕ, Bool, Option, List}
use inc_trade.Prelude.Int.{ℤ}
use inc_trade.Prelude.Dict.{Dict}

pub data Side : Type 0 where
  buy sell : Side

-- What an order asks for: names `S`, order types `T`, product types `D`, validities `V`.
pub record Terms (S T D V : Type 0) : Type 0 where
  pub symbol : S
  pub exchange : S
  pub side : Side
  pub order_type : T
  pub quantity : ℕ
  pub price : ℕ
  pub trigger_price : ℕ
  pub product_type : D
  pub validity : V
  pub correlation_id : Option S

-- `none` is what the package gives where the file gives nothing.
pub record Order (S T D V E : Type 0) : Type 0 where
  pub order_id : ℕ
  pub terms : Terms S T D V
  pub status : E
  pub filled_quantity : Option ℕ
  pub avg_price : Option ℕ
  pub reject_reason : Option String

pub record Trade (S D : Type 0) : Type 0 where
  pub trade_id : ℕ
  pub order_id : ℕ
  pub symbol : S
  pub exchange : S
  pub side : Side
  pub quantity : ℕ
  pub price : ℕ
  pub trade_value : ℕ
  pub product_type : D

-- The other package: statuses `E` with their members, `Order.with_status`, positions `P`, and the key
-- of a position as text `K`.
pub record Domain (S T D V E P K : Type 0) : Type 0 where
  pub is_limit : T → Bool
  pub dec_status : Discrete E
  pub open_status : E
  pub filled_status : E
  pub rejected_status : E
  pub cancelled_status : E
  pub with_status : Order S T D V E → E → Order S T D V E
  pub dec_key : Discrete K
  pub key : (symbol exchange : S) → K
  pub new_position : (symbol exchange : S) → D → P
  pub with_fill : P → ℤ → ℕ → P

pub record PaperOrders (S T D V E P K : Type 0) : Type 0 where
  pub orders : List (Order S T D V E)
  pub trades : List (Trade S D)
  pub order_seq : ℕ
  pub trade_seq : ℕ
  pub positions : Dict K P

-- The `ValueError`s of `modify_order`.
pub data ModifyError (E : Type 0) : Type 0 where
  not_found : ModifyError E
  not_open : E → ModifyError E

-- The arguments of `modify_order`; what is missing stays.
pub record Changes (T V : Type 0) : Type 0 where
  pub quantity : Option ℕ
  pub price : Option ℕ
  pub order_type : Option T
  pub trigger_price : Option ℕ
  pub validity : Option V
