-- ===== src/Stream/Normalise.antt =====
-- The normalising of frames in brokers/common/stream_orchestrator.py: `_normalize_tick` and
-- `_normalize_order_update`.
use inc_trade.Prelude.{ℕ, Bool, Option, none, some, if◌then◌else◌}
use inc_trade.Prelude.Result.{Result, ok, ◌>>=◌}

-- The keys of a frame that the orchestrator reads.
pub data FrameKey : Type 0 where
  symbol trading_symbol exchange ltp last_price volume bid ask sequence : FrameKey
  open_price high low order_id status filled_qty avg_price : FrameKey

-- A frame: the values under its keys, unless it is no dict.
abbrev pub Frame : Type 0 → Type 0
Frame V = Option (FrameKey → Option V)

-- What Python does with the values of a frame: their truth, `float`, `int`, `str`, and the constants.
pub record ValueOps (V X N : Type 0) : Type 0 where
  pub is_truthy : V → Bool
  pub to_float : V → Result X N
  pub to_int : V → Result X ℕ
  pub to_str : V → V
  pub zero_float : N
  pub nse : V
  pub no_text : V

pub record MarketTick (S V N : Type 0) : Type 0 where
  pub symbol : V
  pub exchange : V
  pub ltp : N
  pub volume : ℕ
  pub bid : Option N
  pub ask : Option N
  pub broker_id : S
  pub session_id : S
  pub event_time : ℕ
  pub sequence : Option V
  pub open_price : Option N
  pub high : Option N
  pub low : Option N

pub record OrderUpdate (S V N : Type 0) : Type 0 where
  pub broker_id : S
  pub session_id : S
  pub event_time : ℕ
  pub order_id : V
  pub status : V
  pub filled_qty : ℕ
  pub avg_price : N
  pub raw : FrameKey → Option V

-- What a consumer is told.
pub data Event (S V N C H : Type 0) : Type 0 where
  on_market_tick : C → MarketTick S V N → Event S V N C H
  on_order_update : C → OrderUpdate S V N → Event S V N C H
  on_stream_health_change : C → S → H → Event S V N C H

module _ {V X N : Type 0} (py : ValueOps V X N) where
  -- `get(k)`, where it counts as true.
  abbrev pub truthy : Option V → Option V
  truthy none = none
  truthy (some v) = if py.is_truthy v then some v else none

  -- `a or b`
  abbrev pub or_else : Option V → Option V → Option V
  or_else none w = w
  or_else (some v) w = some v

  abbrev pub float_or_zero : Option V → Result X N
  float_or_zero none = ok py.zero_float
  float_or_zero (some v) = py.to_float v

  abbrev pub int_or_zero : Option V → Result X ℕ
  int_or_zero none = ok 0
  int_or_zero (some v) = py.to_int v

  -- `float(frame[k]) if k in frame else None`
  abbrev pub float_of : Option V → Result X (Option N)
  float_of none = ok none
  float_of (some v) = py.to_float v >>= λ n. ok (some n)

  abbrev pub text_or : Option V → V → V
  text_or none w = w
  text_or (some v) w = v

  unfoldable pub normalize_tick :
      {S : Type 0} → Frame V → S → S → ℕ → Result X (Option (MarketTick S V N))
  normalize_tick none sid broker now = ok none
  normalize_tick (some get) sid broker now =
      elim (or_else (truthy (get symbol)) (truthy (get trading_symbol))) [
        | none ↦ ok none
        | some name ↦ do
          price ← float_or_zero (or_else (truthy (get ltp)) (truthy (get last_price)))
          traded ← int_or_zero (truthy (get volume))
          bid_price ← float_of (get bid)
          ask_price ← float_of (get ask)
          opened ← float_of (get open_price)
          highest ← float_of (get high)
          lowest ← float_of (get low)
          ok (
              some (record {
                symbol = name;
                exchange = text_or (truthy (get exchange)) py.nse;
                ltp = price;
                volume = traded;
                bid = bid_price;
                ask = ask_price;
                broker_id = broker;
                session_id = sid;
                event_time = now;
                sequence = get sequence;
                open_price = opened;
                high = highest;
                low = lowest;
              }))
      ]

  unfoldable pub normalize_order_update :
      {S : Type 0} → Frame V → S → S → ℕ → Result X (Option (OrderUpdate S V N))
  normalize_order_update none sid broker now = ok none
  normalize_order_update (some get) sid broker now = do
    filled ← int_or_zero (truthy (get filled_qty))
    price ← float_or_zero (truthy (get avg_price))
    ok (
        some (record {
          broker_id = broker;
          session_id = sid;
          event_time = now;
          order_id = py.to_str (text_or (truthy (get order_id)) py.no_text);
          status = py.to_str (text_or (truthy (get status)) py.no_text);
          filled_qty = filled;
          avg_price = price;
          raw = get;
        }))
