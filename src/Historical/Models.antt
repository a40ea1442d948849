-- ===== src/Historical/Models.antt =====
-- The records of brokers/common/historical_coordinator.py and brokers/common/provenance.py. A date is its ordinal, a
-- time a number of microseconds, and a price a number of a smallest unit; a broker, an id and an instrument are of one
-- type `K`.
use inc_trade.Prelude.{ℕ, Bool, Option}

pub data MergeStrategy : Type 0 where
  prefer_primary prefer_newest_provenance fail_on_conflict : MergeStrategy

pub record HistoricalQuery (K : Type 0) : Type 0 where
  pub instrument : K
  pub timeframe : K
  pub from_date : ℕ
  pub to_date : ℕ
  pub merge_strategy : MergeStrategy
  pub conflict_tolerance : ℕ
  pub request_id : K

-- What a broker's descriptor says of historical bars of a timeframe.
pub record HistoricalWindow : Type 0 where
  pub max_lookback_days : ℕ
  pub max_chunk_days : ℕ

pub record HistoricalCaps : Type 0 where
  pub supports_historical_data : Bool
  pub window : Option HistoricalWindow

-- `_ChunkPlan`, without the instrument, the timeframe and the id of the request, which are the query's.
pub record ChunkPlan (K : Type 0) : Type 0 where
  pub broker_id : K
  pub from_date : ℕ
  pub to_date : ℕ
  pub is_fallback : Bool

-- The fields of `domain.historical.HistoricalBar` that the coordinator reads, and of its provenance.
pub record HistoricalBar (K : Type 0) : Type 0 where
  pub event_time : ℕ
  pub close : ℕ
  pub bar_index : ℕ
  pub broker_id : K
  pub request_id : K
  pub fetched_at : ℕ
  pub is_fallback : Bool

pub record ConflictRecord (K : Type 0) : Type 0 where
  pub bar_event_time : ℕ
  pub primary_broker : K
  pub secondary_broker : K
  pub primary_close : ℕ
  pub secondary_close : ℕ
  pub resolution : MergeStrategy

pub record BarRangeRecord (K : Type 0) : Type 0 where
  pub start_bar_index : ℕ
  pub end_bar_index : ℕ
  pub chunk_id : K
  pub broker_id : K

-- `ChunkRecord`: its error stands for the exception.
pub record ChunkRecord (K E : Type 0) : Type 0 where
  pub plan : ChunkPlan K
  pub bars_fetched : ℕ
  pub error : Option E

pub data GapReason : Type 0 where
  all_failed missing_from_start missing_from_end degraded : GapReason

pub record Gap : Type 0 where
  pub start : ℕ
  pub end_ : ℕ
  pub reason : GapReason
