-- ===== src/Worker.antt =====
-- A worker process (src/worker/worker.py) with its statistics (src/worker/stats.py) and its queries
-- (src/worker/protocol.py). The statistics and response queues are what was put in them, with a
-- bound. Times are in milliseconds. What Python does with floating point numbers is a parameter.
pub mod Queries
pub mod Manager
pub mod Polling
pub mod Books
pub mod Tally
pub mod Loop
pub mod Turns
pub mod Feed
pub mod Replies
pub mod Tests
use polypy.Prelude.{
  ℕ, ◌+◌, ◌-◌, String, Bool, true, false, Option, none, some, List, [], ◌∷◌, ◌++◌, length, map, ltb,
  leb, if◌then◌else◌,
}
use polypy.Prelude.Int.{ℤ, pos, ◌+ℤ◌, ◌-ℤ◌, eqb_ℤ}
use polypy.Prelude.Dict.{Dict, put}
use polypy.SortedDict.{SortedDict}
use polypy.Messages.{
  Floats, EventType, book, price_change, last_trade_price, tick_size_change, unknown, PriceLevel,
  ParsedMessage, price_scale, size_scale,
}
use polypy.Orderbook.{
  OrderbookState, OrderbookSnapshot, apply_snapshot, apply_price_change, spread, mid_price,
}
use polypy.Orderbook.Views.{get_bids, get_asks, get_history}
use polypy.Orderbook.Store.{
  Asset, OrderbookStore, empty_store, get_state, register_asset, memory_usage,
}

abbrev pub heartbeat_interval : ℕ
heartbeat_interval = 5000

abbrev pub stats_interval : ℕ
stats_interval = 30000

abbrev pub history_limit : ℤ
history_limit = pos 50

pub record WorkerStats : Type 0 where
  pub messages_processed : ℕ
  pub updates_applied : ℕ
  pub snapshots_received : ℕ
  pub processing_time_ms : ℤ
  pub last_message_ts : ℕ
  pub orderbook_count : ℕ
  pub memory_usage_bytes : ℕ

pub record OrderbookRequest : Type 0 where
  pub request_id : String
  pub asset_id : String
  pub depth : ℤ

-- Python's arithmetic on floating point numbers: `rounded n k` is round(n / k, 3).
pub record FloatArithmetic (F : Floats) : Type 0 where
  pub rounded : ℤ → ℕ → F.Float
  pub zero_float : F.Float
  pub half : F.Float
  pub add : F.Float → F.Float → F.Float
  pub divide : F.Float → F.Float → F.Float
  pub is_positive : F.Float → Bool

pub record OrderbookMetrics (F : Floats) : Type 0 where
  pub spread : Option F.Float
  pub mid_price : Option F.Float
  pub imbalance : F.Float

pub record HistoryPoint : Type 0 where
  pub timestamp : ℤ
  pub best_bid : Option ℤ
  pub best_ask : Option ℤ
  pub spread : Option ℤ
  pub mid_price : Option ℤ

pub record OrderbookResponse (F : Floats) : Type 0 where
  pub request_id : String
  pub asset_id : String
  pub found : Bool
  pub bids : List (F.Float × F.Float)
  pub asks : List (F.Float × F.Float)
  pub metrics : Option (OrderbookMetrics F)
  pub last_update_ts : ℤ
  pub history : List HistoryPoint
  pub error : Option String

-- `x if n else None`, where 0 is false
abbrev pub if_nonzero {ℓ} : {A : Type ℓ} → Option ℤ → (ℤ → A) → Option A
if_nonzero none f = none
if_nonzero (some n) f = if eqb_ℤ n (pos 0) then none else some (f n)

unfoldable pub history_point : OrderbookSnapshot → HistoryPoint
history_point s = record {
  timestamp = s.timestamp;
  best_bid = s.best_bid;
  best_ask = s.best_ask;
  spread = s.spread;
  mid_price = s.mid_price;
}

-- queue.put_nowait(item): the items, and False for Full
abbrev pub put_nowait {ℓ} : {A : Type ℓ} → ℕ → A → List A → List A
put_nowait capacity x l = if ltb (length l) capacity then l ++ x ∷ [] else l

-- A book is an object that the store holds: what changes it changes the store.
unfoldable pub write_book :
    {S : SortedDict} → String → OrderbookState S → OrderbookStore S → OrderbookStore S
write_book a b s = record s { books = put s.books a b }

module _ (S : SortedDict) (F : Floats) where
  pub record Worker : Type 0 where
    pub worker_id : ℕ
    pub store : OrderbookStore S
    pub stats : WorkerStats
    pub stats_queue : List (ℕ × WorkerStats)
    pub response_queue : List (OrderbookResponse F)

  -- the worker that `_worker_process` creates
  unfoldable pub init : ℕ → Worker
  init worker_id = record {
    worker_id = worker_id;
    store = empty_store S;
    stats = record {
      messages_processed = 0;
      updates_applied = 0;
      snapshots_received = 0;
      processing_time_ms = pos 0;
      last_message_ts = 0;
      orderbook_count = 0;
      memory_usage_bytes = 0;
    };
    stats_queue = [];
    response_queue = [];
  }

  unfoldable pub process_book_snapshot : ℕ → ParsedMessage F → Worker → Worker
  unfolding write_book
  process_book_snapshot now m w = elim m.book [
    | none ↦ w
    | some snapshot ↦
        let (registered, b) =
          register_asset S (record { asset_id = m.asset_id; market = m.market }) w.store in
        record w {
          store =
              write_book m.asset_id (apply_snapshot S now snapshot m.raw_timestamp b) registered;
          stats = record w.stats {
            snapshots_received = w.stats.snapshots_received + 1;
            updates_applied = w.stats.updates_applied + 1;
          };
        }
  ]

  unfoldable pub process_price_change : ℕ → ParsedMessage F → Worker → Worker
  unfolding write_book
  process_price_change now m w = elim m.price_change [
    | none ↦ w
    | some c ↦ elim (get_state S w.store m.asset_id) [
      | none ↦ w
      | some b ↦ record w {
        store = write_book m.asset_id (apply_price_change S now c m.raw_timestamp b) w.store;
        stats = record w.stats { updates_applied = w.stats.updates_applied + 1 };
      }
    ]
  ]

  -- An assertion that fails is logged and leaves the state as it is, as do a trade, a change of the
  -- tick size and an unknown event.
  unfoldable pub process_message : ℕ → ParsedMessage F → Worker → Worker
  unfolding process_book_snapshot process_price_change
  process_message now m w =
      let counted : Worker = record w {
        stats = record w.stats { messages_processed = w.stats.messages_processed + 1 };
      } in
      elim m.event_type [
        | book ↦ process_book_snapshot now m counted
        | price_change ↦ process_price_change now m counted
        | last_trade_price ↦ counted
        | tick_size_change ↦ counted
        | unknown ↦ counted
      ]

  unfoldable pub update_stats : ℕ → Worker → Worker
  update_stats base w = record w {
    stats = record w.stats {
      orderbook_count = length w.store.books;
      memory_usage_bytes = memory_usage S base w.store;
    };
  }

  unfoldable pub put_stats : ℕ → Worker → Worker
  put_stats capacity w = record w {
    stats_queue = put_nowait capacity (w.worker_id, w.stats) w.stats_queue;
  }
