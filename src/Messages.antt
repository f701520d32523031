-- ===== src/Messages.antt =====
-- The typed messages (src/messages/protocol.py). A price is an integer of thousandths, a size of
-- hundredths. The floating point numbers of the source are a parameter: a type, the reading of a text
-- (`float(text)`, none for a ValueError) and the scaling
-- `int(x * k)`, none for an OverflowError or a ValueError.
pub mod Raw
pub mod Parser
pub mod Tests
use polypy.Prelude.{ℕ, String, Option, none, some, List, [], Bool, true, false, ◌==◌, if◌then◌else◌}
use polypy.Prelude.Int.{ℤ}

pub record Floats : Type 1 where
  pub Float : Type 0
  pub parse : String → Option Float
  pub scaled : Float → ℕ → Option ℤ

pub data Side : Type 0 where
  buy sell : Side

pub data EventType : Type 0 where
  book price_change last_trade_price tick_size_change unknown : EventType

abbrev pub price_scale : ℕ
price_scale = 1000

abbrev pub size_scale : ℕ
size_scale = 100

pub record PriceLevel : Type 0 where
  pub price : ℤ
  pub size : ℤ

pub record BookSnapshot : Type 0 where
  pub hash : String
  pub bids : List PriceLevel
  pub asks : List PriceLevel

pub record PriceChange : Type 0 where
  pub asset_id : String
  pub price : ℤ
  pub size : ℤ
  pub side : Side
  pub hash : String
  pub best_bid : ℤ
  pub best_ask : ℤ

pub record LastTradePrice : Type 0 where
  pub price : ℤ
  pub size : ℤ
  pub side : Side

pub record TickSizeChange (F : Floats) : Type 0 where
  pub old_tick_size : F.Float
  pub new_tick_size : F.Float

pub record ParsedMessage (F : Floats) : Type 0 where
  pub event_type : EventType
  pub asset_id : String
  pub market : String
  pub raw_timestamp : ℤ
  pub book : Option BookSnapshot
  pub price_change : Option PriceChange
  pub last_trade : Option LastTradePrice
  pub tick_size_change : Option (TickSizeChange F)

-- EVENT_TYPE_MAP.get(text, EventType.UNKNOWN)
unfoldable pub event_type_of : String → EventType
event_type_of t =
    if t == "book"
    then EventType.book
    else if t == "price_change"
    then EventType.price_change
    else if t == "last_trade_price"
    then EventType.last_trade_price
    else if t == "tick_size_change"
    then EventType.tick_size_change
    else EventType.unknown

-- SIDE_MAP[text], none for a KeyError
unfoldable pub side_of : String → Option Side
side_of t = if t == "BUY" then some Side.buy else if t == "SELL" then some Side.sell else none
