-- ===== src/Messages/Parser.antt =====
-- The parsers of the four kinds of event and the generator over them (src/messages/parser.py), with the
-- `from_strings` of src/messages/protocol.py. A generator is the list of what it yields, with the
-- exception that ends it, if one does.
pub mod Raising
pub mod Payloads
pub mod Shapes
pub mod Yields
use polypy.Prelude.{
  ℕ, String, Option, none, some, List, [], ◌∷◌, ◌++◌, map, Bool, true, false, ◌==◌, if◌then◌else◌,
}
use polypy.Prelude.Int.{ℤ, pos}
use polypy.Prelude.Dict.{Dict, get}
use polypy.Messages.{
  Floats, Side, EventType, book, price_change, last_trade_price, tick_size_change, unknown,
  price_scale, size_scale, PriceLevel, BookSnapshot, PriceChange, LastTradePrice, TickSizeChange,
  ParsedMessage, event_type_of, side_of,
}
use polypy.Messages.Raw.{
  Failure, Result, ◌>>=◌, or_raise, for_all, RawData, Decoded, raw_messages, RawMessage, item,
  text_or, table, timestamp_of, process_known, process_one, decode_error, unknown_message_type,
  unknown_market, value_error, key_error, not_implemented, ok, err, one, many,
}

module _ (F : Floats) where
  unfoldable pub scale : ℕ → String → Result ℤ
  scale k t = do x ← or_raise value_error (F.parse t); or_raise value_error (F.scaled x k)

  unfoldable pub level_from : Dict String → Result PriceLevel
  unfolding scale
  level_from d = do
    p ← item d "price"
    s ← item d "size"
    price ← scale price_scale p
    size ← scale size_scale s
    ok (record { price = price; size = size })

  unfoldable pub price_change_from : Dict String → Result PriceChange
  unfolding scale side_of
  price_change_from d = do
    a ← item d "asset_id"
    p ← item d "price"
    s ← item d "size"
    t ← item d "side"
    h ← item d "hash"
    b ← item d "best_bid"
    k ← item d "best_ask"
    price ← scale price_scale p
    size ← scale size_scale s
    side ← or_raise key_error (side_of t)
    bid ← scale price_scale b
    ask ← scale price_scale k
    ok (record {
      asset_id = a;
      price = price;
      size = size;
      side = side;
      hash = h;
      best_bid = bid;
      best_ask = ask;
    })

  unfoldable pub parse_book_snapshot : RawMessage → Result (List (ParsedMessage F))
  unfolding for_all level_from
  parse_book_snapshot raw = do
    bids ← for_all level_from (table raw.raw_data "bids")
    asks ← for_all level_from (table raw.raw_data "asks")
    ok (
        record {
          event_type = raw.event_type;
          asset_id = text_or raw.raw_data.texts "asset_id" "";
          market = raw.market;
          raw_timestamp = raw.timestamp;
          book =
              some
                (record { hash = text_or raw.raw_data.texts "hash" ""; bids = bids; asks = asks });
          price_change = none;
          last_trade = none;
          tick_size_change = none;
        }
        ∷ [])

  -- the message of one change of a raw message
  unfoldable pub change_message : RawMessage → PriceChange → ParsedMessage F
  change_message raw c = record {
    event_type = raw.event_type;
    asset_id = c.asset_id;
    market = raw.market;
    raw_timestamp = raw.timestamp;
    book = none;
    price_change = some c;
    last_trade = none;
    tick_size_change = none;
  }

  unfoldable pub parse_price_change : RawMessage → Result (List (ParsedMessage F))
  unfolding for_all price_change_from change_message
  parse_price_change raw = do
    changes ← for_all price_change_from (table raw.raw_data "price_changes")
    ok (map (change_message raw) changes)

  unfoldable pub parse_last_trade_price : RawMessage → Result (List (ParsedMessage F))
  unfolding scale side_of
  parse_last_trade_price raw = do
    p ← item raw.raw_data.texts "price"
    s ← item raw.raw_data.texts "size"
    t ← item raw.raw_data.texts "side"
    price ← scale price_scale p
    size ← scale size_scale s
    side ← or_raise key_error (side_of t)
    a ← item raw.raw_data.texts "asset_id"
    ok (
        record {
          event_type = raw.event_type;
          asset_id = a;
          market = raw.market;
          raw_timestamp = raw.timestamp;
          book = none;
          price_change = none;
          last_trade = some (record { price = price; size = size; side = side });
          tick_size_change = none;
        }
        ∷ [])

  unfoldable pub parse_tick_size_change : RawMessage → Result (List (ParsedMessage F))
  parse_tick_size_change raw = do
    o ← item raw.raw_data.texts "old_tick_size"
    n ← item raw.raw_data.texts "new_tick_size"
    old ← or_raise value_error (F.parse o)
    new ← or_raise value_error (F.parse n)
    a ← item raw.raw_data.texts "asset_id"
    ok (
        record {
          event_type = raw.event_type;
          asset_id = a;
          market = raw.market;
          raw_timestamp = raw.timestamp;
          book = none;
          price_change = none;
          last_trade = none;
          tick_size_change = some (record { old_tick_size = old; new_tick_size = new });
        }
        ∷ [])

  -- the `match` of `parse_messages`
  unfoldable pub parse_message : RawMessage → Result (List (ParsedMessage F))
  unfolding parse_book_snapshot parse_price_change parse_last_trade_price parse_tick_size_change
  parse_message raw = elim raw.event_type [
    | book ↦ parse_book_snapshot raw
    | price_change ↦ parse_price_change raw
    | last_trade_price ↦ parse_last_trade_price raw
    | tick_size_change ↦ parse_tick_size_change raw
    | unknown ↦ err not_implemented
  ]

  -- an exception ends the yields
  abbrev pub continue_with :
      Result (List (ParsedMessage F))
      → List (ParsedMessage F) × Option Failure
      → List (ParsedMessage F) × Option Failure
  continue_with (err e) later = ([], some e)
  continue_with (ok ms) later = (ms ++ later.0, later.1)

  -- Both generators advance together: what the messages yield, up to the first that fails.
  unfoldable pub parse_each :
      (String → Option ℤ) → List RawData → List (ParsedMessage F) × Option Failure
  unfolding process_one parse_message
  parse_each parse_int [] = ([], none)
  parse_each parse_int (r ∷ rs) =
      continue_with (process_one parse_int r >>= parse_message) (parse_each parse_int rs)

  unfoldable pub parse_messages :
      {Bytes : Type 0}
      → (Bytes → Option Decoded)
      → (String → Option ℤ)
      → Bytes
      → List (ParsedMessage F) × Option Failure
  unfolding parse_each raw_messages
  parse_messages decode parse_int data_bytes = elim (decode data_bytes) [
    | none ↦ ([], some decode_error)
    | some raw ↦ parse_each parse_int (raw_messages raw)
  ]
