-- ===== src/Worker/Tests.antt =====
-- A worker (src/worker/worker.py) at concrete messages and turns.
use polypy.Prelude.{
  ℕ, ◌+◌, ◌*◌, ◌/◌, String, ◌≡◌, refl, Bool, true, false, Option, none, some, List, [], ◌∷◌, ◌++◌,
  length, ltb, if◌then◌else◌, arith,
}
use polypy.Prelude.Int.{pos, pos_part}
use polypy.Prelude.Dict.{get}
use polypy.SortedDict.Reference.{sorted_listing}
use polypy.Messages.{book, price_change, buy, ParsedMessage}
use polypy.Messages.Parser.Payloads.{IsTagged}
use polypy.Messages.Tests.{tenths}
use polypy.Orderbook.{OrderbookState}
use polypy.Worker.{
  OrderbookRequest, OrderbookResponse, OrderbookMetrics, FloatArithmetic, Worker, init,
}
use polypy.Worker.Books.{shelf, process_all, specify_all, process_all_refines}
use polypy.Worker.Tally.{IsTallied, process_all-IsTallied}
use polypy.Worker.Loop.{Turn, Timers, message, request, shutdown, run}
use polypy.Worker.Manager.{failed_response}
use polypy.Worker.Turns.{HasRun, run_ends}

abbrev arithmetic : FloatArithmetic tenths
arithmetic = record {
  rounded = λ n k. pos_part n * 10 / k;
  zero_float = 0;
  half = 5;
  add = λ x y. x + y;
  divide = λ x y. x * 10 / y;
  is_positive = λ x. ltb 0 x;
}

abbrev snapshot_message : ParsedMessage tenths
snapshot_message = record {
  event_type = book;
  asset_id = "yes";
  market = "game";
  raw_timestamp = pos 1000;
  book = some (record {
    hash = "h1";
    bids = record { price = pos 500; size = pos 20 } ∷ [];
    asks = record { price = pos 520; size = pos 30 } ∷ [];
  });
  price_change = none;
  last_trade = none;
  tick_size_change = none;
}

abbrev change_for : String → ParsedMessage tenths
change_for a = record {
  event_type = price_change;
  asset_id = a;
  market = "game";
  raw_timestamp = pos 2000;
  book = none;
  price_change = some (record {
    asset_id = a;
    price = pos 510;
    size = pos 5;
    side = buy;
    hash = "h2";
    best_bid = pos 510;
    best_ask = pos 510;
  });
  last_trade = none;
  tick_size_change = none;
}

abbrev messages : List (ℕ × ParsedMessage tenths)
messages = (1, snapshot_message) ∷ (2, change_for "yes") ∷ (3, change_for "gone") ∷ []

abbrev fresh : Worker sorted_listing tenths
fresh = init sorted_listing tenths 0

process_all_refines_example :
    shelf sorted_listing tenths (process_all sorted_listing tenths messages fresh).store "yes"
    ≡ specify_all sorted_listing tenths messages (shelf sorted_listing tenths fresh.store) "yes"
process_all_refines_example = process_all_refines sorted_listing tenths messages fresh "yes"

fresh-IsTallied : IsTallied sorted_listing tenths fresh
unfolding init get polypy.Prelude.Ids.member polypy.Orderbook.Store.empty_store
fresh-IsTallied = record {
  updates = omega arith;
  snapshots = omega arith;
  index = record { listed = λ a m. refl; distinct = λ m. tt };
}

process_all-IsTallied_example :
    ((process_all sorted_listing tenths messages fresh).stats.messages_processed
      ≡ fresh.stats.messages_processed + length messages)
    × IsTallied sorted_listing tenths (process_all sorted_listing tenths messages fresh)
process_all-IsTallied_example =
    process_all-IsTallied sorted_listing tenths messages fresh fresh-IsTallied

abbrev query : OrderbookRequest
query = record { request_id = "r1"; asset_id = "yes"; depth = pos 10 }

abbrev filled : Worker sorted_listing tenths
filled = process_all sorted_listing tenths messages fresh

-- a book whose best bid and best ask meet
abbrev locked : OrderbookState sorted_listing
locked = record {
  asset_id = "yes";
  market = "game";
  bids = ([], tt);
  asks = ([], tt);
  last_hash = "h2";
  last_update_ts = pos 2000;
  local_update_ts = 2;
  cached_best_bid = some (pos 510);
  cached_best_ask = some (pos 510);
  cache_valid = true;
  history = [];
}

abbrev locked_metrics : OrderbookMetrics tenths
locked_metrics = record { spread = none; mid_price = some 5; imbalance = 5 }

abbrev quiet : Turn tenths
quiet = record {
  event_set = false;
  item = none;
  start = 0;
  applied = 0;
  finish = 0;
  last = 0;
  now = 6000;
}

abbrev turns : List (Turn tenths)
turns =
    quiet
    ∷ record quiet { item = some (message snapshot_message) }
    ∷ record quiet { item = some (request query) }
    ∷ record quiet { item = some shutdown }
    ∷ record quiet { item = some (message snapshot_message) }
    ∷ []

abbrev timers : Timers (Worker sorted_listing tenths)
timers = record { worker = fresh; last_heartbeat = 0; last_stats_report = 0 }

run_ends_example :
    HasRun sorted_listing tenths arithmetic 100 8 timers.worker.stats.messages_processed turns
      (run sorted_listing tenths arithmetic 100 8 turns timers)
run_ends_example = run_ends sorted_listing tenths arithmetic 100 8 turns timers fresh-IsTallied

snapshot_message-IsTagged : IsTagged snapshot_message
snapshot_message-IsTagged = record { known = refl; payload = refl; has_market = refl }

-- a response to a query under the identifier
abbrev response_to : String → OrderbookResponse tenths
response_to id = failed_response tenths id "yes" "no book"
