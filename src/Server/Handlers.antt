-- ===== src/Server/Handlers.antt =====
-- The handlers of src/server/server.py over the components that they read: the markets with a subscribed asset,
-- the order book of an asset, and the health of the application.
pub mod Answers
use polypy.Prelude.{
  ℕ, ◌<◌, String, Bool, true, false, Option, none, some, List, [], ◌∷◌, ◌&&◌, ◌||◌, get_elem?, set,
  length, ltb, ◌==◌, if◌then◌else◌,
}
use polypy.Prelude.Int.{ℤ, pos}
use polypy.Prelude.Ids.{IdSet, member}
use polypy.Prelude.Dict.{Dict, values}
use polypy.SortedDict.{SortedDict}
use polypy.Messages.{Floats}
use polypy.Registry.{AssetRegistry}
use polypy.Registry.Entry.{subscribed}
use polypy.Registry.Queries.{get_by_status}
use polypy.Lifecycle.{MarketInfo, LifecycleController, token_id}
use polypy.Router.{worker_for_asset}
use polypy.Worker.{OrderbookMetrics, OrderbookResponse}
use polypy.Worker.Loop.{Incoming}
use polypy.Worker.Manager.{WorkerManager, query_orderbook}
use polypy.Server.{Poll, found, not_found, error_text}

-- a row of the answer to GET /markets
pub record MarketRow : Type 0 where
  pub condition_id : String
  pub question : String
  pub outcomes : List String
  pub tokens : List (Dict String)
  pub end_date_iso : String
  pub end_timestamp : ℤ

-- any(tid in subscribed_assets for tid in token_ids)
unfoldable pub any_token : IdSet → List (Dict String) → Bool
unfolding member
any_token ids [] = false
any_token ids (t ∷ ts) = member (token_id t) ids || any_token ids ts

abbrev pub row_of : MarketInfo → MarketRow
row_of m = record {
  condition_id = m.condition_id;
  question = m.question;
  outcomes = m.outcomes;
  tokens = m.tokens;
  end_date_iso = m.end_date_iso;
  end_timestamp = m.end_timestamp;
}

unfoldable pub subscribed_rows : IdSet → List MarketInfo → List MarketRow
unfolding any_token
subscribed_rows ids [] = []
subscribed_rows ids (m ∷ ms) =
    if any_token ids m.tokens then row_of m ∷ subscribed_rows ids ms else subscribed_rows ids ms

-- `_handle_markets`; none for the status 503. The registry may be missing.
unfoldable pub handle_markets :
    (S : SortedDict)
    → Option (LifecycleController S)
    → Option (AssetRegistry S)
    → Option (List MarketRow)
unfolding subscribed_rows get_by_status
handle_markets S none registry = none
handle_markets S (some c) none = some (subscribed_rows [] (values c.market_metadata))
handle_markets S (some c) (some r) =
    some (subscribed_rows (get_by_status S r subscribed) (values c.market_metadata))

-- `_format_orderbook_message`
pub record StreamMessage (F : Floats) : Type 0 where
  pub asset_id : String
  pub bids : List (F.Float × F.Float)
  pub asks : List (F.Float × F.Float)
  pub metrics : Option (OrderbookMetrics F)
  pub last_update_ts : ℤ

unfoldable pub format_orderbook_message : {F : Floats} → OrderbookResponse F → StreamMessage F
format_orderbook_message r = record {
  asset_id = r.asset_id;
  bids = r.bids;
  asks = r.asks;
  metrics = r.metrics;
  last_update_ts = r.last_update_ts;
}

-- what a stream makes of the response to its query
unfoldable pub poll_of : {F : Floats} → OrderbookResponse F → Poll (StreamMessage F)
unfolding format_orderbook_message
poll_of r = if r.found then found (format_orderbook_message r) else not_found r.error

-- the answer to GET /orderbook: 500, 503, 404 with its error, or 200
pub data Reply (F : Floats) : Type 0 where
  server_error : Reply F
  unavailable : Reply F
  missing : String → Reply F
  book : OrderbookResponse F → Reply F

module _ (F : Floats) where
  -- the cache of the router and the queues of the workers that a request leaves, and the answer
  pub record Served : Type 0 where
    pub cache : Dict ℕ
    pub input_queues : List (List (Incoming F))
    pub responses : List (OrderbookResponse F)
    pub reply : Reply F

  abbrev pub unchanged :
      Dict ℕ → List (List (Incoming F)) → List (OrderbookResponse F) → Reply F → Served
  unchanged cache queues responses reply = record {
    cache = cache;
    input_queues = queues;
    responses = responses;
    reply = reply;
  }

  unfoldable pub reply_to : OrderbookResponse F → Reply F
  reply_to r = if r.found then book r else missing (error_text r.error)

  module _ (md5 : String → List ℕ) (parse_int : String → Option ℤ) where
    -- `_handle_orderbook`, with the text of the query's depth if it has one. `available` says that the
    -- workers and the router are there; an index out of range is a 500.
    unfoldable pub handle_orderbook :
        Bool
        → ℕ
        → String
        → Option String
        → String
        → ℕ
        → ℕ
        → List (List (OrderbookResponse F))
        → Dict ℕ
        → List (List (Incoming F))
        → List (OrderbookResponse F)
        → Served
    unfolding worker_for_asset query_orderbook reply_to
    handle_orderbook available n asset depth_text id taken capacity polls cache queues responses =
        let (cache', w) = worker_for_asset md5 n asset cache in
        elim (elim depth_text as (λ _. Option ℤ) [ none ↦ some (pos 10) | some t ↦ parse_int t ]) [
          | none ↦ unchanged cache queues responses server_error
          | some depth ↦
              if available
              then (elim (get_elem? queues w) [
                | none ↦ unchanged cache' queues responses server_error
                | some q ↦
                    let (q', responses', r) =
                      query_orderbook F id asset depth taken capacity polls q responses in
                    record {
                      cache = cache';
                      input_queues = set queues w q';
                      responses = responses';
                      reply = reply_to r;
                    }
              ])
              else unchanged cache queues responses unavailable
        ]

-- what `_handle_health` reads of the application
pub record Seen : Type 0 where
  pub healthy : Bool
  pub registry : Bool
  pub pool : Option ℕ
  pub router : Bool
  pub workers : Option Bool
  pub lifecycle : Option Bool
  pub recycler : Option Bool

pub record Components : Type 0 where
  pub registry : Bool
  pub pool : Bool
  pub router : Bool
  pub workers : Bool
  pub lifecycle : Bool
  pub recycler : Bool

abbrev or_false : Option Bool → Bool
or_false none = false
or_false (some b) = b

-- `_handle_health`: the status, and the components
unfoldable pub handle_health : Seen → ℕ × Components
handle_health s = (
  if s.healthy then 200 else 503,
  record {
    registry = s.registry;
    pool = elim s.pool [ none ↦ false | some n ↦ ltb 0 n ];
    router = s.router;
    workers = or_false s.workers;
    lifecycle = or_false s.lifecycle;
    recycler = or_false s.recycler;
  },
)
