-- ===== src/Worker/Queries.antt =====
-- The queries that a worker answers (src/worker/worker.py, `_handle_orderbook_request`).
use polypy.Prelude.{ℕ, true, false, none, some, List, [], ◌∷◌, map, if◌then◌else◌}
use polypy.Prelude.Int.{pos}
use polypy.SortedDict.{SortedDict}
use polypy.Messages.{Floats, PriceLevel, price_scale, size_scale}
use polypy.Orderbook.{OrderbookState, spread, mid_price}
use polypy.Orderbook.Views.{get_bids, get_asks, get_history}
use polypy.Orderbook.Store.{get_state}
use polypy.Worker.{
  OrderbookRequest, OrderbookResponse, FloatArithmetic, Worker, history_limit, history_point,
  if_nonzero, put_nowait, write_book,
}

module _ (S : SortedDict) (F : Floats) where
  module _ (R : FloatArithmetic F) where
    unfoldable pub unscale_level : PriceLevel → F.Float × F.Float
    unscale_level l = (R.rounded l.price price_scale, R.rounded l.size size_scale)

    -- sum(size for _, size in levels)
    unfoldable pub volume : List (F.Float × F.Float) → F.Float → F.Float
    volume [] total = total
    volume (l ∷ ls) total = volume ls (R.add total l.1)

    unfoldable pub imbalance_of : List (F.Float × F.Float) → List (F.Float × F.Float) → F.Float
    unfolding volume
    imbalance_of bids asks =
        let bid_vol = volume bids R.zero_float in
        let total_vol = R.add bid_vol (volume asks R.zero_float) in
        if R.is_positive total_vol then R.divide bid_vol total_vol else R.half

    -- the response for a book; reading the metrics fills its cache
    unfoldable pub describe :
        OrderbookRequest → OrderbookState S → OrderbookState S × OrderbookResponse F
    unfolding unscale_level imbalance_of history_point
    describe q b =
        let bids = map unscale_level (get_bids S b q.depth) in
        let asks = map unscale_level (get_asks S b q.depth) in
        let (b1, gap) = spread S b in
        let (b2, mid) = mid_price S b1 in
        (
          b2,
          record {
            request_id = q.request_id;
            asset_id = q.asset_id;
            found = true;
            bids = bids;
            asks = asks;
            metrics = some (record {
              spread = if_nonzero gap (λ n. R.rounded n price_scale);
              mid_price = if_nonzero mid (λ n. R.rounded n price_scale);
              imbalance = imbalance_of bids asks;
            });
            last_update_ts = b.last_update_ts;
            history = map history_point (get_history S b history_limit);
            error = none;
          },
        )

    unfoldable pub not_found : OrderbookRequest → OrderbookResponse F
    not_found q = record {
      request_id = q.request_id;
      asset_id = q.asset_id;
      found = false;
      bids = [];
      asks = [];
      metrics = none;
      last_update_ts = pos 0;
      history = [];
      error = some "Asset not found";
    }

    unfoldable pub handle_orderbook_request : ℕ → OrderbookRequest → Worker S F → Worker S F
    unfolding describe not_found write_book
    handle_orderbook_request capacity q w = elim (get_state S w.store q.asset_id) [
      | none ↦ record w { response_queue = put_nowait capacity (not_found q) w.response_queue }
      | some b ↦
          let (b', response) = describe q b in
          record w {
            store = write_book q.asset_id b' w.store;
            response_queue = put_nowait capacity response w.response_queue;
          }
    ]
