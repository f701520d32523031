-- ===== src/Orderbook/Reads.antt =====
-- The properties that fill the cache of an orderbook (src/orderbook/orderbook.py): all of them leave
-- the same state, so a capture reads one cache.
use polypy.Prelude.{◌≡◌, refl, arith}
use polypy.Prelude.Int.{◌-ℤ◌, ◌+ℤ◌, half_floor}
use polypy.SortedDict
use polypy.SortedDict.{SortedDict}
use polypy.Orderbook.{
  OrderbookState, OrderbookSnapshot, history_maxlen, append_bounded, sum, both, fill_cache,
  best_bid, best_ask, spread, mid_price, capture_snapshot,
}

module _ (S : SortedDict) where
  pub fill_cache_idem : (s : OrderbookState S) → fill_cache S (fill_cache S s) ≡ fill_cache S s
  unfolding fill_cache
  fill_cache_idem s = ground arith

  pub state-best_bid : (s : OrderbookState S) → (best_bid S s).0 ≡ fill_cache S s
  unfolding best_bid
  state-best_bid s = refl

  pub state-best_ask : (s : OrderbookState S) → (best_ask S s).0 ≡ fill_cache S s
  unfolding best_ask
  state-best_ask s = refl

  -- The spread and the mid price are those of the filled cache.
  pub spread_lem :
      (s : OrderbookState S)
      → spread S s ≡ (
        fill_cache S s,
        both (fill_cache S s).cached_best_bid (fill_cache S s).cached_best_ask (λ b a. a -ℤ b),
      )
  unfolding spread
  spread_lem s = rw fill_cache_idem

  pub mid_price_lem :
      (s : OrderbookState S)
      → mid_price S s ≡ (
        fill_cache S s,
        both
            (fill_cache S s).cached_best_bid
            (fill_cache S s).cached_best_ask
            (λ b a. half_floor (b +ℤ a)),
      )
  unfolding mid_price
  mid_price_lem s = rw fill_cache_idem

  -- the snapshot that a capture appends
  unfoldable pub taken : OrderbookState S → OrderbookSnapshot
  taken s = record {
    timestamp = s.last_update_ts;
    best_bid = (fill_cache S s).cached_best_bid;
    best_ask = (fill_cache S s).cached_best_ask;
    spread = both (fill_cache S s).cached_best_bid (fill_cache S s).cached_best_ask (λ b a. a -ℤ b);
    mid_price =
        both (fill_cache S s).cached_best_bid (fill_cache S s).cached_best_ask
          (λ b a. half_floor (b +ℤ a));
    bid_depth = sum (SortedDict.values S s.bids);
    ask_depth = sum (SortedDict.values S s.asks);
  }

  history-fill_cache : (s : OrderbookState S) → (fill_cache S s).history ≡ s.history
  unfolding fill_cache
  history-fill_cache s = ground arith

  pub capture_snapshot_lem :
      (s : OrderbookState S)
      → capture_snapshot S s
        ≡ record (fill_cache S s) { history = append_bounded history_maxlen (taken s) s.history }
  unfolding capture_snapshot taken best_bid best_ask
  capture_snapshot_lem s = simp (fill_cache_idem, spread_lem, mid_price_lem, history-fill_cache)
