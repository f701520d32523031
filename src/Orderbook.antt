-- ===== src/Orderbook.antt =====
-- One orderbook (src/orderbook/orderbook.py): two sorted price maps, a cache of the best prices and a
-- bounded history. Bids are keyed by the negated price. A property that fills the cache returns the
-- state beside its value; `now` is a reading of the monotonic clock.
pub mod History
pub mod Views
pub mod Reads
pub mod Levels
pub mod Best
pub mod Depth
pub mod Store
pub mod Tests
use polypy.Prelude.{
  ℕ, ◌+◌, ◌-◌, String, Bool, true, false, not, ◌||◌, Option, none, some, List, [], ◌∷◌, ◌++◌,
  length, drop, if◌then◌else◌,
}
use polypy.Prelude.Int.{ℤ, pos, ◌+ℤ◌, ◌-ℤ◌, neg, half_floor, ltb_ℤ, leb_ℤ, eqb_ℤ}
use polypy.SortedDict
use polypy.SortedDict.{SortedDict}
use polypy.Messages.{Side, buy, sell, PriceLevel, BookSnapshot, PriceChange}

pub record OrderbookSnapshot : Type 0 where
  pub timestamp : ℤ
  pub best_bid : Option ℤ
  pub best_ask : Option ℤ
  pub spread : Option ℤ
  pub mid_price : Option ℤ
  pub bid_depth : ℤ
  pub ask_depth : ℤ

pub record OrderbookState (S : SortedDict) : Type 0 where
  pub asset_id : String
  pub market : String
  pub bids : S.Map ℤ
  pub asks : S.Map ℤ
  pub last_hash : String
  pub last_update_ts : ℤ
  pub local_update_ts : ℕ
  pub cached_best_bid : Option ℤ
  pub cached_best_ask : Option ℤ
  pub cache_valid : Bool
  pub history : List OrderbookSnapshot

abbrev pub history_maxlen : ℕ
history_maxlen = 100

abbrev pub history_interval_ms : ℤ
history_interval_ms = pos 30000

-- deque.append with a maxlen: the oldest goes
unfoldable pub append_bounded {ℓ} : {A : Type ℓ} → ℕ → A → List A → List A
append_bounded cap x l = let l' = l ++ x ∷ [] in drop (length l' - cap) l'

-- deque[-1]
unfoldable pub last? {ℓ} : {A : Type ℓ} → List A → Option A
last? [] = none
last? (x ∷ xs) = elim (last? xs) [ none ↦ some x | some y ↦ some y ]

unfoldable pub sum : List ℤ → ℤ
sum [] = pos 0
sum (x ∷ xs) = x +ℤ sum xs

-- the first key of a listing
unfoldable pub first_key : List (ℤ × ℤ) → Option ℤ
first_key [] = none
first_key (e ∷ l) = some e.0

-- `a is not None and b is not None`
abbrev pub both : Option ℤ → Option ℤ → (ℤ → ℤ → ℤ) → Option ℤ
both none _ f = none
both (some a) none f = none
both (some a) (some b) f = some (f a b)

-- the test of `_maybe_capture_snapshot`
unfoldable pub capture_due : ℤ → Option OrderbookSnapshot → Bool
unfolding ◌-ℤ◌
capture_due now none = true
capture_due now (some last) = leb_ℤ history_interval_ms (now -ℤ last.timestamp)

module _ (S : SortedDict) where
  -- OrderbookState(asset_id, market)
  unfoldable pub init : String → String → OrderbookState S
  init a m = record {
    asset_id = a;
    market = m;
    bids = S.empty;
    asks = S.empty;
    last_hash = "";
    last_update_ts = pos 0;
    local_update_ts = 0;
    cached_best_bid = none;
    cached_best_ask = none;
    cache_valid = false;
    history = [];
  }

  -- for level in levels: if level.size > 0: m[key(level.price)] = level.size
  unfoldable pub load_levels : (ℤ → ℤ) → List PriceLevel → S.Map ℤ → S.Map ℤ
  load_levels key [] m = m
  load_levels key (level ∷ levels) m =
      load_levels key levels
        (if ltb_ℤ (pos 0) level.size then S.set_item m (key level.price) level.size else m)

  unfoldable pub update_price_level : ℤ → ℤ → S.Map ℤ → S.Map ℤ
  update_price_level key size m = if eqb_ℤ size (pos 0) then S.pop m key else S.set_item m key size

  unfoldable pub invalidate_cache : OrderbookState S → OrderbookState S
  invalidate_cache s = record s {
    cache_valid = false;
    cached_best_bid = none;
    cached_best_ask = none;
  }

  -- the highest bid is the first negated key
  unfoldable pub top_bid : S.Map ℤ → Option ℤ
  unfolding first_key
  top_bid m = elim (first_key (S.items m)) [ none ↦ none | some k ↦ some (neg k) ]

  unfoldable pub top_ask : S.Map ℤ → Option ℤ
  unfolding first_key
  top_ask m = first_key (S.items m)

  unfoldable pub recompute_cache : OrderbookState S → OrderbookState S
  unfolding top_bid top_ask
  recompute_cache s = record s {
    cached_best_bid = top_bid s.bids;
    cached_best_ask = top_ask s.asks;
    cache_valid = true;
  }

  -- what every reader of a best price does first
  unfoldable pub fill_cache : OrderbookState S → OrderbookState S
  unfolding recompute_cache
  fill_cache s = if s.cache_valid then s else recompute_cache s

  unfoldable pub best_bid : OrderbookState S → OrderbookState S × Option ℤ
  best_bid s = let s' = fill_cache s in (s', s'.cached_best_bid)

  unfoldable pub best_ask : OrderbookState S → OrderbookState S × Option ℤ
  best_ask s = let s' = fill_cache s in (s', s'.cached_best_ask)

  unfoldable pub spread : OrderbookState S → OrderbookState S × Option ℤ
  unfolding best_bid best_ask
  spread s =
      let (s1, bid) = best_bid s in
      let (s2, ask) = best_ask s1 in (s2, both bid ask (λ b a. a -ℤ b))

  unfoldable pub mid_price : OrderbookState S → OrderbookState S × Option ℤ
  unfolding best_bid best_ask
  mid_price s =
      let (s1, bid) = best_bid s in
      let (s2, ask) = best_ask s1 in (s2, both bid ask (λ b a. half_floor (b +ℤ a)))

  unfoldable pub capture_snapshot : OrderbookState S → OrderbookState S
  capture_snapshot s =
      let (s1, bid) = best_bid s in
      let (s2, ask) = best_ask s1 in
      let (s3, gap) = spread s2 in
      let (s4, mid) = mid_price s3 in
      record s4 {
        history =
            append_bounded history_maxlen
              (record {
                timestamp = s.last_update_ts;
                best_bid = bid;
                best_ask = ask;
                spread = gap;
                mid_price = mid;
                bid_depth = sum (SortedDict.values S s.bids);
                ask_depth = sum (SortedDict.values S s.asks);
              })
              s4.history;
      }

  unfoldable pub maybe_capture_snapshot : OrderbookState S → OrderbookState S
  maybe_capture_snapshot s =
      if capture_due s.last_update_ts (last? s.history) then capture_snapshot s else s

  -- `apply_snapshot` up to the capture
  unfoldable pub load_snapshot : ℕ → BookSnapshot → ℤ → OrderbookState S → OrderbookState S
  unfolding load_levels invalidate_cache
  load_snapshot now snapshot timestamp s = invalidate_cache (record s {
    bids = load_levels neg snapshot.bids S.empty;
    asks = load_levels (λ p. p) snapshot.asks S.empty;
    last_hash = snapshot.hash;
    last_update_ts = timestamp;
    local_update_ts = now;
  })

  unfoldable pub apply_snapshot : ℕ → BookSnapshot → ℤ → OrderbookState S → OrderbookState S
  apply_snapshot now snapshot timestamp s =
      maybe_capture_snapshot (load_snapshot now snapshot timestamp s)

  -- the level of the change, on its side
  unfoldable pub change_level : PriceChange → OrderbookState S → OrderbookState S
  unfolding update_price_level
  change_level c s = elim c.side [
    | buy ↦ record s { bids = update_price_level (neg c.price) c.size s.bids }
    | sell ↦ record s { asks = update_price_level c.price c.size s.asks }
  ]

  -- `apply_price_change` up to the capture
  unfoldable pub load_change : ℕ → PriceChange → ℤ → OrderbookState S → OrderbookState S
  unfolding change_level
  load_change now c timestamp s = record (change_level c s) {
    cached_best_bid = some c.best_bid;
    cached_best_ask = some c.best_ask;
    cache_valid = true;
    last_hash = c.hash;
    last_update_ts = timestamp;
    local_update_ts = now;
  }

  unfoldable pub apply_price_change : ℕ → PriceChange → ℤ → OrderbookState S → OrderbookState S
  apply_price_change now c timestamp s = maybe_capture_snapshot (load_change now c timestamp s)
