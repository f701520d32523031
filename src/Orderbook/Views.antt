-- ===== src/Orderbook/Views.antt =====
-- The readings of an orderbook (src/orderbook/orderbook.py): its levels, best first, its history,
-- newest first, and its size in memory. The sizes of texts and of the bare object are Python's.
use polypy.Prelude.{ℕ, ◌+◌, ◌*◌, Option, List, [], length, map, if◌then◌else◌}
use polypy.Prelude.Int.{ℤ, pos, neg, eqb_ℤ}
use polypy.Prelude.Slices.{slice_to}
use mathlib.Core.List.{reverse}
use Prim.Native.String.{count}
use polypy.SortedDict.{SortedDict}
use polypy.Messages.{Side, buy, sell, PriceLevel}
use polypy.Orderbook.{OrderbookState, OrderbookSnapshot}
use polypy.SortedDict.Listing.{find}

module _ (S : SortedDict) where
  unfoldable pub get_bids : OrderbookState S → ℤ → List PriceLevel
  unfolding slice_to
  get_bids s depth =
      if eqb_ℤ depth (pos 0)
      then []
      else map (λ e. record { price = neg e.0; size = e.1 }) (slice_to (S.items s.bids) depth)

  unfoldable pub get_asks : OrderbookState S → ℤ → List PriceLevel
  unfolding slice_to
  get_asks s depth =
      if eqb_ℤ depth (pos 0)
      then []
      else map (λ e. record { price = e.0; size = e.1 }) (slice_to (S.items s.asks) depth)

  unfoldable pub get_history : OrderbookState S → ℤ → List OrderbookSnapshot
  unfolding slice_to
  get_history s limit = slice_to (reverse s.history) limit

  -- `base` is object.__sizeof__(self)
  unfoldable pub size_of : ℕ → OrderbookState S → ℕ
  size_of base s =
      base
      + 8 * 10
      + (64 + length (S.items s.bids) * 16)
      + (64 + length (S.items s.asks) * 16)
      + (count s.asset_id + count s.market + count s.last_hash)

  -- The size at a price, which a client sees of a side of the book.
  unfoldable pub level : OrderbookState S → Side → ℤ → Option ℤ
  level s buy p = find (neg p) (S.items s.bids)
  level s sell p = find p (S.items s.asks)
