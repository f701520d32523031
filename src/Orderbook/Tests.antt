-- ===== src/Orderbook/Tests.antt =====
-- Orderbooks and their store (src/orderbook/) at concrete inputs.
use polypy.Prelude.{
  ℕ, String, ◌≡◌, refl, Option, none, some, List, [], ◌∷◌, length, min, All, arith, ◌≤◌, Bool, true,
  false, ◌||◌, ◌==◌,
}
use polypy.Prelude.Int.{pos, ◌+ℤ◌, ◌-ℤ◌, half_floor}
use polypy.SortedDict.Reference.{sorted_listing}
use polypy.Messages.{buy, BookSnapshot, PriceChange}
use polypy.Orderbook.{
  OrderbookState, init, apply_snapshot, apply_price_change, best_bid, best_ask, spread, mid_price,
}
use polypy.Orderbook.Views.{level}
use polypy.Orderbook.Levels.{Update, snapshot, change, run, specify_run, run_refines}
use polypy.Orderbook.History.{IsHistory, run-IsHistory}
use polypy.Orderbook.Store.{Asset, OrderbookStore, empty_store, register_asset}
use polypy.Orderbook.Store.Markets.{IsIndexed, register_asset-IsIndexed}

abbrev book : BookSnapshot
book = record {
  hash = "h1";
  bids =
      record { price = pos 480; size = pos 10 }
      ∷ record { price = pos 500; size = pos 20 }
      ∷ record { price = pos 490; size = pos 0 }
      ∷ [];
  asks = record { price = pos 520; size = pos 30 } ∷ [];
}

abbrev raise_bid : PriceChange
raise_bid = record {
  asset_id = "yes";
  price = pos 510;
  size = pos 5;
  side = buy;
  hash = "h2";
  best_bid = pos 510;
  best_ask = pos 520;
}

abbrev fresh : OrderbookState sorted_listing
fresh = init sorted_listing "yes" "game"

abbrev updates : List Update
updates = snapshot 1 book (pos 1000) ∷ change 2 raise_bid (pos 40000) ∷ []

abbrev loaded : OrderbookState sorted_listing
loaded = apply_snapshot sorted_listing 1 book (pos 1000) fresh

run_refines_example :
    level sorted_listing (run sorted_listing updates fresh) buy (pos 510)
    ≡ specify_run sorted_listing updates (level sorted_listing fresh) buy (pos 510)
run_refines_example = run_refines sorted_listing updates fresh buy (pos 510)

specify_run_test : specify_run sorted_listing updates (λ _ _. none) buy (pos 510) ≡ some (pos 5)
unfolding specify_run polypy.Orderbook.Levels.latest
specify_run_test = refl

empty-IsHistory : IsHistory []
empty-IsHistory = record { bounded = omega arith; spaced = tt }

run-IsHistory_example : IsHistory (run sorted_listing updates fresh).history
run-IsHistory_example = run-IsHistory sorted_listing updates fresh (unfold init in empty-IsHistory)

-- a book whose best prices are known
abbrev quoted : OrderbookState sorted_listing
quoted = record fresh {
  cached_best_bid = some (pos 500);
  cached_best_ask = some (pos 521);
  cache_valid = true;
}

quoted_bid : (best_bid sorted_listing quoted).1 ≡ some (pos 500)
unfolding best_bid polypy.Orderbook.fill_cache
quoted_bid = refl

quoted_ask : (best_ask sorted_listing quoted).1 ≡ some (pos 521)
unfolding best_ask polypy.Orderbook.fill_cache
quoted_ask = refl

quoted_mid : (mid_price sorted_listing quoted).1 ≡ some (pos 510)
unfolding mid_price polypy.Orderbook.fill_cache half_floor ◌+ℤ◌
quoted_mid = refl

quoted_spread : (spread sorted_listing quoted).1 ≡ some (pos 21)
unfolding spread polypy.Orderbook.fill_cache ◌-ℤ◌
quoted_spread = refl

empty_store-IsIndexed : IsIndexed sorted_listing (empty_store sorted_listing)
unfolding empty_store polypy.Prelude.Dict.get polypy.Prelude.Ids.member
empty_store-IsIndexed = record { listed = λ a m. refl; distinct = λ m. tt }

abbrev yes_asset : Asset
yes_asset = record { asset_id = "yes"; market = "game" }

abbrev one_book : OrderbookStore sorted_listing
one_book = (register_asset sorted_listing yes_asset (empty_store sorted_listing)).0

one_book-IsIndexed : IsIndexed sorted_listing one_book
one_book-IsIndexed =
    register_asset-IsIndexed sorted_listing (empty_store sorted_listing) empty_store-IsIndexed
      yes_asset
