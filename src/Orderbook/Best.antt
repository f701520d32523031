-- ===== src/Orderbook/Best.antt =====
-- The best prices of an orderbook (src/orderbook/orderbook.py), and what the cache holds.
use polypy.Prelude.{
  ℕ, ◌≤◌, ◌≡◌, ◌≢◌, refl, sym, ap, ◌∙◌, ◌+◌, Option, none, some, List, [], ◌∷◌, arith,
}
use polypy.Prelude.Int.{
  ℤ, pos, negsuc, pos_part, neg_part, neg, ◌≤ℤ◌, ◌<ℤ◌, ◌-ℤ◌, ◌+ℤ◌, half_floor, neg_parts, neg-neg,
  -ℤ_parts, +ℤ_parts,
}
use polypy.SortedDict.{SortedDict}
use polypy.SortedDict.Listing.{find, Above, IsSorted}
use polypy.Messages.{buy, sell, BookSnapshot, PriceChange}
use polypy.Orderbook.{
  OrderbookState, first_key, top_bid, top_ask, recompute_cache, fill_cache, best_bid, best_ask,
  spread, mid_price, apply_snapshot, apply_price_change, load_snapshot, load_change,
  maybe_capture_snapshot,
}
use mathlib.Core.Path.{subst}
use polypy.Orderbook.Reads.{capture_snapshot_lem, spread_lem, mid_price_lem}
use polypy.Orderbook.Views.{level}

-- A price is the highest, or the lowest, of a side: it has a level, and no other level beats it. None
-- is right of a side with no level.
abbrev pub IsHighest : (ℤ → Option ℤ) → Option ℤ → Type 0
IsHighest side none = (q : ℤ) → side q ≡ none
IsHighest side (some p) = (side p ≢ none) × ((q : ℤ) → side q ≢ none → q ≤ℤ p)

abbrev pub IsLowest : (ℤ → Option ℤ) → Option ℤ → Type 0
IsLowest side none = (q : ℤ) → side q ≡ none
IsLowest side (some p) = (side p ≢ none) × ((q : ℤ) → side q ≢ none → p ≤ℤ q)

-- what is found in a sorted listing is not below its first key
find_above : (k q : ℤ) (l : List (ℤ × ℤ)) → Above k l → find q l ≢ none → k <ℤ q
unfolding find
find_above k q [] a h = absurd (h refl)
find_above k q ((j, v) ∷ l) a h = ground (arith, find_above k q l a.1)

listing-IsLowest : (l : List (ℤ × ℤ)) → IsSorted l → IsLowest (λ q. find q l) (first_key l)
unfolding find first_key
listing-IsLowest [] s = λ q. refl
listing-IsLowest ((j, v) ∷ l) s = (ground arith, λ q h. ground (arith, find_above j q l s.0))

listing-IsHighest :
    (l : List (ℤ × ℤ))
    → IsSorted l
    → IsHighest (λ q. find (neg q) l) (elim (first_key l) [ none ↦ none | some k ↦ some (neg k) ])
unfolding find first_key
listing-IsHighest [] s = λ q. refl
listing-IsHighest ((j, v) ∷ l) s = (
  ground (arith, neg-neg j, neg_parts j),
  λ q h. ground (arith, find_above j (neg q) l s.0, neg_parts j, neg_parts q),
)

-- 2 * (x // 2) is x or x - 1, over the integers
half_floor_bounds :
    (x : ℤ)
    → (pos_part (half_floor x) + pos_part (half_floor x) + neg_part x
        ≤ pos_part x + neg_part (half_floor x) + neg_part (half_floor x))
      × (pos_part x + neg_part (half_floor x) + neg_part (half_floor x)
          ≤ pos_part (half_floor x) + pos_part (half_floor x) + neg_part x + 1)
unfolding half_floor
half_floor_bounds (pos n) = omega arith
half_floor_bounds (negsuc n) = omega arith

module _ (S : SortedDict) where
  top_bid-IsHighest : (s : OrderbookState S) → IsHighest (level S s buy) (top_bid S s.bids)
  unfolding top_bid level
  top_bid-IsHighest s = listing-IsHighest (S.items s.bids) (S.items-IsSorted s.bids)

  top_ask-IsLowest : (s : OrderbookState S) → IsLowest (level S s sell) (top_ask S s.asks)
  unfolding top_ask level
  top_ask-IsLowest s = listing-IsLowest (S.items s.asks) (S.items-IsSorted s.asks)

  -- a capture changes neither the maps nor what the filled cache holds
  fill_cache-maybe_capture_snapshot :
      (s : OrderbookState S)
      → ((maybe_capture_snapshot S s).bids ≡ s.bids)
        × ((maybe_capture_snapshot S s).asks ≡ s.asks)
        × ((fill_cache S (maybe_capture_snapshot S s)).cached_best_bid
            ≡ (fill_cache S s).cached_best_bid)
        × ((fill_cache S (maybe_capture_snapshot S s)).cached_best_ask
            ≡ (fill_cache S s).cached_best_ask)
  unfolding maybe_capture_snapshot fill_cache recompute_cache
  fill_cache-maybe_capture_snapshot s = ground (arith, capture_snapshot_lem S s)

  -- a loaded snapshot has no valid cache, so the filled cache is read from the maps
  filled_snapshot :
      (now : ℕ) (b : BookSnapshot) (t : ℤ) (s : OrderbookState S)
      → ((fill_cache S (load_snapshot S now b t s)).cached_best_bid
          ≡ top_bid S (load_snapshot S now b t s).bids)
        × ((fill_cache S (load_snapshot S now b t s)).cached_best_ask
            ≡ top_ask S (load_snapshot S now b t s).asks)
  unfolding fill_cache load_snapshot
  filled_snapshot now b t s = (refl, refl)

  -- a loaded change has the cache that the message states
  filled_change :
      (now : ℕ) (c : PriceChange) (t : ℤ) (s : OrderbookState S)
      → ((fill_cache S (load_change S now c t s)).cached_best_bid ≡ some c.best_bid)
        × ((fill_cache S (load_change S now c t s)).cached_best_ask ≡ some c.best_ask)
  unfolding fill_cache load_change
  filled_change now c t s = (refl, refl)

  -- After a snapshot, whatever the book held before, the best bid is the highest price of the bids
  -- and the best ask the lowest of the asks; None exactly for a side with no level.
  pub best_after_snapshot :
      (now : ℕ) (b : BookSnapshot) (t : ℤ) (s : OrderbookState S)
      → IsHighest
          (level S (apply_snapshot S now b t s) buy)
          (best_bid S (apply_snapshot S now b t s)).1
        × IsLowest
            (level S (apply_snapshot S now b t s) sell)
            (best_ask S (apply_snapshot S now b t s)).1
  unfolding apply_snapshot best_bid best_ask
  best_after_snapshot now b t s =
      let r = load_snapshot S now b t s in
      let s' = maybe_capture_snapshot S r in
      let (same_bids, same_asks, bid, ask) = fill_cache-maybe_capture_snapshot r in
      let (top, bottom) = filled_snapshot now b t s in
      (
        subst (IsHighest (level S s' buy)) (ap (top_bid S) same_bids ∙ sym top ∙ sym bid)
            (top_bid-IsHighest s'),
        subst (IsLowest (level S s' sell)) (ap (top_ask S) same_asks ∙ sym bottom ∙ sym ask)
            (top_ask-IsLowest s'),
      )

  -- After a price change the best prices, the spread and the mid price are those that the message
  -- states, whatever levels the book holds.
  pub best_after_change :
      (now : ℕ) (c : PriceChange) (t : ℤ) (s : OrderbookState S)
      → ((best_bid S (apply_price_change S now c t s)).1 ≡ some c.best_bid)
        × ((best_ask S (apply_price_change S now c t s)).1 ≡ some c.best_ask)
        × ((spread S (apply_price_change S now c t s)).1 ≡ some (c.best_ask -ℤ c.best_bid))
        × ((mid_price S (apply_price_change S now c t s)).1
            ≡ some (half_floor (c.best_bid +ℤ c.best_ask)))
  unfolding apply_price_change best_bid best_ask
  best_after_change now c t s =
      let r = load_change S now c t s in
      let s' = maybe_capture_snapshot S r in
      let (_, _, bid, ask) = fill_cache-maybe_capture_snapshot r in
      let (stated_bid, stated_ask) = filled_change now c t s in
      (
        bid ∙ stated_bid,
        ask ∙ stated_ask,
        rw spread_lem (rw (bid ∙ stated_bid, ask ∙ stated_ask)),
        rw mid_price_lem (rw (bid ∙ stated_bid, ask ∙ stated_ask)),
      )

  -- Where the best bid is at most the best ask, the mid price lies between them, and the spread is
  -- not negative.
  pub mid_price_between :
      (s : OrderbookState S) (b a m g : ℤ)
      → (best_bid S s).1 ≡ some b
      → (best_ask S s).1 ≡ some a
      → (mid_price S s).1 ≡ some m
      → (spread S s).1 ≡ some g
      → b ≤ℤ a
      → (b ≤ℤ m) × (m ≤ℤ a) × (pos 0 ≤ℤ g)
  unfolding best_bid best_ask
  mid_price_between s b a m g hb ha hm hg h =
      let m_is : m ≡ half_floor (b +ℤ a) = ground (arith, mid_price_lem S s) in
      let g_is : g ≡ a -ℤ b = ground (arith, spread_lem S s) in
      rw (m_is, g_is)
        (
          omega (arith, half_floor_bounds (b +ℤ a), +ℤ_parts b a),
          omega (arith, half_floor_bounds (b +ℤ a), +ℤ_parts b a),
          omega (arith, -ℤ_parts a b),
        )
