-- ===== src/Orderbook/Store.antt =====
-- The collection of orderbooks of a worker (src/orderbook/orderbook_store.py): the books by asset and
-- the assets by market.
pub mod Markets
use polypy.Prelude.{
  ℕ, ◌+◌, String, ◌≡◌, Bool, true, false, Option, none, some, List, [], ◌∷◌, ◌++◌, map, ◌==◌,
  if◌then◌else◌,
}
use polypy.Prelude.Ids.{member}
use polypy.Prelude.Dict.{Dict, get, put, remove, has}
use polypy.SortedDict.{SortedDict}
use polypy.Orderbook.{OrderbookState, init}
use polypy.Orderbook.Views.{size_of}

pub record Asset : Type 0 where
  pub asset_id : String
  pub market : String

pub record OrderbookStore (S : SortedDict) : Type 0 where
  pub books : Dict (OrderbookState S)
  pub by_market : Dict (List String)

abbrev pub assets_at : Dict (List String) → String → List String
assets_at d m = elim (get d m) [ none ↦ [] | some ids ↦ ids ]

-- `for i, x in enumerate(l): if x == a: l.pop(i)`, on the list that the loop walks: a pop moves the
-- next element to the place just passed, so that it is not looked at.
unfoldable pub pop_matches : String → List String → List String
pop_matches a [] = []
pop_matches a (x ∷ []) = if x == a then [] else x ∷ []
pop_matches a (x ∷ y ∷ l) =
    let popped = y ∷ pop_matches a l in
    let kept = x ∷ pop_matches a (y ∷ l) in if x == a then popped else kept

-- if market not in d: d[market] = []; if a not in d[market]: d[market].append(a)
unfoldable pub add_market : Asset → Dict (List String) → Dict (List String)
unfolding member
add_market a d =
    let d' = if has d a.market then d else put d a.market [] in
    let ids = assets_at d' a.market in
    if member a.asset_id ids then d' else put d' a.market (ids ++ a.asset_id ∷ [])

-- the market index after a book has been taken out
unfoldable pub drop_market : String → String → Dict (List String) → Dict (List String)
unfolding pop_matches
drop_market a market d =
    if market == ""
    then d
    else elim (get d market) [ none ↦ d | some ids ↦ put d market (pop_matches a ids) ]

unfoldable pub sum_sizes : List ℕ → ℕ
sum_sizes [] = 0
sum_sizes (n ∷ ns) = n + sum_sizes ns

module _ (S : SortedDict) where
  unfoldable pub empty_store : OrderbookStore S
  empty_store = record { books = []; by_market = [] }

  unfoldable pub get_state : OrderbookStore S → String → Option (OrderbookState S)
  get_state s a = get s.books a

  unfoldable pub add_state : Asset → OrderbookStore S → OrderbookStore S × OrderbookState S
  unfolding add_market
  add_state a s =
      let book = init S a.asset_id a.market in
      (record { books = put s.books a.asset_id book; by_market = add_market a s.by_market }, book)

  unfoldable pub register_asset : Asset → OrderbookStore S → OrderbookStore S × OrderbookState S
  unfolding add_state get_state
  register_asset a s = elim (get_state s a.asset_id) [
    | none ↦ add_state a s
    | some book ↦ (s, book)
  ]

  unfoldable pub remove_state : String → OrderbookStore S → OrderbookStore S × Bool
  unfolding drop_market
  remove_state a s = elim (get s.books a) [
    | none ↦ (s, false)
    | some book ↦ (
      record { books = remove s.books a; by_market = drop_market a book.market s.by_market },
      true,
    )
  ]

  unfoldable pub memory_usage : ℕ → OrderbookStore S → ℕ
  unfolding sum_sizes size_of
  memory_usage base s = sum_sizes (map (λ e. size_of S base e.1) s.books)
