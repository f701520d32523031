-- ===== src/Orderbook/Store/Markets.antt =====
-- The market index of a store agrees with its books (src/orderbook/orderbook_store.py).
use polypy.Prelude.{
  String, ◌≡◌, refl, Bool, false, ◌||◌, ◌&&◌, not, ◌++◌, Option, none, some, List, [], ◌∷◌, ◌==◌,
  eq_iff, eq_self, arith, Option-cases, Option-elim, inl, inr, if-elim, if◌then◌else◌,
}
use polypy.Prelude.Ids.{
  member, discard, member-append, member-discard, Distinct, Distinct-snoc, Distinct-discard,
  discard_absent,
}
use polypy.Prelude.Dict.{Dict, get, put, get-put, get-remove}
use polypy.SortedDict.{SortedDict}
use polypy.Orderbook.{OrderbookState, init}
use polypy.Orderbook.Store.{
  Asset, OrderbookStore, assets_at, pop_matches, add_market, drop_market, add_state, register_asset,
  remove_state, get_state,
}

-- a book of a market; a missing book is of none
abbrev pub of_market : {S : SortedDict} → String → Option (OrderbookState S) → Bool
of_market m none = false
of_market m (some b) = b.market == m

-- The index lists an asset under a market exactly if the store holds its book with that market, and
-- lists none twice. (Under the empty name, which is no market, an asset stays listed.)
pub record IsIndexed (S : SortedDict) (s : OrderbookStore S) : Type 0 where
  pub listed :
      (a m : String)
      → (m == "" || member a (assets_at s.by_market m)) ≡ (m == "" || of_market m (get s.books a))
  pub distinct : (m : String) → Distinct (assets_at s.by_market m)

-- in a list without repeats the skipped element does not matter
pop_matches-discard : (a : String) (l : List String) → Distinct l → pop_matches a l ≡ discard a l
unfolding pop_matches discard member
pop_matches-discard a [] d = refl
pop_matches-discard a (x ∷ []) d = refl
pop_matches-discard a (x ∷ y ∷ l) d = ground (
  arith,
  pop_matches-discard a l d.1.1,
  pop_matches-discard a (y ∷ l) d.1,
  discard_absent a l,
  eq_iff x a,
  eq_iff y a,
)

assets_at-put :
    (d : Dict (List String)) (k m : String) (ids : List String)
    → assets_at (put d k ids) m ≡ (if k == m then ids else assets_at d m)
assets_at-put d k m ids = ground (arith, get-put d k m ids)

-- the list of a market after `add_market`
assets_at-add_market :
    (a : Asset) (d : Dict (List String)) (m : String)
    → assets_at (add_market a d) m ≡ (
        if a.market == m
        then if member a.asset_id (assets_at d m)
          then assets_at d m
          else assets_at d m ++ a.asset_id ∷ []
        else assets_at d m)
unfolding add_market
assets_at-add_market a d m = ground (
  arith,
  eq_iff a.market m,
  eq_self a.market,
  get-put d a.market m [],
  get-put d a.market a.market [],
  get-put d a.market m (assets_at d a.market ++ a.asset_id ∷ []),
  get-put (put d a.market []) a.market m ([] ++ a.asset_id ∷ []),
)

-- the list of a market after `drop_market`
assets_at-drop_market :
    (a k : String) (d : Dict (List String)) (m : String)
    → assets_at (drop_market a k d) m
      ≡ (if k == m && not (k == "") then pop_matches a (assets_at d m) else assets_at d m)
unfolding drop_market pop_matches
assets_at-drop_market a k d m = elim (Option-cases (get d k)) [
  | inl e ↦ ground (arith, e, eq_iff k m)
  | inr (ids, e) ↦ ground (arith, e, eq_iff k m, get-put d k m (pop_matches a ids))
]

module _ (S : SortedDict) (s : OrderbookStore S) (h : IsIndexed S s) where
  add_state-IsIndexed :
      (a : Asset) → get s.books a.asset_id ≡ none → IsIndexed S (add_state S a s).0
  unfolding add_state init member
  add_state-IsIndexed a new = record {
    listed = λ b m. simp get-put (
        ground (
          arith,
          h.listed b m,
          assets_at-add_market a s.by_market m,
          member-append b (assets_at s.by_market m) (a.asset_id ∷ []),
          eq_iff a.asset_id b,
          eq_iff m "",
        ));
    distinct = λ m. rw assets_at-add_market (
        if-elim Distinct (a.market == m)
          (λ _.
            if-elim Distinct (member a.asset_id (assets_at s.by_market m)) (λ _. h.distinct m)
              (λ new_there.
                Distinct-snoc a.asset_id (assets_at s.by_market m) (h.distinct m) new_there))
          (λ _. h.distinct m));
  }

  -- Registering an asset, known or new, keeps the market index exact.
  pub register_asset-IsIndexed : (a : Asset) → IsIndexed S (register_asset S a s).0
  unfolding register_asset get_state
  register_asset-IsIndexed a =
      Option-elim (λ (r : OrderbookStore S × OrderbookState S). IsIndexed S r.0)
        (get s.books a.asset_id) (λ new. add_state-IsIndexed a new) (λ _ _. h)

  -- Removing a book takes its asset out of its market, and keeps the index exact: the loop that pops
  -- from the list it walks misses nothing, since a market lists no asset twice.
  pub remove_state-IsIndexed : (a : String) → IsIndexed S (remove_state S a s).0
  unfolding remove_state
  remove_state-IsIndexed a =
      Option-elim (λ (r : OrderbookStore S × Bool). IsIndexed S r.0) (get s.books a) (λ _. h)
        (λ book known. record {
          listed = λ b m. simp get-remove (
              ground (
                arith,
                known,
                h.listed b m,
                assets_at-drop_market a book.market s.by_market m,
                pop_matches-discard a (assets_at s.by_market m) (h.distinct m),
                member-discard a b (assets_at s.by_market m),
                eq_iff a b,
                eq_iff book.market m,
              ));
          distinct = λ m. rw assets_at-drop_market (
              if-elim Distinct (book.market == m && not (book.market == ""))
                (λ _.
                  rw (pop_matches-discard a (assets_at s.by_market m) (h.distinct m))
                    (Distinct-discard a (assets_at s.by_market m) (h.distinct m)))
                (λ _. h.distinct m));
        })
