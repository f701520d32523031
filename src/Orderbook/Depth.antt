-- ===== src/Orderbook/Depth.antt =====
-- The levels that `get_bids` and `get_asks` list (src/orderbook/orderbook.py), and the sizes that a
-- book holds.
use polypy.Prelude.{
  ℕ, zero, suc, ◌≡◌, refl, some, List, [], ◌∷◌, map, length, take, length-take, min, arith, All,
  All-map, if-elim,
}
use polypy.Prelude.Int.{ℤ, pos, neg, ◌<ℤ◌, eqb_ℤ, neg_parts, neg-neg}
use polypy.SortedDict.{SortedDict}
use polypy.SortedDict.Listing.{find, find_each, IsSorted}
use polypy.Messages.{buy, sell, PriceLevel}
use polypy.Orderbook.{OrderbookState}
use polypy.Orderbook.Views.{level, get_bids, get_asks}

-- each price lies strictly below, or above, the one before
abbrev pub Descending : List PriceLevel → Type 0
Descending [] = Unit
Descending (l ∷ ls) = All (λ x. x.price <ℤ l.price) ls × Descending ls

abbrev pub Ascending : List PriceLevel → Type 0
Ascending [] = Unit
Ascending (l ∷ ls) = All (λ x. l.price <ℤ x.price) ls × Ascending ls

abbrev bid_level : ℤ × ℤ → PriceLevel
bid_level e = record { price = neg e.0; size = e.1 }

abbrev ask_level : ℤ × ℤ → PriceLevel
ask_level e = record { price = e.0; size = e.1 }

All-take {ℓ κ} : {A : Type ℓ} (P : A → Type κ) (n : ℕ) (l : List A) → All P l → All P (take n l)
All-take P zero l h = tt
All-take P (suc n) [] h = tt
All-take P (suc n) (x ∷ l) h = (h.0, All-take P n l h.1)

All-map_lem {ℓ κ μ} :
    {A : Type ℓ} {B : Type κ} (f : A → B) (P : B → Type μ) (l : List A)
    → All (λ x. P (f x)) l
    → All P (map f l)
All-map_lem f P [] h = tt
All-map_lem f P (x ∷ l) h = (h.0, All-map_lem f P l h.1)

length-map {ℓ κ} : {A : Type ℓ} {B : Type κ} (f : A → B) (l : List A) → length (map f l) ≡ length l
length-map f [] = refl
length-map f (x ∷ l) = omega (arith, length-map f l)

take-IsSorted : (n : ℕ) (l : List (ℤ × ℤ)) → IsSorted l → IsSorted (take n l)
take-IsSorted zero l s = tt
take-IsSorted (suc n) [] s = tt
take-IsSorted (suc n) (e ∷ l) s = (All-take _ n l s.0, take-IsSorted n l s.1)

bids-Descending : (l : List (ℤ × ℤ)) → IsSorted l → Descending (map bid_level l)
bids-Descending [] s = tt
bids-Descending (e ∷ l) s = (
  All-map_lem bid_level (λ x. x.price <ℤ neg e.0) l
      (All-map _ _ (λ x h. omega (arith, h, neg_parts e.0, neg_parts x.0)) l s.0),
  bids-Descending l s.1,
)

asks-Ascending : (l : List (ℤ × ℤ)) → IsSorted l → Ascending (map ask_level l)
asks-Ascending [] s = tt
asks-Ascending (e ∷ l) s = (All-map_lem ask_level (λ x. e.0 <ℤ x.price) l s.0, asks-Ascending l s.1)

module _ (S : SortedDict) (n : ℕ) (s : OrderbookState S) where
  -- `get_bids(n)` lists levels of the book, at their sizes, from the highest price strictly down: n
  -- of them, or all if there are fewer.
  pub get_bids_best_first :
      Descending (get_bids S s (pos n))
      × All (λ x. level S s buy x.price ≡ some x.size) (get_bids S s (pos n))
      × (length (get_bids S s (pos n)) ≡ min n (length (S.items s.bids)))
  unfolding get_bids level
  get_bids_best_first =
      if-elim
        (λ (r : List PriceLevel).
          Descending r
          × All (λ x. find (neg x.price) (S.items s.bids) ≡ some x.size) r
          × (length r ≡ min n (length (S.items s.bids))))
        (eqb_ℤ (pos n) (pos 0))
        (λ e. let none_asked : n ≡ 0 = ground arith in (tt, tt, omega arith))
        (λ _. (
          bids-Descending (take n (S.items s.bids))
              (take-IsSorted n (S.items s.bids) (S.items-IsSorted s.bids)),
          All-map_lem bid_level _ (take n (S.items s.bids)) (
              All-map _ _ (λ e h. rw neg-neg h) (take n (S.items s.bids))
                (All-take _ n (S.items s.bids)
                  (find_each (S.items s.bids) (S.items-IsSorted s.bids)))),
          omega (
            arith,
            length-map bid_level (take n (S.items s.bids)),
            length-take n (S.items s.bids),
          ),
        ))

  -- `get_asks(n)` lists levels of the book, at their sizes, from the lowest price strictly up: n of
  -- them, or all if there are fewer.
  pub get_asks_best_first :
      Ascending (get_asks S s (pos n))
      × All (λ x. level S s sell x.price ≡ some x.size) (get_asks S s (pos n))
      × (length (get_asks S s (pos n)) ≡ min n (length (S.items s.asks)))
  unfolding get_asks level
  get_asks_best_first =
      if-elim
        (λ (r : List PriceLevel).
          Ascending r
          × All (λ x. find x.price (S.items s.asks) ≡ some x.size) r
          × (length r ≡ min n (length (S.items s.asks))))
        (eqb_ℤ (pos n) (pos 0))
        (λ e. let none_asked : n ≡ 0 = ground arith in (tt, tt, omega arith))
        (λ _. (
          asks-Ascending (take n (S.items s.asks))
              (take-IsSorted n (S.items s.asks) (S.items-IsSorted s.asks)),
          All-map_lem ask_level _ (take n (S.items s.asks)) (
              All-take _ n (S.items s.asks) (find_each (S.items s.asks) (S.items-IsSorted s.asks))),
          omega (
            arith,
            length-map ask_level (take n (S.items s.asks)),
            length-take n (S.items s.asks),
          ),
        ))
