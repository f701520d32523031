-- ===== src/Orderbook/Levels.antt =====
-- The book as a function from prices to sizes: an abstract specification of the updates
-- (src/orderbook/orderbook.py), which the sorted maps refine.
use polypy.Prelude.{
  ℕ, ◌≡◌, refl, Bool, true, false, ◌&&◌, Option, none, some, List, [], ◌∷◌, arith, if◌then◌else◌,
  ◌∙◌, ap,
}
use polypy.Prelude.Int.{ℤ, pos, neg, ltb_ℤ, eqb_ℤ, neg_parts}
use polypy.SortedDict.{SortedDict}
use mathlib.Core.Path.{fun_ext}
use polypy.SortedDict
use polypy.SortedDict.Laws.{get-empty, get-set_item, get-pop}
use polypy.Messages.{Side, buy, sell, PriceLevel, BookSnapshot, PriceChange}
use polypy.Orderbook.{
  OrderbookState, load_levels, update_price_level, load_snapshot, apply_snapshot, load_change,
  apply_price_change, maybe_capture_snapshot, fill_cache,
}
use polypy.Orderbook.Reads.{capture_snapshot_lem}
use polypy.Orderbook.Views.{level}

-- what arrives for one book
pub data Update : Type 0 where
  snapshot : ℕ → BookSnapshot → ℤ → Update
  change : ℕ → PriceChange → ℤ → Update

abbrev pub Book : Type 0
Book = Side → ℤ → Option ℤ

-- the size of the last level with a price and a positive size
unfoldable pub latest : ℤ → List PriceLevel → Option ℤ → Option ℤ
latest p [] found = found
latest p (l ∷ ls) found =
    latest p ls (if ltb_ℤ (pos 0) l.size && eqb_ℤ l.price p then some l.size else found)

abbrev side_eq : Side → Side → Bool
side_eq buy buy = true
side_eq sell sell = true
side_eq _ _ = false

-- A snapshot replaces the whole book; a change sets one price of one side, and a size of 0 clears it.
abbrev pub specify : Update → Book → Book
specify (snapshot _ b _) book buy p = latest p b.bids none
specify (snapshot _ b _) book sell p = latest p b.asks none
specify (change _ c _) book side p =
    if side_eq c.side side && eqb_ℤ c.price p
    then if eqb_ℤ c.size (pos 0) then none else some c.size
    else book side p

eqb_neg : (a b : ℤ) → eqb_ℤ (neg a) (neg b) ≡ eqb_ℤ a b
eqb_neg a b = ground (arith, neg_parts a, neg_parts b)

module _ (S : SortedDict) where
  find-load_levels :
      (key : ℤ → ℤ)
      → ((a b : ℤ) → eqb_ℤ (key a) (key b) ≡ eqb_ℤ a b)
      → (p : ℤ) (ls : List PriceLevel) (m : S.Map ℤ)
      → SortedDict.get S (load_levels S key ls m) (key p) ≡ latest p ls (SortedDict.get S m (key p))
  unfolding load_levels latest
  find-load_levels key same p [] m = refl
  find-load_levels key same p (l ∷ ls) m = ground (
    arith,
    same l.price p,
    find-load_levels key same p ls (S.set_item m (key l.price) l.size),
    find-load_levels key same p ls m,
    get-set_item S m (key l.price) (key p) l.size,
  )

  find-update_price_level :
      (m : S.Map ℤ) (k j size : ℤ)
      → SortedDict.get S (update_price_level S k size m) j ≡ (
          if eqb_ℤ k j
          then if eqb_ℤ size (pos 0) then none else some size
          else SortedDict.get S m j)
  unfolding update_price_level
  find-update_price_level m k j size = ground (arith, get-pop S m k j, get-set_item S m k j size)

  -- the capture touches the history and the cache alone
  level-maybe_capture_snapshot :
      (s : OrderbookState S) (side : Side) (p : ℤ)
      → level S (maybe_capture_snapshot S s) side p ≡ level S s side p
  unfolding maybe_capture_snapshot level fill_cache
  level-maybe_capture_snapshot s buy p = ground (arith, capture_snapshot_lem S s)
  level-maybe_capture_snapshot s sell p = ground (arith, capture_snapshot_lem S s)

  unfoldable pub apply : Update → OrderbookState S → OrderbookState S
  unfolding apply_snapshot apply_price_change
  apply (snapshot now b t) s = apply_snapshot S now b t s
  apply (change now c t) s = apply_price_change S now c t s

  unfoldable pub run : List Update → OrderbookState S → OrderbookState S
  unfolding apply
  run [] s = s
  run (u ∷ us) s = run us (apply u s)

  unfoldable pub specify_run : List Update → Book → Book
  specify_run [] book = book
  specify_run (u ∷ us) book = specify_run us (specify u book)

  level-load_snapshot :
      (now : ℕ) (b : BookSnapshot) (t : ℤ) (s : OrderbookState S) (side : Side) (p : ℤ)
      → level S (load_snapshot S now b t s) side p ≡ specify (snapshot now b t) (level S s) side p
  unfolding load_snapshot level
  level-load_snapshot now b t s buy p =
      ground (arith, find-load_levels neg eqb_neg p b.bids S.empty, get-empty S ℤ (neg p))
  level-load_snapshot now b t s sell p =
      ground (arith, find-load_levels (λ q. q) (λ x y. refl) p b.asks S.empty, get-empty S ℤ p)

  level-load_change :
      (now : ℕ) (c : PriceChange) (t : ℤ) (s : OrderbookState S) (side : Side) (p : ℤ)
      → level S (load_change S now c t s) side p ≡ specify (change now c t) (level S s) side p
  unfolding load_change level
  level-load_change now c t s buy p =
      ground (arith, eqb_neg c.price p, find-update_price_level s.bids (neg c.price) (neg p) c.size)
  level-load_change now c t s sell p =
      ground (arith, find-update_price_level s.asks c.price p c.size)

  pub level-apply :
      (u : Update) (s : OrderbookState S) (side : Side) (p : ℤ)
      → level S (apply u s) side p ≡ specify u (level S s) side p
  unfolding apply
  level-apply (snapshot now b t) s side p =
      level-maybe_capture_snapshot (load_snapshot S now b t s) side p
      ∙ level-load_snapshot now b t s side p
  level-apply (change now c t) s side p =
      level-maybe_capture_snapshot (load_change S now c t s) side p
      ∙ level-load_change now c t s side p

  -- The sorted maps of a book, the cache and the history refine the abstract book: after any updates
  -- the size at every price of every side is what the specification says.
  pub run_refines :
      (us : List Update) (s : OrderbookState S) (side : Side) (p : ℤ)
      → level S (run us s) side p ≡ specify_run us (level S s) side p
  unfolding run specify_run
  run_refines [] s side p = refl
  run_refines (u ∷ us) s side p =
      run_refines us (apply u s) side p
      ∙ ap (λ (b : Book). specify_run us b side p) (fun_ext λ d. fun_ext λ q. level-apply u s d q)
