-- ===== src/Worker/Books.antt =====
-- What a worker does to its books (src/worker/worker.py, `_process_message`), against a shelf of
-- abstract books: a function from assets to books.
use polypy.Prelude.{
  ℕ, ◌+◌, String, ◌≡◌, refl, ◌∙◌, ap, false, Option, none, some, List, [], ◌∷◌, ◌==◌, eq_iff, arith,
  if◌then◌else◌, Option-cases, inl, inr,
}
use mathlib.Core.Path.{fun_ext}
use polypy.Prelude.Dict.{get, get-put}
use polypy.SortedDict.{SortedDict}
use polypy.Messages.{
  Floats, Side, buy, sell, book, price_change, last_trade_price, tick_size_change, unknown,
  BookSnapshot, PriceChange, ParsedMessage,
}
use polypy.Orderbook.{OrderbookState, apply_snapshot, apply_price_change}
use polypy.Orderbook
use polypy.Orderbook.Views.{level}
use polypy.Orderbook.Levels.{Book, snapshot, change, specify, apply, level-apply}
use polypy.Orderbook.Store.{Asset, OrderbookStore, get_state, register_asset, add_state}
use polypy.Prelude.Int.{ℤ}
use polypy.Worker.{Worker, write_book, process_book_snapshot, process_price_change, process_message}

abbrev pub Shelf : Type 0
Shelf = String → Option Book

-- what a message does to the book of its asset
unfoldable pub specify_message : {F : Floats} → ℕ → ParsedMessage F → Option Book → Option Book
specify_message now m found = elim m.event_type [
  | book ↦ elim m.book [
    | none ↦ found
    | some b ↦ some (specify (snapshot now b m.raw_timestamp) (λ _ _. none))
  ]
  | price_change ↦ elim m.price_change [
    | none ↦ found
    | some c ↦ elim found [
      | none ↦ none
      | some bk ↦ some (specify (change now c m.raw_timestamp) bk)
    ]
  ]
  | last_trade_price ↦ found
  | tick_size_change ↦ found
  | unknown ↦ found
]

module _ (S : SortedDict) (F : Floats) where
  -- the books of a store, each as a function from prices to sizes
  abbrev pub shelf : OrderbookStore S → Shelf
  shelf s a = elim (get s.books a) [ none ↦ none | some b ↦ some (level S b) ]

  unfoldable pub process_all : List (ℕ × ParsedMessage F) → Worker S F → Worker S F
  process_all [] w = w
  process_all ((now, m) ∷ ms) w = process_all ms (process_message S F now m w)

  -- each message changes the book of its own asset, as its specification says
  unfoldable pub specify_all : List (ℕ × ParsedMessage F) → Shelf → Shelf
  unfolding specify_message
  specify_all [] books = books
  specify_all ((now, m) ∷ ms) books =
      specify_all ms (λ a. if m.asset_id == a then specify_message now m (books a) else books a)

  level-apply_snapshot_at :
      (now : ℕ) (b : BookSnapshot) (t : ℤ) (s : OrderbookState S) (side : Side) (p : ℤ)
      → level S (apply_snapshot S now b t s) side p
        ≡ specify (snapshot now b t) (λ _ _. none) side p
  level-apply_snapshot_at now b t s buy p = unfold apply in level-apply S (snapshot now b t) s buy p
  level-apply_snapshot_at now b t s sell p =
      unfold apply in level-apply S (snapshot now b t) s sell p

  level-apply_snapshot :
      (now : ℕ) (b : BookSnapshot) (t : ℤ) (s : OrderbookState S)
      → level S (apply_snapshot S now b t s) ≡ specify (snapshot now b t) (λ _ _. none)
  level-apply_snapshot now b t s =
      fun_ext λ side. fun_ext λ p. level-apply_snapshot_at now b t s side p

  level-apply_price_change :
      (now : ℕ) (c : PriceChange) (t : ℤ) (s : OrderbookState S)
      → level S (apply_price_change S now c t s) ≡ specify (change now c t) (level S s)
  level-apply_price_change now c t s =
      fun_ext λ side. fun_ext λ p. unfold apply in level-apply S (change now c t) s side p

  pub shelf-write_book :
      (k : String) (b : OrderbookState S) (s : OrderbookStore S) (a : String)
      → shelf (write_book k b s) a ≡ (if k == a then some (level S b) else shelf s a)
  unfolding write_book
  shelf-write_book k b s a = ground (arith, get-put s.books k a b)

  shelf-register_asset :
      (x : Asset) (s : OrderbookStore S) (a : String)
      → (x.asset_id == a) ≡ false
      → shelf (register_asset S x s).0 a ≡ shelf s a
  unfolding register_asset get_state add_state
  shelf-register_asset x s a other =
      ground (arith, other, get-put s.books x.asset_id a (Orderbook.init S x.asset_id x.market))

  shelf-process_book_snapshot :
      (now : ℕ) (m : ParsedMessage F) (w : Worker S F) (a : String)
      → shelf (process_book_snapshot S F now m w).store a ≡ (
          if m.asset_id == a
          then elim m.book [
            | none ↦ shelf w.store a
            | some b ↦ some (specify (snapshot now b m.raw_timestamp) (λ _ _. none))
          ]
          else shelf w.store a)
  unfolding process_book_snapshot
  shelf-process_book_snapshot now m w a = elim (Option-cases m.book) [
    | inl e ↦ ground (arith, e)
    | inr (b, e) ↦
        let x : Asset = record { asset_id = m.asset_id; market = m.market } in
        let (s, o) = register_asset S x w.store in
        ground (
          arith,
          e,
          shelf-write_book m.asset_id (apply_snapshot S now b m.raw_timestamp o) s a,
          shelf-register_asset x w.store a,
          level-apply_snapshot now b m.raw_timestamp o,
        )
  ]

  shelf-process_price_change :
      (now : ℕ) (m : ParsedMessage F) (w : Worker S F) (a : String)
      → shelf (process_price_change S F now m w).store a ≡ (
          if m.asset_id == a
          then elim m.price_change [
            | none ↦ shelf w.store a
            | some c ↦ elim (shelf w.store a) [
              | none ↦ none
              | some bk ↦ some (specify (change now c m.raw_timestamp) bk)
            ]
          ]
          else shelf w.store a)
  unfolding process_price_change get_state
  shelf-process_price_change now m w a = elim (Option-cases m.price_change) [
    | inl e ↦ ground (arith, e)
    | inr (c, e) ↦ elim (Option-cases (get w.store.books m.asset_id)) [
      | inl missing ↦ ground (arith, e, missing, eq_iff m.asset_id a)
      | inr (o, known) ↦ ground (
        arith,
        e,
        known,
        eq_iff m.asset_id a,
        shelf-write_book m.asset_id (apply_price_change S now c m.raw_timestamp o) w.store a,
        level-apply_price_change now c m.raw_timestamp o,
      )
    ]
  ]

  shelf-process_message :
      (now : ℕ) (m : ParsedMessage F) (w : Worker S F) (a : String)
      → shelf (process_message S F now m w).store a
        ≡ (if m.asset_id == a then specify_message now m (shelf w.store a) else shelf w.store a)
  unfolding process_message specify_message
  shelf-process_message now m w a =
      let counted : Worker S F = record w {
        stats = record w.stats { messages_processed = w.stats.messages_processed + 1 };
      } in
      ground (
        arith,
        shelf-process_book_snapshot now m counted a,
        shelf-process_price_change now m counted a,
      )

  -- A worker's books refine the shelf: after any messages the size at every price of every side of
  -- every asset is what its own messages specify, whatever the others do, and an asset has a book
  -- from its first snapshot on.
  pub process_all_refines :
      (ms : List (ℕ × ParsedMessage F)) (w : Worker S F) (a : String)
      → shelf (process_all ms w).store a ≡ specify_all ms (shelf w.store) a
  unfolding process_all specify_all
  process_all_refines [] w a = refl
  process_all_refines ((now, m) ∷ ms) w a =
      process_all_refines ms (process_message S F now m w) a
      ∙ ap (λ (s : Shelf). specify_all ms s a) (fun_ext λ b. shelf-process_message now m w b)
