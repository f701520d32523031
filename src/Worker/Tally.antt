-- ===== src/Worker/Tally.antt =====
-- What a worker keeps true of its statistics and of its market index (src/worker/worker.py).
use polypy.Prelude.{
  ℕ, ◌+◌, ◌≤◌, String, ◌≡◌, ◌∙◌, some, List, [], ◌∷◌, eq_iff, eq_self, arith, length, Option-elim,
}
use polypy.Prelude.Int.{ℤ}
use polypy.Prelude.Dict.{get, get-put}
use polypy.SortedDict.{SortedDict}
use polypy.Messages.{
  Floats, book, price_change, last_trade_price, tick_size_change, unknown, BookSnapshot,
  PriceChange, ParsedMessage,
}
use polypy.Orderbook.{
  OrderbookState, fill_cache, apply_snapshot, apply_price_change, load_snapshot, load_change,
  maybe_capture_snapshot, capture_snapshot,
}
use polypy.Orderbook
use polypy.Orderbook.Reads.{capture_snapshot_lem}
use polypy.Orderbook.Store.{Asset, OrderbookStore, get_state, register_asset, add_state}
use polypy.Orderbook.Store.Markets.{IsIndexed, register_asset-IsIndexed}
use polypy.Worker.{Worker, write_book, process_book_snapshot, process_price_change, process_message}
use polypy.Worker.Books.{process_all}

module _ (S : SortedDict) where
  market-maybe_capture_snapshot :
      (s : OrderbookState S) → (maybe_capture_snapshot S s).market ≡ s.market
  unfolding maybe_capture_snapshot fill_cache
  market-maybe_capture_snapshot s = ground (arith, capture_snapshot_lem S s)

  market-apply_snapshot :
      (now : ℕ) (b : BookSnapshot) (t : ℤ) (s : OrderbookState S)
      → (apply_snapshot S now b t s).market ≡ s.market
  unfolding apply_snapshot load_snapshot
  market-apply_snapshot now b t s = market-maybe_capture_snapshot (load_snapshot S now b t s)

  market-apply_price_change :
      (now : ℕ) (c : PriceChange) (t : ℤ) (s : OrderbookState S)
      → (apply_price_change S now c t s).market ≡ s.market
  unfolding apply_price_change load_change
  market-apply_price_change now c t s =
      market-maybe_capture_snapshot (load_change S now c t s) ∙ ground arith

  -- a book that keeps its market may be written back
  pub write_book-IsIndexed :
      (a : String) (o b : OrderbookState S) (s : OrderbookStore S)
      → get s.books a ≡ some o
      → b.market ≡ o.market
      → IsIndexed S s
      → IsIndexed S (write_book a b s)
  unfolding write_book
  write_book-IsIndexed a o b s known same h = record {
    listed = λ c m. ground (arith, h.listed c m, get-put s.books a c b, known, same, eq_iff a c);
    distinct = h.distinct;
  }

  get-register_asset :
      (x : Asset) (s : OrderbookStore S)
      → get (register_asset S x s).0.books x.asset_id ≡ some (register_asset S x s).1
  unfolding register_asset get_state add_state
  get-register_asset x s = ground (
    arith,
    get-put s.books x.asset_id x.asset_id (Orderbook.init S x.asset_id x.market),
    eq_self x.asset_id,
  )

  module _ (F : Floats) where
    -- an update is a message, a snapshot is an update, and the index is exact
    pub record IsTallied (w : Worker S F) : Type 0 where
      pub updates : w.stats.updates_applied ≤ w.stats.messages_processed
      pub snapshots : w.stats.snapshots_received ≤ w.stats.updates_applied
      pub index : IsIndexed S w.store

    -- the statistics with room for an update: the message is counted before it is applied
    abbrev IsCounted : Worker S F → Type 0
    IsCounted w =
        (w.stats.updates_applied + 1 ≤ w.stats.messages_processed)
        × (w.stats.snapshots_received ≤ w.stats.updates_applied)
        × IsIndexed S w.store

    counted-IsTallied : (w : Worker S F) → IsCounted w → IsTallied w
    counted-IsTallied w (u, n, i) = record { updates = omega arith; snapshots = n; index = i }

    process_book_snapshot-IsTallied :
        (now : ℕ) (m : ParsedMessage F) (w : Worker S F)
        → IsCounted w
        → IsTallied (process_book_snapshot S F now m w)
    unfolding process_book_snapshot
    process_book_snapshot-IsTallied now m w (u, n, i) =
        Option-elim IsTallied m.book (λ _. counted-IsTallied w (u, n, i))
          (λ b _.
            let x : Asset = record { asset_id = m.asset_id; market = m.market } in
            let (s, o) = register_asset S x w.store in
            record {
              updates = u;
              snapshots = omega arith;
              index =
                  write_book-IsIndexed m.asset_id o (apply_snapshot S now b m.raw_timestamp o) s
                    (get-register_asset x w.store) (market-apply_snapshot now b m.raw_timestamp o)
                    (register_asset-IsIndexed S w.store i x);
            })

    process_price_change-IsTallied :
        (now : ℕ) (m : ParsedMessage F) (w : Worker S F)
        → IsCounted w
        → IsTallied (process_price_change S F now m w)
    unfolding process_price_change get_state
    process_price_change-IsTallied now m w (u, n, i) =
        Option-elim IsTallied m.price_change (λ _. counted-IsTallied w (u, n, i))
          (λ c _.
            Option-elim IsTallied (get w.store.books m.asset_id)
              (λ _. counted-IsTallied w (u, n, i))
              (λ o known. record {
                updates = u;
                snapshots = omega arith;
                index =
                    write_book-IsIndexed m.asset_id o (apply_price_change S now c m.raw_timestamp o)
                      w.store known (market-apply_price_change now c m.raw_timestamp o) i;
              }))

    pub process_message-IsTallied :
        (now : ℕ) (m : ParsedMessage F) (w : Worker S F)
        → IsTallied w
        → IsTallied (process_message S F now m w)
    unfolding process_message
    process_message-IsTallied now m w h =
        let counted : Worker S F = record w {
          stats = record w.stats { messages_processed = w.stats.messages_processed + 1 };
        } in
        let ok : IsCounted counted = (omega (arith, h.updates), h.snapshots, h.index) in
        elim m.event_type
          as (λ e. IsTallied (elim e [
            | book ↦ process_book_snapshot S F now m counted
            | price_change ↦ process_price_change S F now m counted
            | last_trade_price ↦ counted
            | tick_size_change ↦ counted
            | unknown ↦ counted
          ])) [
            | book ↦ process_book_snapshot-IsTallied now m counted ok
            | price_change ↦ process_price_change-IsTallied now m counted ok
            | last_trade_price ↦ counted-IsTallied counted ok
            | tick_size_change ↦ counted-IsTallied counted ok
            | unknown ↦ counted-IsTallied counted ok
          ]

    pub messages-process_message :
        (now : ℕ) (m : ParsedMessage F) (w : Worker S F)
        → (process_message S F now m w).stats.messages_processed ≡ w.stats.messages_processed + 1
    unfolding process_message process_book_snapshot process_price_change
    messages-process_message now m w = ground arith

    -- Whatever a worker is sent, every message is counted once, no more updates are counted than
    -- messages and no more snapshots than updates, and its market index stays exact.
    pub process_all-IsTallied :
        (ms : List (ℕ × ParsedMessage F)) (w : Worker S F)
        → IsTallied w
        → ((process_all S F ms w).stats.messages_processed ≡ w.stats.messages_processed + length ms)
          × IsTallied (process_all S F ms w)
    unfolding process_all
    process_all-IsTallied [] w h = (omega arith, h)
    process_all-IsTallied ((now, m) ∷ ms) w h =
        let (n, h') =
          process_all-IsTallied ms (process_message S F now m w)
            (process_message-IsTallied now m w h) in
        (omega (arith, n, messages-process_message now m w), h')
