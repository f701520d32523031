-- ===== src/Worker/Replies.antt =====
-- Queries of a worker (src/worker/worker.py, `_handle_orderbook_request`).
use polypy.Prelude.{
  ℕ, String, ◌≡◌, ◌∙◌, ap, none, some, [], ◌∷◌, ◌++◌, eq_iff, arith, length, ltb, if◌then◌else◌,
  Option-cases, Option-elim, inl, inr,
}
use mathlib.Core.Path.{fun_ext}
use polypy.Prelude.Int.{ℤ}
use polypy.Prelude.Dict.{get, has}
use polypy.SortedDict.{SortedDict}
use polypy.Messages.{Floats, Side, buy, sell}
use polypy.Orderbook.{OrderbookState, fill_cache}
use polypy.Orderbook.Reads.{fill_cache_idem, spread_lem, mid_price_lem}
use polypy.Orderbook.Views.{level}
use polypy.Orderbook.Store.{OrderbookStore, get_state}
use polypy.Worker.{OrderbookRequest, OrderbookResponse, FloatArithmetic, Worker}
use polypy.Worker.Queries.{describe, not_found, handle_orderbook_request}
use polypy.Worker.Books.{shelf, shelf-write_book}
use polypy.Worker.Tally.{IsTallied, write_book-IsIndexed}

module _ (S : SortedDict) (F : Floats) (R : FloatArithmetic F) where
  level-fill_cache :
      (b : OrderbookState S) (side : Side) (p : ℤ)
      → level S (fill_cache S b) side p ≡ level S b side p
  unfolding fill_cache level
  level-fill_cache b buy p = ground arith
  level-fill_cache b sell p = ground arith

  state-describe :
      (q : OrderbookRequest) (b : OrderbookState S) → (describe S F R q b).0 ≡ fill_cache S b
  unfolding describe
  state-describe q b = simp (spread_lem, mid_price_lem, fill_cache_idem)

  market-fill_cache : (b : OrderbookState S) → (fill_cache S b).market ≡ b.market
  unfolding fill_cache
  market-fill_cache b = ground arith

  -- the response to a query, which depends on the store alone
  unfoldable pub response_of : OrderbookRequest → OrderbookStore S → OrderbookResponse F
  unfolding describe not_found get_state
  response_of q s = elim (get_state S s q.asset_id) [
    | none ↦ not_found S F R q
    | some b ↦ (describe S F R q b).1
  ]

  -- A query changes no level of any book and no statistics; it is answered in the response queue
  -- unless that is full, under its own identifier, and found exactly if the store has the asset.
  pub handle_orderbook_request_answers :
      (capacity : ℕ) (q : OrderbookRequest) (w : Worker S F) (a : String)
      → let w' = handle_orderbook_request S F R capacity q w in
        let r = response_of q w.store in
        (shelf S F w'.store a ≡ shelf S F w.store a)
        × (w'.stats ≡ w.stats)
        × (w'.response_queue ≡ (
            if ltb (length w.response_queue) capacity
            then w.response_queue ++ r ∷ []
            else w.response_queue))
        × (r.request_id ≡ q.request_id)
        × (r.found ≡ has w.store.books q.asset_id)
  unfolding handle_orderbook_request get_state response_of describe not_found
  handle_orderbook_request_answers capacity q w a =
      elim (Option-cases (get w.store.books q.asset_id)) [
        | inl e ↦ ground (arith, e)
        | inr (b, e) ↦
            let kept : level S (describe S F R q b).0 ≡ level S b =
              ap (level S) (state-describe q b)
              ∙ fun_ext λ side. fun_ext λ p. level-fill_cache b side p in
            ground (
              arith,
              e,
              eq_iff q.asset_id a,
              shelf-write_book S F q.asset_id (describe S F R q b).0 w.store a,
              kept,
            )
      ]

  pub handle_orderbook_request-IsTallied :
      (capacity : ℕ) (q : OrderbookRequest) (w : Worker S F)
      → IsTallied S F w
      → IsTallied S F (handle_orderbook_request S F R capacity q w)
  unfolding handle_orderbook_request get_state
  handle_orderbook_request-IsTallied capacity q w h =
      Option-elim (IsTallied S F) (get w.store.books q.asset_id)
        (λ _. record { updates = h.updates; snapshots = h.snapshots; index = h.index })
        (λ b known. record {
          updates = h.updates;
          snapshots = h.snapshots;
          index =
              write_book-IsIndexed S q.asset_id b (describe S F R q b).0 w.store known
                (ap (λ (x : OrderbookState S). x.market) (state-describe q b) ∙ market-fill_cache b)
                h.index;
        })
