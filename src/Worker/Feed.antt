-- ===== src/Worker/Feed.antt =====
-- The assertions of a worker (src/worker/worker.py) never fail on what the parser
-- (src/messages/parser.py) yields.
use polypy.Prelude.{ℕ, ◌+◌, ◌≡◌, Bool, true, arith, Option-cases, inl, inr}
use polypy.Prelude.Dict.{has}
use polypy.SortedDict.{SortedDict}
use polypy.Messages.{Floats, EventType, book, price_change, ParsedMessage}
use polypy.Messages.Parser.Payloads.{IsTagged}
use polypy.Orderbook.Store.{get_state}
use polypy.Worker.{Worker, process_book_snapshot, process_price_change, process_message}

-- the updates that a message should count, of a store that has its asset or has not
abbrev pub updates_due : EventType → Bool → ℕ
updates_due book _ = 1
updates_due price_change true = 1
updates_due _ _ = 0

abbrev pub snapshots_due : EventType → ℕ
snapshots_due book = 1
snapshots_due _ = 0

-- A message as the parser yields it trips no assertion: a snapshot is always applied and counted, a
-- price change exactly if the worker has a book for its asset, and nothing else is an update.
pub process_message_counts :
    (S : SortedDict) (F : Floats) (now : ℕ) (m : ParsedMessage F) (w : Worker S F)
    → IsTagged m
    → let st' = (process_message S F now m w).stats in
      (st'.snapshots_received ≡ w.stats.snapshots_received + snapshots_due m.event_type)
      × (st'.updates_applied
          ≡ w.stats.updates_applied + updates_due m.event_type (has w.store.books m.asset_id))
unfolding process_message process_book_snapshot process_price_change get_state
process_message_counts S F now m w t = elim (Option-cases m.book) [
  | inl nb ↦ elim (Option-cases m.price_change) [
    | inl np ↦ ground (arith, nb, np, t.payload, t.known)
    | inr (c, yp) ↦ ground (arith, nb, yp, t.payload, t.known)
  ]
  | inr (b, yb) ↦ elim (Option-cases m.price_change) [
    | inl np ↦ ground (arith, yb, np, t.payload, t.known)
    | inr (c, yp) ↦ ground (arith, yb, yp, t.payload, t.known)
  ]
]
