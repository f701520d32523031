-- ===== src/Exercises/StateMachine/Books.antt =====
-- The books of a machine (src/exercises/state_machine.py, `receive`), and of a worker that runs it
-- (src/exercises/worker.py), against abstract books: functions from a side and a price to a size.
use polypy.Prelude.{
  ℕ, ◌≡◌, refl, sym, ap, ◌∙◌, Bool, true, false, Option, some, List, [], ◌∷◌, ◌++◌, All, map, eqb,
  if◌then◌else◌, Bool-cases, inl, inr, eqb_iff,
}
use mathlib.Core.Path.{fun_ext}
use mathlib.Core.List.{append_assoc, append-nil}
use polypy.Prelude.Int.{ℤ}
use polypy.Prelude.Table.{find, store, find-store}
use polypy.Exercises.StateMachine.{
  OrderSummary, OrderSide, buy, sell, MessageEvent, book, price_change, Body, book_message,
  price_change_message, Message, BookSide, OrderBookState, StateMachine, Turn, Taken, empty,
  sentinel, message, ◌>>=◌, insert_all, process_book_message, process_price_change, dispatch,
  book_of, receive, turn, run,
}
use polypy.Exercises.StateMachine.Sides.{
  IsCoherent, Sizes, sizes, specify_insert, specify_update, Gives,
}
use polypy.Exercises.StateMachine.Inserting.{insert_price_level-Gives}
use polypy.Exercises.StateMachine.Updating.{update_orderbook-Gives}

abbrev pub Quotes : Type 0
Quotes = OrderSide → Sizes

abbrev pub quotes : OrderBookState → Quotes
quotes b buy = sizes b.bids
quotes b sell = sizes b.asks

unfoldable pub specify_orders : List OrderSummary → Sizes → Sizes
specify_orders [] b = b
specify_orders (o ∷ orders) b = specify_orders orders (specify_insert o b)

abbrev pub order : ℕ → ℤ → OrderSummary
order price size = record { price = price; size = size }

-- what a message does to the book of its worker
unfoldable pub specify_message : Body → Quotes → Quotes
specify_message (book_message buys sells) q buy = specify_orders buys (q buy)
specify_message (book_message buys sells) q sell = specify_orders sells (q sell)
specify_message (price_change_message price size buy) q buy =
    specify_update (order price size) (q buy)
specify_message (price_change_message price size buy) q sell = q sell
specify_message (price_change_message price size sell) q buy = q buy
specify_message (price_change_message price size sell) q sell =
    specify_update (order price size) (q sell)

abbrev pub IsBook : OrderBookState → Type 0
IsBook b = IsCoherent true b.bids × IsCoherent false b.asks

-- the event type names the class of the message
abbrev pub IsTyped : MessageEvent → Body → Type 0
IsTyped book (book_message buys sells) = Unit
IsTyped book (price_change_message price size side) = ⊥
IsTyped price_change (book_message buys sells) = ⊥
IsTyped price_change (price_change_message price size side) = Unit

each_side :
    (q q' : Quotes)
    → ((p : ℕ) → q buy p ≡ q' buy p)
    → ((p : ℕ) → q sell p ≡ q' sell p)
    → (side : OrderSide) (p : ℕ) → q side p ≡ q' side p
each_side q q' b a buy p = b p
each_side q q' b a sell p = a p

insert_all-Gives :
    (d : Bool) (orders : List OrderSummary) (s : BookSide)
    → IsCoherent d s
    → Gives d (insert_all orders d s) (specify_orders orders (sizes s))
unfolding insert_all specify_orders
insert_all-Gives d [] s h = (s, refl, h, λ p. refl)
insert_all-Gives d (o ∷ orders) s h =
    let (s1, e1, h1, z1) = insert_price_level-Gives d s h o in
    let (s2, e2, h2, z2) = insert_all-Gives d orders s1 h1 in
    (s2, rw e1 e2, h2, λ p. z2 p ∙ ap (λ (b : Sizes). specify_orders orders b p) (fun_ext z1))

-- a message of its own class leaves a book that shows what is specified
dispatch-quotes :
    (e : MessageEvent) (m : Body) (b : OrderBookState)
    → IsTyped e m
    → IsBook b
    → (b' : OrderBookState) × (dispatch e m b ≡ some b')
      × IsBook b'
      × ((side : OrderSide) (p : ℕ) → quotes b' side p ≡ specify_message m (quotes b) side p)
unfolding dispatch process_book_message process_price_change specify_message
dispatch-quotes book (book_message buys sells) b t h =
    let (bids, e1, h1, z1) = insert_all-Gives true buys b.bids h.0 in
    let (asks, e2, h2, z2) = insert_all-Gives false sells b.asks h.1 in
    (record { bids = bids; asks = asks }, rw (e1, e2), (h1, h2), each_side _ _ z1 z2)
dispatch-quotes book (price_change_message price size side) b t h = absurd t
dispatch-quotes price_change (book_message buys sells) b t h = absurd t
dispatch-quotes price_change (price_change_message price size buy) b t h =
    let (bids, e, h', z) = update_orderbook-Gives true b.bids h.0 (order price size) in
    (record b { bids = bids }, rw e, (h', h.1), each_side _ _ z (λ p. refl))
dispatch-quotes price_change (price_change_message price size sell) b t h =
    let (asks, e, h', z) = update_orderbook-Gives false b.asks h.1 (order price size) in
    (record b { asks = asks }, rw e, (h.0, h'), each_side _ _ (λ p. refl) z)

-- the book of a worker identifier, empty before its first message
abbrev pub quotes_of : StateMachine → ℕ → Quotes
quotes_of s id = quotes (book_of (find s.active_states id))

abbrev pub IsMachine : StateMachine → Type 0
IsMachine s = (id : ℕ) → IsBook (book_of (find s.active_states id))

-- each message changes the book of its own identifier
unfoldable pub specify_all : List (ℤ × Message) → (ℕ → Quotes) → ℕ → Quotes
specify_all [] q = q
specify_all ((latency, m) ∷ ms) q =
    specify_all ms (λ id. if eqb m.worker_id id then specify_message m.body (q id) else q id)

receive-quotes :
    (latency : ℤ) (m : Message) (s : StateMachine)
    → IsTyped m.event_type m.body
    → IsMachine s
    → (s' : StateMachine) × (receive latency m s ≡ some s')
      × IsMachine s'
      × (s'.message_latencies ≡ s.message_latencies ++ latency ∷ [])
      × ((id : ℕ) (side : OrderSide) (p : ℕ)
          → quotes_of s' id side p
            ≡ (if eqb m.worker_id id
                  then specify_message m.body (quotes_of s id)
                  else quotes_of s id)
                side p)
unfolding receive
receive-quotes latency m s t h =
    let (b, e, h', z) =
      dispatch-quotes m.event_type m.body (book_of (find s.active_states m.worker_id)) t
        (h m.worker_id) in
    (
      record {
        active_states = store s.active_states m.worker_id b;
        message_latencies = s.message_latencies ++ latency ∷ [];
      },
      rw e,
      λ id. elim (Bool-cases (eqb m.worker_id id)) [
        | inl same ↦ rw (find-store s.active_states m.worker_id id b, same) h'
        | inr other ↦ rw (find-store s.active_states m.worker_id id b, other) (h id)
      ],
      refl,
      λ id side p. elim (Bool-cases (eqb m.worker_id id)) [
        | inl same ↦
            rw (find-store s.active_states m.worker_id id b, same)
              (z side p
                ∙ ap (λ k. specify_message m.body (quotes_of s k) side p)
                    ((eqb_iff m.worker_id id).0 same))
        | inr other ↦ rw (find-store s.active_states m.worker_id id b, other)
      ],
    )

-- the messages that a worker takes before it stops
abbrev pub handled_in : Bool → Taken → List (ℤ × Message) → List (ℤ × Message)
handled_in true taken ms = []
handled_in false empty ms = ms
handled_in false sentinel ms = []
handled_in false (message latency m) ms = (latency, m) ∷ ms

unfoldable pub handled : List Turn → List (ℤ × Message)
handled [] = []
handled (t ∷ ts) = handled_in t.event_set t.taken (handled ts)

abbrev pub AllTyped : List (ℤ × Message) → Type 0
AllTyped = All (λ (e : ℤ × Message). IsTyped e.1.event_type e.1.body)

-- the machine that a run returns
abbrev pub Runs : Option StateMachine → StateMachine → List (ℤ × Message) → Type 0
Runs r s ms =
    (s' : StateMachine) × (r ≡ some s')
    × IsMachine s'
    × (s'.message_latencies ≡ s.message_latencies ++ map (λ e. e.0) ms)
    × ((id : ℕ) (side : OrderSide) (p : ℕ)
        → quotes_of s' id side p ≡ specify_all ms (quotes_of s) id side p)

Runs-receive :
    (latency : ℤ) (m : Message) (ms : List (ℤ × Message)) (r : StateMachine → Option StateMachine)
    (s : StateMachine)
    → IsTyped m.event_type m.body
    → IsMachine s
    → ((s' : StateMachine) → IsMachine s' → Runs (r s') s' ms)
    → Runs (receive latency m s >>= r) s ((latency, m) ∷ ms)
unfolding specify_all
Runs-receive latency m ms r s t h rest =
    let (s1, e1, h1, l1, z1) = receive-quotes latency m s t h in
    let (s2, e2, h2, l2, z2) = rest s1 h1 in
    (
      s2,
      rw e1 e2,
      h2,
      l2 ∙ ap (λ l. l ++ map (λ e. e.0) ms) l1 ∙ append_assoc s.message_latencies (latency ∷ []) _,
      λ id side p.
          z2 id side p
          ∙ ap (λ (q : ℕ → Quotes). specify_all ms q id side p)
              (fun_ext λ k. fun_ext λ sd. fun_ext λ x. z1 k sd x),
    )

Runs-turn :
    (event_set : Bool) (taken : Taken) (ms : List (ℤ × Message))
    (r : StateMachine → Option StateMachine) (s : StateMachine)
    → AllTyped (handled_in event_set taken ms)
    → IsMachine s
    → (AllTyped ms → (s' : StateMachine) → IsMachine s' → Runs (r s') s' ms)
    → Runs (turn event_set taken r s) s (handled_in event_set taken ms)
unfolding turn specify_all
Runs-turn true taken ms r s t h rest = (s, refl, h, sym (append-nil _), λ id side p. refl)
Runs-turn false empty ms r s t h rest = rest t s h
Runs-turn false sentinel ms r s t h rest = (s, refl, h, sym (append-nil _), λ id side p. refl)
Runs-turn false (message latency m) ms r s t h rest = Runs-receive latency m ms r s t.0 h (rest t.1)

-- A worker whose messages are of the classes that their event types name raises nothing. Each book stays
-- coherent: both sides strictly sorted, and every price under its place in the array. The books show
-- what the messages taken before the stop specify, each for its own identifier, and each of these
-- messages adds its latency.
pub run_shows :
    (ts : List Turn) (s : StateMachine)
    → AllTyped (handled ts)
    → IsMachine s
    → Runs (run ts s) s (handled ts)
unfolding run handled specify_all
run_shows [] s t h = (s, refl, h, sym (append-nil s.message_latencies), λ id side p. refl)
run_shows (x ∷ ts) s t h =
    Runs-turn x.event_set x.taken (handled ts) (run ts) s t h (λ t' s' h'. run_shows ts s' t' h')
