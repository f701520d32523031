-- ===== src/Exercises/StateMachine.antt =====
-- The order books of src/exercises/state_machine.py: a side is a sorted array of levels and a
-- dictionary from each price to its place in the array. A price is a float that is only compared, so
-- it is modelled by its rank among the floats. Every operation that may raise is an Option: none is
-- an exception (IndexError, AssertionError), or a search that takes more rounds than the array is long.
pub mod Levels
pub mod Search
pub mod Sides
pub mod Inserting
pub mod Updating
pub mod Books
use polypy.Prelude.{
  ℕ, zero, suc, ◌+◌, ◌-◌, ◌/◌, Bool, true, false, Option, none, some, List, [], ◌∷◌, ◌++◌, length,
  get_elem?, ltb, leb, eqb, if◌then◌else◌,
}
use polypy.Prelude.Int.{ℤ, pos, ◌+ℤ◌, ltb_ℤ, eqb_ℤ}
use polypy.Prelude.Table.{Table, find, store, erase, map_values}

infixl 5 ◌>>=◌
abbrev pub ◌>>=◌ {ℓ κ} : {A : Type ℓ} {B : Type κ} → Option A → (A → Option B) → Option B
none >>= f = none
some a >>= f = f a

module _ {ℓ} {A : Type ℓ} where
  -- l.insert(i, x), which appends past the end
  unfoldable pub insert_at : List A → ℕ → A → List A
  insert_at l zero x = x ∷ l
  insert_at [] (suc i) x = x ∷ []
  insert_at (y ∷ l) (suc i) x = y ∷ insert_at l i x

  -- l.pop(i)
  unfoldable pub pop_at : List A → ℕ → Option (List A)
  pop_at [] i = none
  pop_at (y ∷ l) zero = some l
  pop_at (y ∷ l) (suc i) = do rest ← pop_at l i; some (y ∷ rest)

  -- a change of the object l[i]
  unfoldable pub modify_at : List A → ℕ → (A → A) → Option (List A)
  modify_at [] i f = none
  modify_at (y ∷ l) zero f = some (f y ∷ l)
  modify_at (y ∷ l) (suc i) f = do rest ← modify_at l i f; some (y ∷ rest)

pub record PriceLevel : Type 0 where
  pub price : ℕ
  pub size : ℤ

pub record OrderSummary : Type 0 where
  pub price : ℕ
  pub size : ℤ

pub data OrderSide : Type 0 where
  buy : OrderSide
  sell : OrderSide

pub data MessageEvent : Type 0 where
  book : MessageEvent
  price_change : MessageEvent

-- the class of a message: BookMessage or PriceChangeMessage
pub data Body : Type 0 where
  book_message : List OrderSummary → List OrderSummary → Body
  price_change_message : ℕ → ℤ → OrderSide → Body

pub record Message : Type 0 where
  pub worker_id : ℕ
  pub event_type : MessageEvent
  pub body : Body

-- one side: the array, and the places of the prices
pub record BookSide : Type 0 where
  pub levels : List PriceLevel
  pub places : Table ℕ

pub record OrderBookState : Type 0 where
  pub bids : BookSide
  pub asks : BookSide

-- the test of the search: does `p` stand before `value`
abbrev pub before : Bool → ℕ → ℕ → Bool
before descending p value = if descending then ltb value p else ltb p value

-- `_binary_search_insert_position`, its loop
unfoldable pub search_loop : ℕ → List PriceLevel → ℕ → Bool → ℕ → ℕ → Option ℕ
search_loop zero arr value descending left right = none
search_loop (suc fuel) arr value descending left right =
    let mid = (left + right) / 2 in
    let upper = search_loop fuel arr value descending (mid + 1) right in
    let lower = search_loop fuel arr value descending left mid in
    if ltb left right
    then (do x ← get_elem? arr mid; if before descending x.price value then upper else lower)
    else some left

unfoldable pub binary_search : List PriceLevel → ℕ → Bool → Option ℕ
unfolding search_loop
binary_search arr value descending =
    search_loop (length arr + 1) arr value descending 0 (length arr)

-- the places after an insertion at `i`, and after a removal
abbrev pub shift_up : ℕ → ℕ → ℕ
shift_up i j = if leb i j then j + 1 else j

abbrev pub shift_down : ℕ → ℕ → ℕ
shift_down i j = if ltb i j then j - 1 else j

-- `_insert_price_level`
unfoldable pub insert_price_level : BookSide → OrderSummary → Bool → Option BookSide
unfolding modify_at insert_at binary_search
insert_price_level s order descending =
    let level : PriceLevel = record { price = order.price; size = order.size } in
    elim (find s.places order.price) [
      | some i ↦ do
        levels ← modify_at s.levels i (λ x. record x { size = x.size +ℤ order.size })
        some (record s { levels = levels })
      | none ↦
          if eqb (length s.levels) 0
          then some (record { levels = level ∷ []; places = store s.places order.price 0 })
          else (do
            i ← binary_search s.levels order.price descending
            some (record {
              levels = insert_at s.levels i level;
              places = store (map_values (shift_up i) s.places) order.price i;
            }))
    ]

-- `_update_orderbook`
unfoldable pub update_orderbook : BookSide → OrderSummary → Bool → Option BookSide
unfolding modify_at pop_at insert_price_level
update_orderbook s change descending =
    if ltb_ℤ change.size (pos 0)
    then some s
    else if eqb_ℤ change.size (pos 0)
    then (elim (find s.places change.price) [
      | none ↦ some s
      | some i ↦ do
        levels ← pop_at s.levels i
        some (record {
          levels = levels;
          places = map_values (shift_down i) (erase s.places change.price);
        })
    ])
    else (elim (find s.places change.price) [
      | some i ↦ do
        levels ← modify_at s.levels i (λ x. record x { size = change.size })
        some (record s { levels = levels })
      | none ↦ insert_price_level s change descending
    ])

unfoldable pub insert_all : List OrderSummary → Bool → BookSide → Option BookSide
unfolding insert_price_level
insert_all [] descending s = some s
insert_all (o ∷ orders) descending s = do
  s' ← insert_price_level s o descending
  insert_all orders descending s'

-- `_process_book_message`; the assertion is on the class
unfoldable pub process_book_message : Body → OrderBookState → Option OrderBookState
unfolding insert_all
process_book_message (book_message buys sells) b = do
  bids ← insert_all buys true b.bids
  asks ← insert_all sells false b.asks
  some (record { bids = bids; asks = asks })
process_book_message (price_change_message price size side) b = none

unfoldable pub process_price_change : Body → OrderBookState → Option OrderBookState
unfolding update_orderbook
process_price_change (price_change_message price size buy) b = do
  bids ← update_orderbook b.bids (record { price = price; size = size }) true
  some (record b { bids = bids })
process_price_change (price_change_message price size sell) b = do
  asks ← update_orderbook b.asks (record { price = price; size = size }) false
  some (record b { asks = asks })
process_price_change (book_message buys sells) b = none

pub record StateMachine : Type 0 where
  pub active_states : Table OrderBookState
  pub message_latencies : List ℤ

abbrev pub empty_book : OrderBookState
empty_book = record {
  bids = record { levels = []; places = [] };
  asks = record { levels = []; places = [] };
}

abbrev pub book_of : Option OrderBookState → OrderBookState
book_of none = empty_book
book_of (some b) = b

unfoldable pub dispatch : MessageEvent → Body → OrderBookState → Option OrderBookState
unfolding process_book_message process_price_change
dispatch book body b = process_book_message body b
dispatch price_change body b = process_price_change body b

-- `receive`, with the latency that the clock gives
unfoldable pub receive : ℤ → Message → StateMachine → Option StateMachine
unfolding dispatch
receive latency m s = do
  b ← dispatch m.event_type m.body (book_of (find s.active_states m.worker_id))
  some (record {
    active_states = store s.active_states m.worker_id b;
    message_latencies = s.message_latencies ++ latency ∷ [];
  })

-- What a worker (src/exercises/worker.py) finds in its queue in a round: nothing within the timeout,
-- the sentinel, or a message; and whether the shutdown event is set before.
pub data Taken : Type 0 where
  empty : Taken
  sentinel : Taken
  message : ℤ → Message → Taken

pub record Turn : Type 0 where
  pub event_set : Bool
  pub taken : Taken

-- one round of the loop, with what the rest of it does
unfoldable pub turn :
    Bool → Taken → (StateMachine → Option StateMachine) → StateMachine → Option StateMachine
unfolding receive
turn true taken rest s = some s
turn false empty rest s = rest s
turn false sentinel rest s = some s
turn false (message latency m) rest s = receive latency m s >>= rest

-- `Worker.run`, which raises again what `receive` raises
unfoldable pub run : List Turn → StateMachine → Option StateMachine
unfolding turn
run [] s = some s
run (t ∷ ts) s = turn t.event_set t.taken (run ts) s
