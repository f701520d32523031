-- ===== src/Server.antt =====
-- The streams of order books (src/server/websocket_handler.py): what each client has asked for, and what it is
-- sent. Clients have numbers in place of their sockets. A stream polls its asset once a tick; what the
-- poll finds is an argument, so a run is any interleaving of the clients' messages and ticks.
pub mod Streams
pub mod Counting
pub mod Handlers
pub mod Tests
use polypy.Prelude.{
  ℕ, ◌+◌, String, Bool, true, false, Option, none, some, List, [], ◌∷◌, ◌++◌, not, ◌==◌,
  if◌then◌else◌,
}
use polypy.Prelude.Table.{Table, find, store, erase}

-- client.stream_task: the asset it was made for, and whether it has ended
pub record Stream : Type 0 where
  pub asset : String
  pub interval : ℕ
  pub done : Bool

pub record ClientSubscription : Type 0 where
  pub asset_id : Option String
  pub stream_task : Option Stream

-- data["interval_ms"]
pub data Interval : Type 0 where
  missing : Interval
  number : ℕ → Interval
  not_a_number : Interval

-- A message: no JSON, a JSON value in which `in` cannot look, a list or a text that has the word
-- "subscribe" or not, or an object with its fields `subscribe`, `unsubscribe` and `interval_ms`.
pub data ClientData : Type 0 where
  not_json : ClientData
  scalar : ClientData
  sequence : Bool → Bool → ClientData
  object : Option String → Bool → Interval → ClientData

-- what a poll gives: the asset of the order book found, the error of a response, or an exception
pub data Poll {ℓ} (A : Type ℓ) : Type ℓ where
  found : A → Poll A
  not_found : Option String → Poll A
  exception : String → Poll A

pub data Sent {ℓ} (A : Type ℓ) : Type ℓ where
  orderbook : A → Sent A
  error : String → Sent A

unfoldable pub cancel_stream : ClientSubscription → ClientSubscription
cancel_stream c = record c { stream_task = none }

-- none for what is not a number, when the division raises
abbrev pub milliseconds : Interval → Option ℕ
milliseconds missing = some 500
milliseconds (number n) = some n
milliseconds not_a_number = none

-- `_handle_subscribe` on an object; false if it raises
unfoldable pub handle_subscribe : String → Interval → ClientSubscription → ClientSubscription × Bool
unfolding cancel_stream
handle_subscribe asset interval c = elim (milliseconds interval) [
  | none ↦ (cancel_stream c, false)
  | some n ↦ (
    record {
      asset_id = some asset;
      stream_task = some (record { asset = asset; interval = n; done = false });
    },
    true,
  )
]

unfoldable pub handle_unsubscribe : ClientSubscription → ClientSubscription
unfolding cancel_stream
handle_unsubscribe c = record (cancel_stream c) { asset_id = none }

abbrev pub error_text : Option String → String
error_text none = "Asset not found"
error_text (some t) = if t == "" then "Asset not found" else t

module _ {ℓ} {A : Type ℓ} where
  -- `_process_text_message`, with the text of an exception where the interpreter makes it
  unfoldable pub process_text_message :
      String → ClientData → ClientSubscription → ClientSubscription × List (Sent A)
  unfolding handle_subscribe handle_unsubscribe
  process_text_message text not_json c = (c, error text ∷ [])
  process_text_message text scalar c = (c, error text ∷ [])
  process_text_message text (sequence true u) c = (cancel_stream c, error text ∷ [])
  process_text_message text (sequence false true) c = (handle_unsubscribe c, [])
  process_text_message text (sequence false false) c =
      (c, error "Message must contain 'subscribe' or 'unsubscribe'" ∷ [])
  process_text_message text (object (some asset) u interval) c =
      let (c', done) = handle_subscribe asset interval c in
      (c', if done then [] else error text ∷ [])
  process_text_message text (object none true interval) c = (handle_unsubscribe c, [])
  process_text_message text (object none false interval) c =
      (c, error "Message must contain 'subscribe' or 'unsubscribe'" ∷ [])

  -- one round of `_stream_orderbook`
  unfoldable pub stream_round : Poll A → Stream → Stream × List (Sent A)
  stream_round (found x) s = (s, orderbook x ∷ [])
  stream_round (not_found e) s = (record s { done = true }, error (error_text e) ∷ [])
  stream_round (exception t) s = (record s { done = true }, error t ∷ [])

  -- a tick of a client's stream; a stream that has ended, or that is not there, does nothing
  unfoldable pub tick : Poll A → ClientSubscription → ClientSubscription × List (Sent A)
  unfolding stream_round
  tick p c = elim c.stream_task [
    | none ↦ (c, [])
    | some s ↦
        let (s', sent) = stream_round p s in
        if s.done then (c, []) else (record c { stream_task = some s' }, sent)
  ]

-- what happens at the server, one client at a time
pub data Event {ℓ} (A : Type ℓ) : Type ℓ where
  connect : ℕ → Event A
  text_message : ℕ → String → ClientData → Event A
  poll : ℕ → Poll A → Event A
  disconnect : ℕ → Event A

abbrev pub new_client : ClientSubscription
new_client = record { asset_id = none; stream_task = none }

module _ {ℓ} {A : Type ℓ} where
  -- what a client is sent, with its number
  abbrev pub to_client : ℕ → List (Sent A) → List (ℕ × Sent A)
  to_client id [] = []
  to_client id (s ∷ ss) = (id, s) ∷ to_client id ss

  -- a client's own step, while it is connected
  unfoldable pub update_client :
      ℕ
      → (ClientSubscription → ClientSubscription × List (Sent A))
      → Table ClientSubscription
      → Table ClientSubscription × List (ℕ × Sent A)
  update_client id f clients = elim (find clients id) [
    | none ↦ (clients, [])
    | some c ↦ (store clients id (f c).0, to_client id (f c).1)
  ]

  unfoldable pub step :
      Event A → Table ClientSubscription → Table ClientSubscription × List (ℕ × Sent A)
  unfolding update_client process_text_message tick
  step (connect id) clients = (store clients id new_client, [])
  step (text_message id text d) clients = update_client id (process_text_message text d) clients
  step (poll id p) clients = update_client id (tick p) clients
  step (disconnect id) clients = (erase clients id, [])

  unfoldable pub run :
      List (Event A) → Table ClientSubscription → Table ClientSubscription × List (ℕ × Sent A)
  unfolding step
  run [] clients = (clients, [])
  run (e ∷ es) clients =
      let (clients', sent) = step e clients in
      let (clients'', later) = run es clients' in (clients'', sent ++ later)

-- `get_subscribed_count`
unfoldable pub get_subscribed_count : Table ClientSubscription → ℕ
get_subscribed_count [] = 0
get_subscribed_count ((id, c) ∷ d) = elim c.asset_id [
  | none ↦ get_subscribed_count d
  | some a ↦ 1 + get_subscribed_count d
]
