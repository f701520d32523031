-- ===== src/Connection.antt =====
-- One websocket connection (src/connection/websocket.py, types.py and stats.py). Times are in
-- milliseconds. The socket is what happens in each attempt to connect: whether it connects, what it
-- receives and how it ends. The parser is a generator: what it yields, and the exception that ends it.
pub mod Backoff
pub mod Receiving
pub mod Tests
use polypy.Prelude.{
  ℕ, ◌+◌, ◌-◌, ◌*◌, String, Bool, true, false, not, ◌&&◌, Option, none, some, List, [], ◌∷◌, ◌++◌,
  length, min, ltb, if◌then◌else◌,
}

pub data ConnectionStatus : Type 0 where
  disconnected connecting connected draining closed : ConnectionStatus

abbrev pub status_eq : ConnectionStatus → ConnectionStatus → Bool
status_eq disconnected disconnected = true
status_eq connecting connecting = true
status_eq connected connected = true
status_eq draining draining = true
status_eq closed closed = true
status_eq _ _ = false

abbrev pub initial_reconnect_delay : ℕ
initial_reconnect_delay = 1000

abbrev pub max_reconnect_delay : ℕ
max_reconnect_delay = 30000

pub record ConnectionStats : Type 0 where
  pub messages_received : ℕ
  pub bytes_received : ℕ
  pub parse_errors : ℕ
  pub reconnect_count : ℕ
  pub last_message_ts : ℕ
  pub created_at : ℕ

-- `running` tells that the receive task exists.
pub record WebsocketConnection : Type 0 where
  pub connection_id : String
  pub asset_ids : List String
  pub status : ConnectionStatus
  pub stats : ConnectionStats
  pub stop_event : Bool
  pub running : Bool
  pub reconnect_delay : ℕ
  pub subscribed_asset_ids : List String

-- WebsocketConnection(connection_id, asset_ids, ...), none for a ValueError
unfoldable pub init : ℕ → String → List String → Option WebsocketConnection
init now connection_id asset_ids =
    if ltb 500 (length asset_ids)
    then none
    else some (record {
      connection_id = connection_id;
      asset_ids = asset_ids;
      status = disconnected;
      stats = record {
        messages_received = 0;
        bytes_received = 0;
        parse_errors = 0;
        reconnect_count = 0;
        last_message_ts = 0;
        created_at = now;
      };
      stop_event = false;
      running = false;
      reconnect_delay = initial_reconnect_delay;
      subscribed_asset_ids = [];
    })

unfoldable pub is_healthy : ℕ → WebsocketConnection → Bool
is_healthy now c =
    if status_eq c.status connected
    then if ltb 0 c.stats.last_message_ts
      then if ltb 60000 (now - c.stats.last_message_ts) then false else true
      else true
    else false

unfoldable pub mark_draining : WebsocketConnection → WebsocketConnection
mark_draining c = if status_eq c.status connected then record c { status = draining } else c

unfoldable pub start : WebsocketConnection → WebsocketConnection
start c =
    let started = record c { stop_event = false; status = connecting; running = true } in
    elim c.status [
      | disconnected ↦ started
      | closed ↦ started
      | connecting ↦ c
      | connected ↦ c
      | draining ↦ c
    ]

-- The receive task is cancelled and awaited: its last act is to set the status.
unfoldable pub stop : WebsocketConnection → WebsocketConnection
stop c = record c { status = closed; stop_event = true; running = false }

unfoldable pub track_stats : ℕ → ℕ → WebsocketConnection → WebsocketConnection
track_stats now size c = record c {
  stats = record c.stats {
    last_message_ts = now;
    messages_received = c.stats.messages_received + 1;
    bytes_received = c.stats.bytes_received + size;
  };
}

-- how `_receive_messages` ends: the socket is closed, an exception, or the task is cancelled
pub data Ending : Type 0 where
  closed_ok failed cancelled : Ending

-- One attempt to connect. `received` has the time, the size and the content of each message; the stop
-- event may be set while the loop waits to reconnect.
pub record Attempt (Bytes : Type 0) : Type 0 where
  pub connects : Bool
  pub received : List (ℕ × ℕ × Bytes)
  pub ending : Ending
  pub stop_while_waiting : Bool

-- a generator: the items that it yields, then its exception if it raises one
abbrev pub Generator : Type 0 → Type 0 → Type 0
Generator A E = List A × Option E

-- The call of a generator function runs nothing of its body, so that it raises nothing: none would be
-- the exception of the call itself.
abbrev pub call_generator : {A E : Type 0} → Generator A E → Option (Generator A E)
call_generator g = some g

-- for parsed in parsed_messages: await on_message(...); `accepts` is false where the callback raises
unfoldable pub deliver : {A : Type 0} → (A → Bool) → List A → List A
deliver accepts [] = []
deliver accepts (x ∷ xs) = let rest = deliver accepts xs in if accepts x then x ∷ rest else []

-- what `_connection_loop` does after an attempt, before it waits
unfoldable pub disconnect : WebsocketConnection → WebsocketConnection
disconnect c = record c {
  status = disconnected;
  stats = record c.stats { reconnect_count = c.stats.reconnect_count + 1 };
}

unfoldable pub back_off : WebsocketConnection → WebsocketConnection
back_off c = record c { reconnect_delay = min (c.reconnect_delay * 2) max_reconnect_delay }

unfoldable pub close : WebsocketConnection → WebsocketConnection
close c = record c { status = closed }

-- What follows an attempt: the end, if the task was cancelled or the stop event is set in the wait, or
-- what comes `later`.
unfoldable pub after_attempt :
    {A : Type 0}
    → Ending
    → Bool
    → WebsocketConnection
    → List A
    → WebsocketConnection × List A × Bool
    → WebsocketConnection × List A × Bool
unfolding disconnect back_off close
after_attempt cancelled stopped c delivered later = (close c, delivered, true)
after_attempt closed_ok true c delivered later =
    (close (record (disconnect c) { stop_event = true }), delivered, true)
after_attempt failed true c delivered later =
    (close (record (disconnect c) { stop_event = true }), delivered, true)
after_attempt closed_ok false c delivered later = (later.0, delivered ++ later.1, later.2)
after_attempt failed false c delivered later = (later.0, delivered ++ later.1, later.2)

module _ {Bytes A E : Type 0} (parse : Bytes → Generator A E) (accepts : A → Bool) where
  -- the body of the loop of `_receive_messages`, with what the callback has accepted
  unfoldable pub receive_one : ℕ × ℕ × Bytes → WebsocketConnection → WebsocketConnection × List A
  unfolding track_stats deliver
  receive_one (now, size, bytes) c =
      let c' = track_stats now size c in
      elim (call_generator (parse bytes)) [
        | none ↦
            (record c' { stats = record c'.stats { parse_errors = c'.stats.parse_errors + 1 } }, [])
        | some g ↦ (c', deliver accepts g.0)
      ]

  unfoldable pub receive_messages :
      List (ℕ × ℕ × Bytes) → WebsocketConnection → WebsocketConnection × List A
  unfolding receive_one
  receive_messages [] c = (c, [])
  receive_messages (m ∷ ms) c =
      let (c', now_delivered) = receive_one m c in
      let (c'', later) = receive_messages ms c' in (c'', now_delivered ++ later)

  -- `_connect_and_run`, which raises if it does not connect
  unfoldable pub connect_and_run :
      Attempt Bytes → WebsocketConnection → WebsocketConnection × List A × Ending
  unfolding receive_messages
  connect_and_run a c =
      let trying = record c { status = connecting } in
      if a.connects
      then (let (c', delivered) = receive_messages a.received (record trying {
        subscribed_asset_ids = c.asset_ids;
        status = connected;
        reconnect_delay = initial_reconnect_delay;
      }) in
          (c', delivered, a.ending))
      else (trying, [], failed)

  -- `_connection_loop` over its attempts; true if it has ended
  unfoldable pub connection_loop :
      List (Attempt Bytes) → WebsocketConnection → WebsocketConnection × List A × Bool
  unfolding connect_and_run after_attempt
  connection_loop [] c = (c, [], false)
  connection_loop (a ∷ attempts) c =
      let (c1, delivered, ending) = connect_and_run a c in
      let later = connection_loop attempts (back_off (disconnect c1)) in
      if c.stop_event
      then (close c, [], true)
      else after_attempt ending a.stop_while_waiting c1 delivered later
