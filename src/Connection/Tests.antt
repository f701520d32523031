-- ===== src/Connection/Tests.antt =====
-- A connection (src/connection/websocket.py) with the parser at concrete attempts.
use polypy.Prelude.{ℕ, Bool, true, false, List, [], ◌∷◌, arith}
use polypy.Messages.{ParsedMessage}
use polypy.Messages.Raw.{Failure}
use polypy.Messages.Parser.{parse_messages}
use polypy.Messages.Tests.{tenths, decode, parse_int}
use polypy.Connection.{
  WebsocketConnection, disconnected, failed, Attempt, Generator, connection_loop,
}
use polypy.Connection.Backoff.{IsPatient, connection_loop-IsPatient}
use polypy.Connection.Receiving.{Ended, connection_loop-Ended}

abbrev parse : ℕ → Generator (ParsedMessage tenths) Failure
parse b = parse_messages tenths decode parse_int b

abbrev accept : ParsedMessage tenths → Bool
accept m = true

abbrev connection : WebsocketConnection
connection = record {
  connection_id = "c1";
  asset_ids = "yes" ∷ "no" ∷ [];
  status = disconnected;
  stats = record {
    messages_received = 0;
    bytes_received = 0;
    parse_errors = 0;
    reconnect_count = 0;
    last_message_ts = 0;
    created_at = 0;
  };
  stop_event = false;
  running = true;
  reconnect_delay = 1000;
  subscribed_asset_ids = [];
}

abbrev received : List (ℕ × ℕ × ℕ)
received = (5, 120, 0) ∷ (6, 80, 1) ∷ []

abbrev attempts : List (Attempt ℕ)
attempts =
    record { connects = false; received = []; ending = failed; stop_while_waiting = false }
    ∷ record { connects = true; received = received; ending = failed; stop_while_waiting = true }
    ∷ []

connection_loop-IsPatient_example :
    IsPatient parse accept (connection_loop parse accept attempts connection).0
connection_loop-IsPatient_example =
    connection_loop-IsPatient parse accept attempts connection (omega arith, omega arith)

connection_loop-Ended_example :
    Ended parse accept 0 (connection_loop parse accept attempts connection)
connection_loop-Ended_example = connection_loop-Ended parse accept attempts connection
