-- ===== src/Pool.antt =====
-- The connection pool (src/connection/pool.py) over the registry that it shares. A new connection's
-- identifier (from `uuid`) and the readings of the clock are arguments. What the sockets do while the
-- pool awaits them is not the pool's: `start` leaves a connection CONNECTING.
pub mod Subscribing
pub mod Recycler
pub mod Settling
pub mod Migration
pub mod Upkeep
pub mod Monitor
pub mod Renewal
pub mod Clearing
pub mod Tests
use polypy.Prelude.{
  ℕ, ◌+◌, ◌-◌, String, Bool, true, false, Option, none, some, List, [], ◌∷◌, length, ltb, eqb,
  if◌then◌else◌,
}
use polypy.Prelude.Int.{pos}
use polypy.Prelude.Dict.{Dict, get, put, remove}
use polypy.SortedDict.{SortedDict}
use polypy.Registry.{AssetRegistry}
use polypy.Registry.Queries.{Ratio, get_by_connection, get_pending_count, connection_stats}
use polypy.Registry.Updates
use polypy.Connection.{
  ConnectionStatus, WebsocketConnection, connected, init, is_healthy, start, status_eq, stop,
}

abbrev pub target_markets_per_connection : ℕ
target_markets_per_connection = 400

abbrev pub max_markets_per_connection : ℕ
max_markets_per_connection = 500

abbrev pub min_pending_for_new_connection : ℕ
min_pending_for_new_connection = 50

pub record ConnectionInfo : Type 0 where
  pub connection : WebsocketConnection
  pub created_at : ℕ
  pub is_draining : Bool

pub record ConnectionPool (S : SortedDict) : Type 0 where
  pub registry : AssetRegistry S
  pub connections : Dict ConnectionInfo

-- a row of `get_connection_stats`
pub record ConnectionRow : Type 0 where
  pub connection_id : String
  pub status : ConnectionStatus
  pub is_draining : Bool
  pub age : ℕ
  pub messages_received : ℕ
  pub bytes_received : ℕ
  pub parse_errors : ℕ
  pub reconnect_count : ℕ
  pub is_healthy : Bool
  pub total_markets : ℕ
  pub subscribed_markets : ℕ
  pub expired_markets : ℕ
  pub pollution_ratio : Ratio

module _ (S : SortedDict) where
  unfoldable pub active_connection_count : Dict ConnectionInfo → ℕ
  active_connection_count [] = 0
  active_connection_count ((_, info) ∷ d) =
      if status_eq info.connection.status connected
      then if info.is_draining then active_connection_count d else active_connection_count d + 1
      else active_connection_count d

  -- max(0, target - used), summed
  unfoldable pub total_capacity : AssetRegistry S → Dict ConnectionInfo → ℕ
  total_capacity r [] = 0
  total_capacity r ((cid, info) ∷ d) =
      if info.is_draining
      then total_capacity r d
      else target_markets_per_connection - length (get_by_connection S r cid) + total_capacity r d

  unfoldable pub get_connection_stats :
      ℕ → AssetRegistry S → Dict ConnectionInfo → List ConnectionRow
  get_connection_stats now r [] = []
  get_connection_stats now r ((cid, info) ∷ d) =
      let counts = connection_stats S r cid in
      record {
        connection_id = cid;
        status = info.connection.status;
        is_draining = info.is_draining;
        age = now - info.created_at;
        messages_received = info.connection.stats.messages_received;
        bytes_received = info.connection.stats.bytes_received;
        parse_errors = info.connection.stats.parse_errors;
        reconnect_count = info.connection.stats.reconnect_count;
        is_healthy = is_healthy now info.connection;
        total_markets = counts.total;
        subscribed_markets = counts.subscribed;
        expired_markets = counts.expired;
        pollution_ratio = counts.pollution_ratio;
      }
      ∷ get_connection_stats now r d

  -- A connection for the assets, started and noted in the registry; none for the ValueError of
  -- WebsocketConnection.
  unfoldable pub open_connection :
      ℕ → String → List String → ConnectionPool S → Option (ConnectionPool S)
  unfolding init start
  open_connection now id ids p = elim (init now id ids) [
    | none ↦ none
    | some c ↦ some (record {
      connections =
          put p.connections id
            (record { connection = start c; created_at = now; is_draining = false });
      registry = (Updates.mark_subscribed S now ids id p.registry).0;
    })
  ]

  -- `_process_pending_markets`; false if it raises, when the batch has been taken all the same
  unfoldable pub process_pending : ℕ → String → ConnectionPool S → ConnectionPool S × Bool
  unfolding open_connection get_pending_count
  process_pending now id p =
      if ltb (get_pending_count S p.registry) min_pending_for_new_connection
      then (p, true)
      else (let (r, batch) =
            Updates.take_pending_batch S (pos target_markets_per_connection) p.registry in
          let taken = record p { registry = r } in
          if eqb (length batch) 0
          then (taken, true)
          else elim (open_connection now id batch taken) [
            | none ↦ (taken, false)
            | some p' ↦ (p', true)
          ])

  -- none for a ValueError
  unfoldable pub force_subscribe :
      ℕ → String → List String → ConnectionPool S → Option (ConnectionPool S)
  unfolding open_connection
  force_subscribe now id ids p =
      if ltb max_markets_per_connection (length ids)
      then none
      else if eqb (length ids) 0
      then none
      else open_connection now id ids p

  -- `_remove_connection`; the connection that is taken out is stopped
  unfoldable pub remove_connection : String → ConnectionPool S → ConnectionPool S
  remove_connection id p = elim (get p.connections id) [
    | none ↦ p
    | some info ↦ record {
      connections = remove p.connections id;
      registry = (Updates.remove_connection S id p.registry).0;
    }
  ]
