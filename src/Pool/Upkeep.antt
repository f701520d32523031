-- ===== src/Pool/Upkeep.antt =====
-- The tasks of the connection pool (src/connection/pool.py): `start`, `stop`, the loop that subscribes
-- pending assets, and the pool's own recycling. While a task sleeps, other tasks and the sockets change
-- the pool: `meanwhile` is what they do.
use polypy.Prelude.{
  ℕ, ◌*◌, ◌-◌, String, Bool, true, false, none, some, List, [], ◌∷◌, length, leb, ltb, eqb,
  if◌then◌else◌,
}
use polypy.Prelude.Dict.{Dict, get, put}
use polypy.SortedDict.{SortedDict}
use polypy.Registry.{AssetRegistry}
use polypy.Registry.Queries.{get_pending_count, get_active_by_connection, connection_stats}
use polypy.Registry.Updates
use polypy.Registry.Updates.{Result, ok, key_error}
use polypy.Connection
use polypy.Connection.{WebsocketConnection, init, mark_draining}
use polypy.Pool.{
  ConnectionInfo, ConnectionPool, min_pending_for_new_connection, process_pending,
  remove_connection,
}

-- 5 minutes, in milliseconds
abbrev pub min_age_for_recycling : ℕ
min_age_for_recycling = 300000

-- `task` tells that the subscription task exists.
pub record ManagedPool (S : SortedDict) : Type 0 where
  pub pool : ConnectionPool S
  pub running : Bool
  pub task : Bool

-- One turn of `_subscription_loop`: what happens in its sleep, whether the pool is stopped or the task
-- is cancelled there, and the identifier and the time of the connection that it may create.
pub record Turn (S : SortedDict) : Type 0 where
  pub meanwhile : ConnectionPool S → ConnectionPool S
  pub stopped : Bool
  pub now : ℕ
  pub connection_id : String

unfoldable pub stop_all : Dict ConnectionInfo → List WebsocketConnection
stop_all [] = []
stop_all ((_, info) ∷ d) = Connection.stop info.connection ∷ stop_all d

module _ (S : SortedDict) where
  unfoldable pub start : ManagedPool S → ManagedPool S
  start m = if m.running then m else record m { running = true; task = true }

  -- The pool without its connections; beside it what becomes of these. A `stop` that raises is
  -- gathered with the others.
  unfoldable pub stop : ManagedPool S → ManagedPool S × List WebsocketConnection
  unfolding stop_all
  stop m =
      if m.running
      then (
        record m { running = false; pool = record m.pool { connections = [] } },
        stop_all m.pool.connections,
      )
      else (m, [])

  -- The loop over its turns, true if it has ended. It sleeps only while few assets are pending; an
  -- exception of `_process_pending_markets` is logged.
  unfoldable pub subscription_loop : List (Turn S) → ConnectionPool S → ConnectionPool S × Bool
  unfolding get_pending_count process_pending
  subscription_loop [] p = (p, false)
  subscription_loop (t ∷ turns) p =
      let slept = t.meanwhile p in
      let woken = subscription_loop turns (process_pending S t.now t.connection_id slept).0 in
      let awake = subscription_loop turns (process_pending S t.now t.connection_id p).0 in
      if ltb (get_pending_count S p.registry) min_pending_for_new_connection
      then (if t.stopped then (slept, true) else woken)
      else awake

  -- the connections for which `_check_for_recycling` creates a task
  unfoldable pub check_for_recycling : ℕ → AssetRegistry S → Dict ConnectionInfo → List String
  unfolding connection_stats
  check_for_recycling now r [] = []
  check_for_recycling now r ((id, info) ∷ d) =
      let others = check_for_recycling now r d in
      let ratio = (connection_stats S r id).pollution_ratio in
      if info.is_draining
      then others
      else if ltb (now - info.created_at) min_age_for_recycling
      then others
      else if leb (30 * ratio.den) (100 * ratio.num)
      then id ∷ others
      else others

  -- the end of `_initiate_recycling`, after the reassignment
  unfoldable pub retire :
      String → ConnectionPool S → AssetRegistry S × Result ℕ → ConnectionPool S × Bool
  unfolding remove_connection
  retire old p (registry, key_error) = (record p { registry = registry }, false)
  retire old p (registry, ok n) = (remove_connection S old (record p { registry = registry }), true)

  -- what `_initiate_recycling` first does to a connection
  unfoldable pub drain : String → ConnectionInfo → ConnectionPool S → ConnectionPool S
  unfolding mark_draining
  drain old info p = record p {
    connections = put p.connections old (record {
      connection = mark_draining info.connection;
      created_at = info.created_at;
      is_draining = true;
    });
  }

  -- a connection put into the pool and started, without a word to the registry
  unfoldable pub admit : ℕ → String → WebsocketConnection → ConnectionPool S → ConnectionPool S
  admit now new c p = record p {
    connections =
        put p.connections new
          (record { connection = Connection.start c; created_at = now; is_draining = false });
  }

  -- `_initiate_recycling`; false if it raises
  unfoldable pub initiate_recycling :
      (ConnectionPool S → ConnectionPool S)
      → ℕ
      → String
      → String
      → ConnectionPool S
      → ConnectionPool S × Bool
  unfolding init get_active_by_connection drain admit retire remove_connection
  initiate_recycling meanwhile now new old p =
      let ids = get_active_by_connection S p.registry old in
      elim (get p.connections old) [
        | none ↦ (p, true)
        | some info ↦
            let draining = drain old info p in
            if eqb (length ids) 0
            then (remove_connection S old draining, true)
            else elim (init now new ids) [
              | none ↦ (draining, false)
              | some c ↦
                  let waited = meanwhile (admit now new c draining) in
                  retire old waited (Updates.reassign_connection S ids old new waited.registry)
            ]
      ]
