-- ===== src/Pool/Recycler.antt =====
-- The connection recycler (src/lifecycle/recycler.py). While it waits for a new connection to
-- stabilise, other tasks and the sockets change the pool: `meanwhile` is what they do.
use polypy.Prelude.{
  ℕ, ◌+◌, ◌*◌, ◌-◌, String, Bool, true, false, not, ◌||◌, Option, none, some, List, [], ◌∷◌, length,
  leb, eqb, if◌then◌else◌, ◌==◌,
}
use polypy.Prelude.Ids.{IdSet, member, add, discard}
use polypy.SortedDict.{SortedDict}
use polypy.Registry.{AssetRegistry}
use polypy.Registry.Queries.{get_active_by_connection}
use polypy.Registry.Updates
use polypy.Registry.Updates.{Result, ok, key_error}
use polypy.Pool.{
  ConnectionPool, ConnectionRow, force_subscribe, get_connection_stats, remove_connection,
}

pub record RecycleStats : Type 0 where
  pub recycles_initiated : ℕ
  pub recycles_completed : ℕ
  pub recycles_failed : ℕ
  pub markets_migrated : ℕ
  pub total_downtime_ms : ℕ

pub record ConnectionRecycler (S : SortedDict) : Type 0 where
  pub pool : ConnectionPool S
  pub active_recycles : IdSet
  pub stats : RecycleStats

-- 24 hours, in milliseconds
abbrev pub age_threshold : ℕ
age_threshold = 86400000

-- pollution_ratio >= 0.30, or too old, or unhealthy
unfoldable pub should_recycle : ConnectionRow → Bool
should_recycle row =
    leb (30 * row.pollution_ratio.den) (100 * row.pollution_ratio.num)
    || leb age_threshold row.age
    || not row.is_healthy

-- the connections for which `_check_all_connections` creates a task
unfoldable pub to_recycle : IdSet → List ConnectionRow → List String
unfolding should_recycle member
to_recycle active [] = []
to_recycle active (row ∷ rows) =
    let others = to_recycle active rows in
    if member row.connection_id active
    then others
    else if row.is_draining
    then others
    else if should_recycle row
    then row.connection_id ∷ others
    else others

-- the row of a connection says that it is healthy
unfoldable pub found_healthy : String → List ConnectionRow → Bool
found_healthy id [] = false
found_healthy id (row ∷ rows) =
    if row.connection_id == id then row.is_healthy else found_healthy id rows

module _ (S : SortedDict) where
  unfoldable pub fail : ConnectionRecycler S → ConnectionRecycler S × Bool
  fail r =
      (record r { stats = record r.stats { recycles_failed = r.stats.recycles_failed + 1 } }, false)

  unfoldable pub complete : ℕ → ℕ → ConnectionRecycler S → ConnectionRecycler S × Bool
  complete migrated duration r = (
    record r {
      stats = record r.stats {
        recycles_completed = r.stats.recycles_completed + 1;
        markets_migrated = r.stats.markets_migrated + migrated;
        total_downtime_ms = r.stats.total_downtime_ms + duration;
      };
    },
    true,
  )

  -- what follows the reassignment of step 6: the removal of the old connection, the statistics
  unfoldable pub conclude :
      String → ℕ → ConnectionRecycler S → AssetRegistry S × Result ℕ → ConnectionRecycler S × Bool
  unfolding fail complete
  conclude old duration r (registry, key_error) =
      fail (record r { pool = record r.pool { registry = registry } })
  conclude old duration r (registry, ok n) =
      complete n duration
        (record r { pool = remove_connection S old (record r.pool { registry = registry }) })

  -- steps 6 to 8
  unfoldable pub migrate :
      String → String → List String → ℕ → ConnectionRecycler S → ConnectionRecycler S × Bool
  unfolding conclude
  migrate old new ids duration r =
      conclude old duration r (Updates.reassign_connection S ids old new r.pool.registry)

  -- the workflow after the recycle has been counted
  unfoldable pub replace_connection :
      (ConnectionPool S → ConnectionPool S)
      → ℕ
      → ℕ
      → String
      → String
      → ConnectionRecycler S
      → ConnectionRecycler S × Bool
  unfolding migrate fail
  replace_connection meanwhile now later new old r =
      let ids = get_active_by_connection S r.pool.registry old in
      if eqb (length ids) 0
      then (
        record r {
          pool = remove_connection S old r.pool;
          stats = record r.stats { recycles_completed = r.stats.recycles_completed + 1 };
        },
        true,
      )
      else elim (force_subscribe S now new ids r.pool) [
        | none ↦ fail r
        | some p ↦
            let waited : ConnectionRecycler S = record r { pool = meanwhile p } in
            if found_healthy new
              (get_connection_stats S later waited.pool.registry waited.pool.connections)
            then migrate old new ids (later - now) waited
            else fail waited
      ]

  -- `_recycle_connection`
  unfoldable pub recycle_connection :
      (ConnectionPool S → ConnectionPool S)
      → ℕ
      → ℕ
      → String
      → String
      → ConnectionRecycler S
      → ConnectionRecycler S × Bool
  unfolding replace_connection add discard
  recycle_connection meanwhile now later new old r =
      let (r', done) = replace_connection meanwhile now later new old (record r {
        active_recycles = add old r.active_recycles;
        stats = record r.stats { recycles_initiated = r.stats.recycles_initiated + 1 };
      }) in
      (record r' { active_recycles = discard old r'.active_recycles }, done)

  -- none for the ValueError of a connection that is being recycled
  unfoldable pub force_recycle :
      (ConnectionPool S → ConnectionPool S)
      → ℕ
      → ℕ
      → String
      → String
      → ConnectionRecycler S
      → Option (ConnectionRecycler S × Bool)
  unfolding recycle_connection member
  force_recycle meanwhile now later new old r =
      if member old r.active_recycles
      then none
      else some (recycle_connection meanwhile now later new old r)
