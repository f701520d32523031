-- ===== src/App/Stats.antt =====
-- The statistics of the application (`get_stats` of src/app.py, with the averages of router.py,
-- worker/stats.py and lifecycle/recycler.py). A component is absent or there. A floating point number
-- is kept as the quotient that it stands for.
use polypy.Prelude.{ℕ, ◌+◌, ◌*◌, String, Bool, Option, List, [], ◌∷◌, length, map, zero, suc}
use mathlib.Core.Option
use polypy.Prelude.Int.{ℤ, pos, neg}
use polypy.Prelude.Ids.{IdSet}
use polypy.SortedDict.{SortedDict}
use polypy.Registry.{AssetRegistry}
use polypy.Registry.Entry.{subscribed, expired}
use polypy.Registry.Queries.{get_pending_count, get_by_status}
use polypy.Messages.{Floats}
use polypy.Router.{MessageRouter, RouterStats}
use polypy.Router.Loop.{get_queue_depths}
use polypy.Worker.{WorkerStats}
use polypy.Worker.Manager
use polypy.Worker.Manager.{WorkerManager, get_alive_count}
use polypy.Pool
use polypy.Pool.{ConnectionPool, ConnectionRow, active_connection_count, get_connection_stats}
use polypy.Pool.Recycler.{ConnectionRecycler, RecycleStats}
use polypy.Lifecycle.{LifecycleController}

-- num / den
pub record Number : Type 0 where
  pub num : ℤ
  pub den : ℕ

abbrev pub whole : ℕ → Number
whole n = record { num = pos n; den = 1 }

-- k times an integer
unfoldable pub times : ℕ → ℤ → ℤ
unfolding neg
times k (ℤ.pos n) = pos (k * n)
times k (ℤ.negsuc n) = neg (pos (k * suc n))

-- total / count, or a default where nothing was counted
unfoldable pub average : ℕ → ℤ → ℕ → Number
average default total zero = whole default
average default total (suc n) = record { num = total; den = suc n }

-- a text, or a text with the decimals of a number behind it
pub data Label : Type 0 where
  text : String → Label
  numbered : String → ℕ → Label

pub record RegistryCounts : Type 0 where
  pub total_markets : ℕ
  pub pending : ℕ
  pub subscribed : ℕ
  pub expired : ℕ

pub record PoolCounts : Type 0 where
  pub connection_count : ℕ
  pub active_connections : ℕ
  pub total_capacity : ℕ
  pub stats : List ConnectionRow

pub record RouterCounts : Type 0 where
  pub messages_routed : ℕ
  pub messages_dropped : ℕ
  pub batches_sent : ℕ
  pub queue_full_events : ℕ
  pub routing_errors : ℕ
  pub avg_latency_ms : Number
  pub queue_depths : List (Label × ℤ)

pub record WorkerRow : Type 0 where
  pub messages_processed : ℕ
  pub updates_applied : ℕ
  pub snapshots_received : ℕ
  pub avg_processing_time_us : Number
  pub orderbook_count : ℕ
  pub memory_usage_mb : Number

pub record WorkersCounts : Type 0 where
  pub alive_count : ℕ
  pub is_healthy : Bool
  pub worker_stats : List (ℕ × WorkerRow)

pub record LifecycleCounts : Type 0 where
  pub is_running : Bool
  pub known_market_count : ℕ

pub record RecyclerCounts : Type 0 where
  pub recycles_initiated : ℕ
  pub recycles_completed : ℕ
  pub recycles_failed : ℕ
  pub success_rate : Number
  pub markets_migrated : ℕ
  pub avg_downtime_ms : Number
  pub active_recycles : IdSet

-- what `get_stats` returns; none is an empty dictionary or a missing key
pub record AppStats : Type 0 where
  pub running : Bool
  pub registry : Option RegistryCounts
  pub pool : Option PoolCounts
  pub router : Option RouterCounts
  pub workers : Option WorkersCounts
  pub lifecycle : Option LifecycleCounts
  pub recycler : Option RecyclerCounts

abbrev pub worker_row : WorkerStats → WorkerRow
worker_row ws = record {
  messages_processed = ws.messages_processed;
  updates_applied = ws.updates_applied;
  snapshots_received = ws.snapshots_received;
  avg_processing_time_us = average 0 (times 1000 ws.processing_time_ms) ws.messages_processed;
  orderbook_count = ws.orderbook_count;
  memory_usage_mb = record { num = pos ws.memory_usage_bytes; den = 1048576 };
}

abbrev pub number_depths : ℕ → List ℤ → List (Label × ℤ)
number_depths i [] = []
number_depths i (depth ∷ depths) = (numbered "worker_" i, depth) ∷ number_depths (i + 1) depths

abbrev pub router_counts : RouterStats → ℕ × List ℤ → RouterCounts
router_counts st (depth, depths) = record {
  messages_routed = st.messages_routed;
  messages_dropped = st.messages_dropped;
  batches_sent = st.batches_sent;
  queue_full_events = st.queue_full_events;
  routing_errors = st.routing_errors;
  avg_latency_ms = average 0 st.total_latency_ms st.messages_routed;
  queue_depths = (text "async_queue", pos depth) ∷ number_depths 0 depths;
}

abbrev pub recycler_counts : RecycleStats → IdSet → RecyclerCounts
recycler_counts st active = record {
  recycles_initiated = st.recycles_initiated;
  recycles_completed = st.recycles_completed;
  recycles_failed = st.recycles_failed;
  success_rate = average 1 (pos st.recycles_completed) st.recycles_initiated;
  markets_migrated = st.markets_migrated;
  avg_downtime_ms = average 0 (pos st.total_downtime_ms) st.recycles_completed;
  active_recycles = active;
}

module _ (S : SortedDict) (F : Floats) where
  -- The application's components. Beside the manager stands its queue of the workers' reports, beside
  -- the lifecycle controller whether it runs.
  pub record Components : Type 0 where
    pub running : Bool
    pub registry : Option (AssetRegistry S)
    pub pool : Option (ConnectionPool S)
    pub router : Option (MessageRouter F)
    pub workers : Option (WorkerManager F × List (ℕ × WorkerStats))
    pub lifecycle : Option (LifecycleController S × Bool)
    pub recycler : Option (ConnectionRecycler S)

  unfoldable pub registry_counts : AssetRegistry S → RegistryCounts
  unfolding get_pending_count get_by_status
  registry_counts r = record {
    total_markets = length r.assets;
    pending = get_pending_count S r;
    subscribed = length (get_by_status S r subscribed);
    expired = length (get_by_status S r expired);
  }

  unfoldable pub pool_counts : ℕ → ConnectionPool S → PoolCounts
  unfolding active_connection_count Pool.total_capacity get_connection_stats
  pool_counts now p = record {
    connection_count = length p.connections;
    active_connections = active_connection_count S p.connections;
    total_capacity = Pool.total_capacity S p.registry p.connections;
    stats = get_connection_stats S now p.registry p.connections;
  }

  unfoldable pub workers_counts : WorkerManager F × List (ℕ × WorkerStats) → WorkersCounts
  unfolding get_alive_count Manager.is_healthy Manager.get_stats
  workers_counts (m, reports) = record {
    alive_count = get_alive_count m.processes;
    is_healthy = Manager.is_healthy F m;
    worker_stats = map (λ (w, ws). (w, worker_row ws)) (Manager.get_stats reports []);
  }

  -- `qsize` tells whether the system has the length of a queue. The reports are taken from their queue.
  unfoldable pub get_stats : ℕ → Bool → Components → Components × AppStats
  unfolding registry_counts pool_counts workers_counts get_queue_depths
  get_stats now qsize a = (
    record a { workers = Option.map (λ (m, reports). (m, [])) a.workers },
    record {
      running = a.running;
      registry = Option.map registry_counts a.registry;
      pool = Option.map (pool_counts now) a.pool;
      router = Option.map (λ r. router_counts r.stats (get_queue_depths F qsize r)) a.router;
      workers = Option.map workers_counts a.workers;
      lifecycle =
          Option.map
            (λ (c, running). record {
              is_running = running;
              known_market_count = length c.known_conditions;
            })
            a.lifecycle;
      recycler = Option.map (λ r. recycler_counts r.stats r.active_recycles) a.recycler;
    },
  )
