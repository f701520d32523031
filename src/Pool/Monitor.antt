-- ===== src/Pool/Monitor.antt =====
-- The monitor of the recycler (`start`, `stop` and `_monitor_loop` of src/lifecycle/recycler.py).
use polypy.Prelude.{ℕ, String, Bool, true, false, List, [], ◌∷◌, ◌++◌, if◌then◌else◌}
use polypy.SortedDict.{SortedDict}
use polypy.Pool.{get_connection_stats}
use polypy.Pool.Recycler.{ConnectionRecycler, to_recycle}

-- a task that recycles a connection, and what has become of it
pub data TaskState : Type 0 where
  waiting finished cancelled : TaskState

pub record Task : Type 0 where
  pub connection_id : String
  pub state : TaskState

pub record Monitored (S : SortedDict) : Type 0 where
  pub recycler : ConnectionRecycler S
  pub running : Bool
  pub tasks : List Task

abbrev pub new_tasks : List String → List Task
new_tasks [] = []
new_tasks (id ∷ ids) = record { connection_id = id; state = waiting } ∷ new_tasks ids

-- task.cancel() for every task that is not done
unfoldable pub cancel_all : List Task → List Task
cancel_all [] = []
cancel_all (t ∷ tasks) =
    elim t.state [ waiting ↦ record t { state = cancelled } | finished ↦ t | cancelled ↦ t ]
    ∷ cancel_all tasks

module _ (S : SortedDict) where
  unfoldable pub start : Monitored S → Monitored S
  start m = if m.running then m else record m { running = true }

  -- One wake-up of `_monitor_loop`, with `_check_all_connections`. A task is among the active recycles
  -- only once it has the semaphore.
  unfoldable pub wake : ℕ → Monitored S → Monitored S
  unfolding to_recycle get_connection_stats
  wake now m =
      if m.running
      then record m {
        tasks =
            m.tasks
            ++ new_tasks (
                to_recycle m.recycler.active_recycles (
                  get_connection_stats S now m.recycler.pool.registry m.recycler.pool.connections));
      }
      else m

  -- `wait` is what the tasks do in the 30 seconds that they are given; `timed_out` tells that some
  -- are not done by then.
  unfoldable pub stop : (Monitored S → Monitored S) → Bool → Monitored S → Monitored S
  unfolding cancel_all
  stop wait timed_out m =
      let waited = wait (record m { running = false }) in
      let cut_short = record waited { tasks = cancel_all waited.tasks } in
      if m.running then (if timed_out then cut_short else waited) else m
