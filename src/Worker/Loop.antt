-- ===== src/Worker/Loop.antt =====
-- The loop of a worker (src/worker/worker.py, `run` and `_process_message_loop`) over what happens
-- in each of its turns: what the queue gave and what the clock said.
use polypy.Prelude.{
  ℕ, ◌-◌, Bool, true, false, Option, none, some, List, [], ◌∷◌, leb, if◌then◌else◌,
}
use polypy.Prelude.Int.{pos, ◌+ℤ◌, ◌-ℤ◌}
use polypy.SortedDict.{SortedDict}
use polypy.Messages.{Floats, ParsedMessage}
use polypy.Worker.{
  OrderbookRequest, FloatArithmetic, Worker, heartbeat_interval, stats_interval, process_message,
  update_stats, put_stats,
}
use polypy.Worker.Queries.{handle_orderbook_request}

-- what `get` takes from the queue, None being the sentinel
pub data Incoming (F : Floats) : Type 0 where
  shutdown : Incoming F
  request : OrderbookRequest → Incoming F
  message : ParsedMessage F → Incoming F

-- One turn: whether the shutdown event is set, what the queue gave in time (none for Empty), and the
-- readings of the clock before, during and after the message and at the end of the turn.
pub record Turn (F : Floats) : Type 0 where
  pub event_set : Bool
  pub item : Option (Incoming F)
  pub start : ℕ
  pub applied : ℕ
  pub finish : ℕ
  pub last : ℕ
  pub now : ℕ

-- the worker with the two timers of `run`
pub record Timers (W : Type 0) : Type 0 where
  pub worker : W
  pub last_heartbeat : ℕ
  pub last_stats_report : ℕ

module _ (S : SortedDict) (F : Floats) (R : FloatArithmetic F) (base capacity : ℕ) where
  -- none for ShutdownReceivedError
  unfoldable pub process_message_loop : Turn F → Worker S F → Option (Worker S F)
  unfolding ◌+ℤ◌ ◌-ℤ◌
  process_message_loop t w = elim t.item [
    | none ↦ some w
    | some shutdown ↦ none
    | some (request q) ↦ some (handle_orderbook_request S F R capacity q w)
    | some (message m) ↦
        let w' = process_message S F t.applied m w in
        some (record w' {
          stats = record w'.stats {
            processing_time_ms = w'.stats.processing_time_ms +ℤ (pos t.finish -ℤ pos t.start);
            last_message_ts = t.last;
          };
        })
  ]

  unfoldable pub heartbeat : ℕ → Timers (Worker S F) → Timers (Worker S F)
  heartbeat now r =
      if leb heartbeat_interval (now - r.last_heartbeat)
      then record r { worker = update_stats S F base r.worker; last_heartbeat = now }
      else r

  unfoldable pub report : ℕ → Timers (Worker S F) → Timers (Worker S F)
  report now r =
      if leb stats_interval (now - r.last_stats_report)
      then record r { worker = put_stats S F capacity r.worker; last_stats_report = now }
      else r

  unfoldable pub send_final_stats : Worker S F → Worker S F
  unfolding update_stats put_stats
  send_final_stats w = put_stats S F capacity (update_stats S F base w)

  -- The turns up to the event or the sentinel; true if the loop has ended, with the final report.
  unfoldable pub run : List (Turn F) → Timers (Worker S F) → Worker S F × Bool
  unfolding process_message_loop heartbeat report send_final_stats
  run [] r = (r.worker, false)
  run (t ∷ ts) r =
      if t.event_set
      then (send_final_stats r.worker, true)
      else elim (process_message_loop t r.worker) [
        | none ↦ (send_final_stats r.worker, true)
        | some w ↦ run ts (report t.now (heartbeat t.now (record r { worker = w })))
      ]
