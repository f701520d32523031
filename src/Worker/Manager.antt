-- ===== src/Worker/Manager.antt =====
-- The manager of the worker processes (src/worker/manager.py): the input queues over a stop and a
-- start, the statistics, and the polling for the response to a query. Processes are the system's; what
-- they take from a queue and put in one is an argument. An identifier from `uuid` is an argument too.
use polypy.Prelude.{
  ℕ, ◌+◌, String, Bool, true, false, Option, none, some, List, [], ◌∷◌, ◌++◌, length, drop, map,
  ltb, eqb, zero, suc, ◌==◌, if◌then◌else◌,
}
use polypy.Prelude.Int.{ℤ, pos}
use polypy.Messages.{Floats}
use polypy.Worker.{OrderbookResponse, WorkerStats, put_nowait}
use polypy.Worker.Loop.{Incoming, shutdown, request}

abbrev pub input_queue_size : ℕ
input_queue_size = 5000

-- the statistics of each worker, the latest read: a dictionary by worker
unfoldable pub put_worker : ℕ → WorkerStats → List (ℕ × WorkerStats) → List (ℕ × WorkerStats)
put_worker w s [] = (w, s) ∷ []
put_worker w s ((v, t) ∷ d) = if eqb v w then (v, s) ∷ d else (v, t) ∷ put_worker w s d

-- `get_stats` drains the queue
unfoldable pub get_stats : List (ℕ × WorkerStats) → List (ℕ × WorkerStats) → List (ℕ × WorkerStats)
unfolding put_worker
get_stats [] stats = stats
get_stats ((w, s) ∷ queue) stats = get_stats queue (put_worker w s stats)

-- a process, and whether it is alive when it is asked
pub record Process : Type 0 where
  pub worker_id : ℕ
  pub alive : Bool

unfoldable pub get_alive_count : List Process → ℕ
get_alive_count [] = 0
get_alive_count (p ∷ ps) = if p.alive then 1 + get_alive_count ps else get_alive_count ps

unfoldable pub all_alive : List Process → Bool
all_alive [] = true
all_alive (p ∷ ps) = if p.alive then all_alive ps else false

-- what a stop does to a process that does not exit by itself
pub data Force : Type 0 where
  terminate : Force
  kill : Force

-- whether a process is still alive after each join
pub record Fate : Type 0 where
  pub after_join : Bool
  pub after_terminate : Bool

unfoldable pub escalate : Fate → List Force
escalate f =
    if f.after_join
    then (if f.after_terminate then terminate ∷ kill ∷ [] else terminate ∷ [])
    else []

module _ (F : Floats) where
  pub record WorkerManager : Type 0 where
    pub num_workers : ℕ
    pub processes : List Process
    pub input_queues : List (List (Incoming F))
    pub shutdown_event : Bool
    pub running : Bool

  abbrev pub empty_queues : ℕ → List (List (Incoming F))
  empty_queues zero = []
  empty_queues (suc n) = [] ∷ empty_queues n

  -- WorkerManager(num_workers), none for a ValueError
  unfoldable pub init : ℕ → Option WorkerManager
  init n =
      if ltb n 1
      then none
      else some (record {
        num_workers = n;
        processes = [];
        input_queues = [];
        shutdown_event = false;
        running = false;
      })

  -- the queues are created on the first call, and kept
  unfoldable pub get_input_queues : WorkerManager → WorkerManager
  get_input_queues m = elim m.input_queues [
    | [] ↦ record m { input_queues = empty_queues m.num_workers }
    | q ∷ qs ↦ m
  ]

  unfoldable pub processes_from : ℕ → ℕ → List Process
  processes_from first zero = []
  processes_from first (suc n) =
      record { worker_id = first; alive = true } ∷ processes_from (first + 1) n

  unfoldable pub start : WorkerManager → WorkerManager
  unfolding get_input_queues processes_from
  start m =
      if m.running
      then m
      else (let m' = get_input_queues (record m { shutdown_event = false }) in
          record m' { processes = m'.processes ++ processes_from 0 m'.num_workers; running = true })

  -- `exit` is what the workers leave of their queues when they see the event, `fate` how each process
  -- takes the stop. The manager after it, and what was done to each process.
  unfoldable pub stop :
      (List (Incoming F) → List (Incoming F))
      → (Process → Fate)
      → WorkerManager
      → WorkerManager × List (List Force)
  unfolding escalate
  stop exit fate m =
      if m.running
      then (
        record m {
          shutdown_event = true;
          input_queues = map (λ q. exit (put_nowait input_queue_size shutdown q)) m.input_queues;
          processes = [];
          running = false;
        },
        map (λ p. escalate (fate p)) m.processes,
      )
      else (m, [])

  unfoldable pub is_healthy : WorkerManager → Bool
  unfolding all_alive
  is_healthy m = if m.running then all_alive m.processes else false

  -- one poll: the first response, put back if it is another's
  unfoldable pub poll_one :
      String
      → ℕ
      → List (OrderbookResponse F)
      → List (OrderbookResponse F) × Option (OrderbookResponse F)
  poll_one id capacity [] = ([], none)
  poll_one id capacity (r ∷ rs) =
      if r.request_id == id then (rs, some r) else (put_nowait capacity r rs, none)

  -- the polls made before the deadline, with the responses that arrive before each
  unfoldable pub wait_response :
      String
      → ℕ
      → List (List (OrderbookResponse F))
      → List (OrderbookResponse F)
      → List (OrderbookResponse F) × Option (OrderbookResponse F)
  unfolding poll_one
  wait_response id capacity [] q = (q, none)
  wait_response id capacity (arrived ∷ polls) q =
      let (q', found) = poll_one id capacity (q ++ arrived) in
      let later = wait_response id capacity polls q' in
      elim found [ some r ↦ (q', some r) | none ↦ later ]

  abbrev pub failed_response : String → String → String → OrderbookResponse F
  failed_response id asset_id error = record {
    request_id = id;
    asset_id = asset_id;
    found = false;
    bids = [];
    asks = [];
    metrics = none;
    last_update_ts = pos 0;
    history = [];
    error = some error;
  }

  -- `query_orderbook`: the worker takes `taken` items of its queue while the put waits for room. The
  -- two queues that are left, and the response.
  unfoldable pub query_orderbook :
      String
      → String
      → ℤ
      → ℕ
      → ℕ
      → List (List (OrderbookResponse F))
      → List (Incoming F)
      → List (OrderbookResponse F)
      → List (Incoming F) × List (OrderbookResponse F) × OrderbookResponse F
  unfolding wait_response
  query_orderbook id asset_id depth taken capacity polls queue responses =
      let left = drop taken queue in
      if ltb (length left) input_queue_size
      then (let (responses', found) = wait_response id capacity polls responses in
          (
            left ++ request (record { request_id = id; asset_id = asset_id; depth = depth }) ∷ [],
            responses',
            elim found [ none ↦ failed_response id asset_id "Request timeout" | some r ↦ r ],
          ))
      else (left, responses, failed_response id asset_id "Worker queue full")
