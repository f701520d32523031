-- ===== src/Exercises/Router.antt =====
-- The router of src/exercises/message_router.py: it starts processes as they are needed, gives each at
-- most a threshold of worker identifiers, and sends a message to the process of its identifier. The
-- n-th process that the system starts has the name `names n`; a queue keeps all that is put in it.
pub mod Balance
pub mod Assigning
pub mod Routing
pub mod Delivery
use polypy.Prelude.{
  ℕ, ◌+◌, ◌/◌, String, Bool, true, false, Option, none, some, List, [], ◌∷◌, ◌++◌, length, map, ltb,
  eqb, ◌==◌, if◌then◌else◌,
}
use polypy.Prelude.Int.{ℤ}
use polypy.Prelude.Dict.{Dict, get, put}
use polypy.Prelude.Table.{Table, find, store}
use polypy.Exercises.StateMachine.{Message, ◌>>=◌}

abbrev pub default_threshold : ℕ
default_threshold = 5

-- `_get_max_sm_threshold`, with what os.cpu_count() returns
unfoldable pub get_max_sm_threshold : ℕ → Option ℕ → ℕ
get_max_sm_threshold num_workers cpus = elim cpus [
  | none ↦ default_threshold
  | some n ↦
      if eqb n 0 then default_threshold else if ltb (num_workers / n) 1 then 1 else num_workers / n
]

abbrev pub WorkerQueue : Type 0
WorkerQueue = List (Option Message)

pub record MessageRouter : Type 0 where
  pub max_sm_threshold : ℕ
  pub process_queue_map : Dict WorkerQueue
  pub sm_process_map : Table String
  pub process_sm_counter : Dict ℕ
  pub queue_waittime : List ℤ
  pub message_latencies : List ℤ

unfoldable pub init : ℕ → Option ℕ → MessageRouter
unfolding get_max_sm_threshold
init num_workers cpus = record {
  max_sm_threshold = get_max_sm_threshold num_workers cpus;
  process_queue_map = [];
  sm_process_map = [];
  process_sm_counter = [];
  queue_waittime = [];
  message_latencies = [];
}

-- counter[name], 0 for a name that is not there
abbrev pub count_of : Dict ℕ → String → ℕ
count_of counter name = elim (get counter name) [ none ↦ 0 | some n ↦ n ]

-- the loop of `_find_process_with_capacity`
unfoldable pub first_with_capacity : ℕ → Dict ℕ → Dict WorkerQueue → Option String
first_with_capacity threshold counter [] = none
first_with_capacity threshold counter ((name, queue) ∷ d) =
    if ltb (count_of counter name) threshold
    then some name
    else first_with_capacity threshold counter d

-- `_create_worker_resources`
unfoldable pub create_worker_resources : (ℕ → String) → MessageRouter → MessageRouter × String
create_worker_resources names r =
    let name = names (length r.process_queue_map) in
    (record r { process_queue_map = put r.process_queue_map name [] }, name)

-- the second half of `_register_worker_with_process`
unfoldable pub register : ℕ → String → MessageRouter → MessageRouter
register id name r = record r {
  sm_process_map = store r.sm_process_map id name;
  process_sm_counter = put r.process_sm_counter name (count_of r.process_sm_counter name + 1);
}

-- `_register_worker_with_process`; an empty name counts as none
unfoldable pub register_worker_with_process :
    (ℕ → String) → ℕ → Option String → MessageRouter → MessageRouter
unfolding create_worker_resources register
register_worker_with_process names id process_name r =
    let (created, fresh) = create_worker_resources names r in
    elim process_name [
      | none ↦ register id fresh created
      | some name ↦ if name == "" then register id fresh created else register id name r
    ]

-- `_distribute_id_to_process`
unfoldable pub distribute_id_to_process : (ℕ → String) → ℕ → MessageRouter → MessageRouter
unfolding first_with_capacity register_worker_with_process
distribute_id_to_process names id r =
    register_worker_with_process names id
      (if eqb (length r.process_queue_map) 0
        then none
        else first_with_capacity r.max_sm_threshold r.process_sm_counter r.process_queue_map)
      r

-- `_get_state_machine_process_queue`: the router, and the process with its queue; none is a KeyError
unfoldable pub get_state_machine_process_queue :
    (ℕ → String) → ℕ → MessageRouter → Option (MessageRouter × String × WorkerQueue)
unfolding distribute_id_to_process
get_state_machine_process_queue names id r =
    let r' : MessageRouter = elim (find r.sm_process_map id) [
      | none ↦ distribute_id_to_process names id r
      | some name ↦ r
    ] in
    (do
      name ← find r'.sm_process_map id
      queue ← get r'.process_queue_map name
      some (r', name, queue))

-- what the loop does with a message that has waited this long
unfoldable pub route_message : (ℕ → String) → ℤ → Message → MessageRouter → Option MessageRouter
unfolding get_state_machine_process_queue
route_message names waited m r = do
  (r', name, queue) ← get_state_machine_process_queue names m.worker_id r
  some (record r' {
    process_queue_map = put r'.process_queue_map name (queue ++ some m ∷ []);
    queue_waittime = r'.queue_waittime ++ waited ∷ [];
  })

-- `aggregate_message_latency`, with what each worker sends
unfoldable pub aggregate_message_latency : List (List ℤ) → MessageRouter → MessageRouter
aggregate_message_latency [] r = r
aggregate_message_latency (l ∷ received) r =
    aggregate_message_latency received (record r { message_latencies = r.message_latencies ++ l })

-- the sentinel goes to every queue
unfoldable pub shut_down : List (List ℤ) → MessageRouter → MessageRouter
unfolding aggregate_message_latency
shut_down received r =
    aggregate_message_latency received
      (record r { process_queue_map = map (λ e. (e.0, e.1 ++ none ∷ [])) r.process_queue_map })

-- what a round of the loop finds: the event set, a timeout, the sentinel, or a message
pub data Got : Type 0 where
  event : Got
  timeout : Got
  sentinel : Got
  message : ℤ → Message → Got

unfoldable pub round :
    (ℕ → String)
    → List (List ℤ)
    → Got
    → (MessageRouter → Option MessageRouter)
    → MessageRouter
    → Option MessageRouter
unfolding route_message shut_down
round names received event rest r = some r
round names received timeout rest r = rest r
round names received sentinel rest r = some (shut_down received r)
round names received (message waited m) rest r = route_message names waited m r >>= rest

-- `route_messages`; what a step raises ends it
unfoldable pub route_messages :
    (ℕ → String) → List (List ℤ) → List Got → MessageRouter → Option MessageRouter
unfolding round
route_messages names received [] r = some r
route_messages names received (g ∷ gs) r =
    round names received g (route_messages names received gs) r
