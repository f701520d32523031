-- ===== src/Router.antt =====
-- The message router (src/router.py). The MD5 digest is a parameter. The clock is read in
-- milliseconds. A worker's queue is shared with its process, so a queue keeps what the worker has
-- taken beside what waits, and `takes` says how many messages the worker takes while the n-th `put`
-- waits for room.
pub mod Assignment
pub mod Delivery
pub mod Batches
pub mod Loop
pub mod Counts
pub mod Journeys
pub mod Arrivals
pub mod Tests
use polypy.Prelude.{
  ℕ, zero, suc, ◌+◌, ◌*◌, ◌%◌, String, Bool, true, false, Option, none, some, List, [], ◌∷◌, ◌++◌,
  length, take, drop, ltb, eqb, if◌then◌else◌,
}
use polypy.Prelude.Int.{ℤ, pos, ◌+ℤ◌, ◌-ℤ◌}
use polypy.Prelude.Dict.{Dict, get, put}
use polypy.Messages.{Floats, ParsedMessage}

abbrev pub async_queue_size : ℕ
async_queue_size = 20000

abbrev pub worker_queue_size : ℕ
worker_queue_size = 5000

pub record RouterStats : Type 0 where
  pub messages_routed : ℕ
  pub messages_dropped : ℕ
  pub batches_sent : ℕ
  pub queue_full_events : ℕ
  pub routing_errors : ℕ
  pub total_latency_ms : ℤ

-- int.from_bytes(bytes, "little")
unfoldable pub from_bytes : List ℕ → ℕ
from_bytes [] = 0
from_bytes (b ∷ bs) = b + 256 * from_bytes bs

unfoldable pub hash_to_worker : (String → List ℕ) → String → ℕ → ℕ
unfolding from_bytes
hash_to_worker md5 asset_id num_workers = from_bytes (take 8 (md5 asset_id)) % num_workers

-- batches[i].append(x)
unfoldable pub push_at {ℓ} : {A : Type ℓ} → List (List A) → ℕ → A → List (List A)
push_at [] i x = []
push_at (b ∷ bs) zero x = (b ++ x ∷ []) ∷ bs
push_at (b ∷ bs) (suc i) x = b ∷ push_at bs i x

abbrev pub replicate {ℓ} : {A : Type ℓ} → ℕ → A → List A
replicate zero a = []
replicate (suc n) a = a ∷ replicate n a

pub record WorkerQueue (A : Type 0) : Type 0 where
  pub taken : List A
  pub waiting : List A

-- the worker takes the first messages that wait
unfoldable pub worker_takes : {A : Type 0} → ℕ → WorkerQueue A → WorkerQueue A
worker_takes n q = record { taken = q.taken ++ take n q.waiting; waiting = drop n q.waiting }

-- queue.put(item, timeout): the new queue, and False for Full
unfoldable pub queue_put : {A : Type 0} → ℕ → A → WorkerQueue A → WorkerQueue A × Bool
unfolding worker_takes
queue_put n item q =
    let q' = worker_takes n q in
    if ltb (length q'.waiting) worker_queue_size
    then (record q' { waiting = q'.waiting ++ item ∷ [] }, true)
    else (q', false)

unfoldable pub note_put : ℕ → ℕ → Bool → RouterStats → RouterStats
unfolding ◌+ℤ◌ ◌-ℤ◌
note_put now receive_ts true st = record st {
  messages_routed = st.messages_routed + 1;
  total_latency_ms = st.total_latency_ms +ℤ (pos now -ℤ pos receive_ts);
}
note_put now receive_ts false st = record st {
  queue_full_events = st.queue_full_events + 1;
  messages_dropped = st.messages_dropped + 1;
}

-- the worker of an asset, with the cache that the call leaves
unfoldable pub worker_for_asset : (String → List ℕ) → ℕ → String → Dict ℕ → Dict ℕ × ℕ
unfolding hash_to_worker
worker_for_asset md5 n a cache = elim (get cache a) [
  | none ↦ (put cache a (hash_to_worker md5 a n), hash_to_worker md5 a n)
  | some w ↦ (cache, w)
]

module _ (F : Floats) where
  -- a message with its receive time; None is the shutdown sentinel
  abbrev pub Item : Type 0
  Item = ParsedMessage F × ℕ

  pub record MessageRouter : Type 0 where
    pub num_workers : ℕ
    pub worker_queues : List (WorkerQueue (Option Item))
    pub async_queue : List (String × ParsedMessage F × ℕ)
    pub running : Bool
    pub stats : RouterStats
    pub asset_worker_cache : Dict ℕ

  -- the inner loop of `_route_batch`, over the messages of one worker; `i` counts the puts
  unfoldable pub send_messages :
      (ℕ → ℕ)
      → ℕ
      → List Item
      → WorkerQueue (Option Item)
      → RouterStats
      → ℕ
      → WorkerQueue (Option Item) × RouterStats × ℕ
  unfolding queue_put note_put
  send_messages takes now [] q st i = (q, st, i)
  send_messages takes now (m ∷ ms) q st i =
      let (q', sent) = queue_put (takes i) (some m) q in
      send_messages takes now ms q' (note_put now m.1 sent st) (i + 1)

  -- the outer loop, over the workers in order; a worker with no messages is skipped
  unfoldable pub send_batches :
      (ℕ → ℕ)
      → ℕ
      → List (List Item)
      → List (WorkerQueue (Option Item))
      → RouterStats
      → ℕ
      → List (WorkerQueue (Option Item)) × RouterStats
  unfolding send_messages
  send_batches takes now [] qs st i = (qs, st)
  send_batches takes now (b ∷ bs) [] st i = ([], st)
  send_batches takes now (b ∷ bs) (q ∷ qs) st i =
      let (q', st', i') = send_messages takes now b q st i in
      let (qs', st'') = send_batches takes now bs qs st' i' in (q' ∷ qs', st'')

  module _ (md5 : String → List ℕ) where
    -- MessageRouter(num_workers, worker_queues); none for a ValueError
    unfoldable pub init : ℕ → List (WorkerQueue (Option Item)) → Option MessageRouter
    init n queues =
        if ltb n 1
        then none
        else if eqb (length queues) n
        then some (record {
          num_workers = n;
          worker_queues = queues;
          async_queue = [];
          running = false;
          stats = record {
            messages_routed = 0;
            messages_dropped = 0;
            batches_sent = 0;
            queue_full_events = 0;
            routing_errors = 0;
            total_latency_ms = pos 0;
          };
          asset_worker_cache = [];
        })
        else none

    unfoldable pub route_message :
        String → ℕ → ParsedMessage F → MessageRouter → MessageRouter × Bool
    route_message connection_id now message r =
        if ltb (length r.async_queue) async_queue_size
        then (record r { async_queue = r.async_queue ++ (connection_id, message, now) ∷ [] }, true)
        else (
          record r { stats = record r.stats { messages_dropped = r.stats.messages_dropped + 1 } },
          false,
        )

    -- the grouping loop of `_route_batch`
    unfoldable pub group :
        ℕ
        → List (String × ParsedMessage F × ℕ)
        → Dict ℕ
        → List (List Item)
        → Dict ℕ × List (List Item)
    unfolding worker_for_asset push_at
    group n [] cache bs = (cache, bs)
    group n ((connection_id, message, ts) ∷ batch) cache bs =
        let (cache', w) = worker_for_asset md5 n message.asset_id cache in
        group n batch cache' (push_at bs w (message, ts))

    unfoldable pub route_batch :
        (ℕ → ℕ) → ℕ → List (String × ParsedMessage F × ℕ) → MessageRouter → MessageRouter
    unfolding group send_batches
    route_batch takes now batch r =
        let (cache, bs) =
          group r.num_workers batch r.asset_worker_cache (replicate r.num_workers []) in
        let (queues, st) = send_batches takes now bs r.worker_queues r.stats 0 in
        record r {
          asset_worker_cache = cache;
          worker_queues = queues;
          stats = record st { batches_sent = st.batches_sent + 1 };
        }

    -- q.put_nowait(None) for each worker
    unfoldable pub send_sentinels :
        List (WorkerQueue (Option Item)) → List (WorkerQueue (Option Item))
    unfolding queue_put
    send_sentinels [] = []
    send_sentinels (q ∷ qs) = (queue_put 0 none q).0 ∷ send_sentinels qs

    -- The loop is cancelled while it waits, with `batch` collected: it drains the queue and routes
    -- what it has.
    unfoldable pub drain :
        (ℕ → ℕ) → ℕ → List (String × ParsedMessage F × ℕ) → MessageRouter → MessageRouter
    unfolding route_batch
    drain takes now batch r =
        let left = batch ++ r.async_queue in
        let emptied = record r { async_queue = [] } in
        if eqb (length left) 0 then emptied else route_batch takes now left emptied

    unfoldable pub stop :
        (ℕ → ℕ) → ℕ → List (String × ParsedMessage F × ℕ) → MessageRouter → MessageRouter
    unfolding drain send_sentinels
    stop takes now batch r =
        if r.running
        then (let drained = drain takes now batch (record r { running = false }) in
            record drained { worker_queues = send_sentinels drained.worker_queues })
        else r
