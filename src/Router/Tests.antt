-- ===== src/Router/Tests.antt =====
-- The router (src/router.py) at a concrete batch.
use polypy.Prelude.{
  ℕ, ◌+◌, String, ◌≡◌, refl, true, false, none, some, List, [], ◌∷◌, ◌++◌, map, get_elem?, arith,
  length,
}
use Prim.Native.String.{count}
use polypy.Prelude.Int.{pos}
use polypy.Prelude.Dict.{get}
use polypy.Messages.{unknown, ParsedMessage}
use polypy.Messages.Tests.{tenths}
use polypy.Router.{Item, MessageRouter, route_batch, stop}
use polypy.Router.Assignment.{IsRightCache, assigned}
use polypy.Router.Delivery.{Queue}
use polypy.Router.Batches.{IsReady}
use polypy.Router.Loop.{Event, arrives, gets, ends, run}
use polypy.Router.Counts.{accounted, arrivals, stop-run_counts}
use polypy.Router.Arrivals.{Served, stop-run_serves}
use polypy.Router

abbrev md5 : String → List ℕ
md5 t = count t ∷ 1 ∷ []

abbrev message_for : String → ParsedMessage tenths
message_for a = record {
  event_type = unknown;
  asset_id = a;
  market = "game";
  raw_timestamp = pos 0;
  book = none;
  price_change = none;
  last_trade = none;
  tick_size_change = none;
}

abbrev batch : List (String × ParsedMessage tenths × ℕ)
batch =
    ("c1", message_for "yes", 5) ∷ ("c1", message_for "no", 6) ∷ ("c2", message_for "yes", 7) ∷ []

abbrev empty_queue : Queue tenths
empty_queue = record { taken = []; waiting = [] }

abbrev router : MessageRouter tenths
router = record {
  num_workers = 2;
  worker_queues = empty_queue ∷ empty_queue ∷ [];
  async_queue = ("c3", message_for "no", 8) ∷ [];
  running = true;
  stats = record {
    messages_routed = 0;
    messages_dropped = 0;
    batches_sent = 0;
    queue_full_events = 0;
    routing_errors = 0;
    total_latency_ms = pos 0;
  };
  asset_worker_cache = [];
}

empty_cache : IsRightCache md5 2 []
unfolding get
empty_cache a w e = cc

router-IsReady : IsReady tenths md5 router
router-IsReady = record { workers = omega arith; queues = omega arith; cache = empty_cache }

abbrev events : List (Event tenths)
events =
    gets
    ∷ arrives "c1" 9 (message_for "yes")
    ∷ arrives "c2" 9 (message_for "no")
    ∷ gets
    ∷ ends (λ _. 1) 12
    ∷ arrives "c1" 13 (message_for "yes")
    ∷ []

-- the loop has sent one message to each worker, and two wait
loop_sends :
    let s = run tenths md5 events (record { router = router; batch = [] }) in
    (s.router.stats.messages_routed ≡ 2) × (length s.router.async_queue ≡ 2)
unfolding run get Router.route_batch Router.note_put Router.hash_to_worker polypy.Prelude.Dict.put
loop_sends = (refl, refl)

stop-run_counts_example :
    let s' = run tenths md5 events (record { router = router; batch = [] }) in
    let r = stop tenths md5 (λ _. 0) 20 s'.batch s'.router in
    (r.stats.messages_routed + r.stats.messages_dropped
      ≡ accounted tenths (record { router = router; batch = [] }) + length (arrivals tenths events))
    × (r.async_queue ≡ [])
    × (r.running ≡ false)
stop-run_counts_example =
    stop-run_counts tenths md5 events (λ _. 0) 20 (record { router = router; batch = [] })
      router-IsReady refl

stop-run_serves_example :
    let s = run tenths md5 events (record { router = router; batch = [] }) in
    Served tenths md5 1 empty_queue
      (assigned tenths md5 2 1 (router.async_queue ++ arrivals tenths events))
      (stop tenths md5 (λ _. 0) 20 s.batch s.router)
stop-run_serves_example =
    stop-run_serves tenths md5 events 1 (λ _. 0) 20 router empty_queue router-IsReady refl refl
