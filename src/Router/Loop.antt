-- ===== src/Router/Loop.antt =====
-- The routing task (`start`, `_routing_loop` and `get_queue_depths` of src/router.py), over what happens
-- while it runs, in any order: messages arrive, a `get` of the loop finds one, a batch ends. A batch
-- ends when its time is over or it is full; an exception of `_route_batch` is not modelled, since nothing of
-- what it does raises one.
use polypy.Prelude.{
  ℕ, String, Bool, true, List, [], ◌∷◌, ◌++◌, length, map, ltb, eqb, if◌then◌else◌,
}
use polypy.Prelude.Int.{ℤ, pos, negsuc}
use polypy.Messages.{Floats, ParsedMessage}
use polypy.Router.{MessageRouter, route_message, route_batch}

abbrev pub batch_size : ℕ
batch_size = 100

module _ (F : Floats) where
  pub data Event : Type 0 where
    arrives : String → ℕ → ParsedMessage F → Event
    gets : Event
    ends : (ℕ → ℕ) → ℕ → Event

  -- the router, and the batch that the loop has collected
  pub record Routing : Type 0 where
    pub router : MessageRouter F
    pub batch : List (String × ParsedMessage F × ℕ)

  unfoldable pub start : MessageRouter F → Routing
  start r = record { router = if r.running then r else record r { running = true }; batch = [] }

  -- the loop is still running; an item of the queue is taken into a batch that is not full
  unfoldable pub take_item : List (String × ParsedMessage F × ℕ) → Routing → Routing
  take_item [] s = s
  take_item (item ∷ items) s = record {
    router = record s.router { async_queue = items };
    batch = s.batch ++ item ∷ [];
  }

  module _ (md5 : String → List ℕ) where
    unfoldable pub step : Event → Routing → Routing
    unfolding route_message route_batch take_item
    step (arrives connection_id now message) s = record s {
      router = (route_message F md5 connection_id now message s.router).0;
    }
    step gets s = if ltb (length s.batch) batch_size then take_item s.router.async_queue s else s
    step (ends takes now) s =
        if eqb (length s.batch) 0
        then s
        else record { router = route_batch F md5 takes now s.batch s.router; batch = [] }

    unfoldable pub run : List Event → Routing → Routing
    unfolding step
    run [] s = s
    run (e ∷ events) s = run events (step e s)

  -- the depth of the loop's queue and those of the workers', -1 where the system cannot tell
  unfoldable pub get_queue_depths : Bool → MessageRouter F → ℕ × List ℤ
  get_queue_depths available r = (
    length r.async_queue,
    map (λ q. if available then pos (length q.waiting) else negsuc 0) r.worker_queues,
  )
