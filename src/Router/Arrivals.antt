-- ===== src/Router/Arrivals.antt =====
-- What the workers have got once the router has stopped (src/router.py).
use polypy.Prelude.{
  ℕ, ◌≡◌, refl, sym, String, Bool, true, false, Option, none, some, List, [], ◌∷◌, ◌++◌, length,
  map, get_elem?, arith, eqb, if-elim, if◌then◌else◌, zero, suc,
}
use mathlib.Core.List.{append-nil}
use polypy.Prelude.Kept.{Kept, Kept-prefix, Kept-trans}
use polypy.Messages.{Floats, ParsedMessage}
use polypy.Router.{Item, MessageRouter, queue_put, drain, send_sentinels, stop}
use polypy.Router.Assignment.{assigned}
use polypy.Router.Delivery.{history, history-queue_put, Queue}
use polypy.Router.Batches.{IsReady}
use polypy.Router.Loop.{Event, Routing, run}
use polypy.Router.Counts.{arrivals, run-Run}
use polypy.Router.Journeys.{Journey, send-Journey, run-Journey, begin-Journey}

nothing_left : {A : Type 0} (xs : List A) → eqb (length xs) 0 ≡ true → xs ≡ []
nothing_left [] e = refl
nothing_left (x ∷ xs) e = absurd (ground (arith, e))

-- the sentinel, if it could be put
abbrev pub sentinel : {A : Type 0} → Bool → List (Option A)
sentinel put = if put then none ∷ [] else []

module _ (F : Floats) (md5 : String → List ℕ) where
  sentinel_at :
      (qs : List (Queue F)) (w : ℕ) (q : Queue F)
      → get_elem? qs w ≡ some q
      → get_elem? (send_sentinels F md5 qs) w ≡ some (queue_put 0 none q).0
  unfolding send_sentinels
  sentinel_at [] w q e = cc
  sentinel_at (r ∷ qs) zero q e = ground (arith, e)
  sentinel_at (r ∷ qs) (suc w) q e = sentinel_at qs w q e

  module _ (w : ℕ) (takes : ℕ → ℕ) (now : ℕ) (q : Queue F) where
    drain-Journey :
        (n : ℕ) (arrived : List (String × ParsedMessage F × ℕ)) (s : Routing F)
        → IsReady F md5 s.router
        → Journey F md5 n w q arrived s
        → Journey F md5 n w q arrived
            (record { router = drain F md5 takes now s.batch s.router; batch = [] })
    unfolding drain
    drain-Journey n arrived s ready j =
        let left = s.batch ++ s.router.async_queue in
        let emptied : MessageRouter F = record s.router { async_queue = [] } in
        if-elim
          (λ (r : MessageRouter F). Journey F md5 n w q arrived (record { router = r; batch = [] }))
          (eqb (length left) 0)
          (λ none_left. record {
            workers = j.workers;
            now_queue = j.now_queue;
            at = j.at;
            sent = j.sent;
            put = j.put;
            in_order = rw (sym (nothing_left left none_left)) j.in_order;
          })
          (λ _.
            send-Journey F md5 n w takes now q arrived (record { router = emptied; batch = left })
              (record { workers = ready.workers; queues = ready.queues; cache = ready.cache })
              (record {
                workers = j.workers;
                now_queue = j.now_queue;
                at = j.at;
                sent = j.sent;
                put = j.put;
                in_order = rw (append-nil left) j.in_order;
              }))

  -- what a worker's queue has got, in order: part of its messages, then the sentinel unless the queue is
  -- full
  pub record Served (w : ℕ) (q : Queue F) (mine : List (Item F)) (r : MessageRouter F)
      : Type 0 where
    pub now_queue : Queue F
    pub at : get_elem? r.worker_queues w ≡ some now_queue
    pub sent : List (Item F)
    pub in_order : Kept sent mine
    pub ended : Bool
    pub put : history now_queue ≡ (history q ++ map some sent) ++ sentinel ended

  sentinel-Served :
      (w n : ℕ) (q : Queue F) (arrived : List (String × ParsedMessage F × ℕ)) (s : Routing F)
      → Journey F md5 n w q arrived s
      → Served w q
          (assigned F md5 n w arrived)
          (record s.router { worker_queues = send_sentinels F md5 s.router.worker_queues })
  sentinel-Served w n q arrived s j =
      let waiting = s.batch ++ s.router.async_queue in
      let (q', ended) = queue_put 0 none j.now_queue in
      record {
        now_queue = q';
        at = sentinel_at s.router.worker_queues w j.now_queue j.at;
        sent = j.sent;
        in_order = Kept-trans j.in_order (Kept-prefix j.sent (assigned F md5 n w waiting));
        ended = ended;
        put = ground (
          arith,
          history-queue_put 0 none j.now_queue,
          j.put,
          append-nil (history q ++ map some j.sent),
        );
      }

  -- A running router with workers, a queue for each and a right cache is stopped after its loop has
  -- collected and ended batches in any way while messages arrived. Then every worker has got a part, in
  -- order, of the messages that waited at the beginning or arrived and whose asset hashes to it, and
  -- after them nothing but at most one sentinel.
  pub stop-run_serves :
      (events : List (Event F)) (w : ℕ) (takes : ℕ → ℕ) (now : ℕ) (r : MessageRouter F)
      (q : Queue F)
      → IsReady F md5 r
      → r.running ≡ true
      → get_elem? r.worker_queues w ≡ some q
      → let s = run F md5 events (record { router = r; batch = [] }) in
        Served w q
          (assigned F md5 r.num_workers w (r.async_queue ++ arrivals F events))
          (stop F md5 takes now s.batch s.router)
  unfolding stop
  stop-run_serves events w takes now r q ready on at =
      let begun : Routing F = record { router = r; batch = [] } in
      let s = run F md5 events begun in
      let k = run-Run F md5 events begun ready in
      let n = r.num_workers in
      let arrived = r.async_queue ++ arrivals F events in
      let j =
        run-Journey F md5 n w events q r.async_queue begun ready
          (begin-Journey F md5 n w r q refl at) in
      if-elim (Served w q (assigned F md5 n w arrived)) s.router.running
        (λ _.
          let halted : Routing F = record s { router = record s.router { running = false } } in
          sentinel-Served w n q arrived
            (record { router = drain F md5 takes now halted.batch halted.router; batch = [] })
            (drain-Journey w takes now q n arrived halted
              (record { workers = k.ready.workers; queues = k.ready.queues; cache = k.ready.cache })
              (record {
                workers = j.workers;
                now_queue = j.now_queue;
                at = j.at;
                sent = j.sent;
                put = j.put;
                in_order = j.in_order;
              })))
        (λ off. cc)
