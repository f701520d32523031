-- ===== src/Router/Counts.antt =====
-- That the router counts every message of a whole run (src/router.py).
use polypy.Prelude.{
  ℕ, ◌+◌, ◌≡◌, refl, sym, ap, ◌∙◌, String, Bool, true, false, List, [], ◌∷◌, ◌++◌, length,
  length-append, arith, ltb, eqb, if-elim,
}
use polypy.Messages.{Floats, ParsedMessage}
use polypy.Router.{
  Item, MessageRouter, route_message, group, route_batch, send_batches, stop, replicate,
}
use polypy.Router.Assignment.{group_empty}
use polypy.Router.Delivery.{Queue}
use polypy.Router.Batches.{IsReady, route_batch_counts, stop_drains}
use polypy.Router.Loop.{Event, arrives, gets, ends, Routing, take_item, step, run}
use polypy.Router

module _ (F : Floats) where
  -- the messages that arrive, with the time of each
  abbrev pub arrivals : List (Event F) → List (String × ParsedMessage F × ℕ)
  arrivals [] = []
  arrivals (arrives c now m ∷ events) = (c, m, now) ∷ arrivals events
  arrivals (gets ∷ events) = arrivals events
  arrivals (ends takes now ∷ events) = arrivals events

  -- what has been counted, and what is still to be
  abbrev pub accounted : Routing F → ℕ
  accounted s =
      s.router.stats.messages_routed
      + s.router.stats.messages_dropped
      + length s.batch
      + length s.router.async_queue

  length-send_batches :
      (takes : ℕ → ℕ) (now : ℕ) (bs : List (List (Item F))) (qs : List (Queue F))
      (st : Router.RouterStats) (i : ℕ)
      → length bs ≡ length qs
      → length (send_batches F takes now bs qs st i).0 ≡ length qs
  unfolding send_batches
  length-send_batches takes now [] qs st i e = refl
  length-send_batches takes now (b ∷ bs) [] st i e = refl
  length-send_batches takes now (b ∷ bs) (q ∷ qs) st i e =
      let (q', st', i') = Router.send_messages F takes now b q st i in
      omega (arith, length-send_batches takes now bs qs st' i' (omega (arith, e)))

  module _ (md5 : String → List ℕ) where
    pub route_batch-IsReady :
        (takes : ℕ → ℕ) (now : ℕ) (batch : List (String × ParsedMessage F × ℕ))
        (r : MessageRouter F)
        → IsReady F md5 r
        → IsReady F md5 (route_batch F md5 takes now batch r)
    unfolding route_batch
    route_batch-IsReady takes now batch r ready =
        let g =
          group_empty F md5 r.num_workers batch r.asset_worker_cache ready.workers ready.cache in
        let (cache, bs) =
          group F md5 r.num_workers batch r.asset_worker_cache (replicate r.num_workers []) in
        record {
          workers = ready.workers;
          queues =
              length-send_batches takes now bs r.worker_queues r.stats 0 (g.size ∙ sym ready.queues)
              ∙ ready.queues;
          cache = g.cache;
        }

    take_item-accounted :
        (items : List (String × ParsedMessage F × ℕ)) (s : Routing F)
        → s.router.async_queue ≡ items
        → accounted (take_item F items s) ≡ accounted s
    unfolding take_item
    take_item-accounted [] s e = refl
    take_item-accounted (item ∷ items) s e =
        omega (arith, length-append s.batch (item ∷ []), ap (λ l. length l) e)

    pub route_batch_keeps :
        (takes : ℕ → ℕ) (now : ℕ) (batch : List (String × ParsedMessage F × ℕ))
        (r : MessageRouter F)
        → ((route_batch F md5 takes now batch r).async_queue ≡ r.async_queue)
          × ((route_batch F md5 takes now batch r).running ≡ r.running)
          × ((route_batch F md5 takes now batch r).num_workers ≡ r.num_workers)
    unfolding route_batch
    route_batch_keeps takes now batch r = (refl, refl, refl)

    step-accounted :
        (e : Event F) (s : Routing F)
        → IsReady F md5 s.router
        → accounted (step F md5 e s) ≡ accounted s + length (arrivals (e ∷ []))
    unfolding step
    step-accounted (arrives c now m) s ready =
        unfold route_message in
        ground (arith, length-append s.router.async_queue ((c, m, now) ∷ []))
    step-accounted gets s ready = ground (arith, take_item-accounted s.router.async_queue s refl)
    step-accounted (ends takes now) s ready =
        let (counted, _, _) = route_batch_counts F md5 takes now s.batch s.router ready in
        let (queue, _, _) = route_batch_keeps takes now s.batch s.router in
        ground (arith, counted, queue)

    take_item-IsReady :
        (items : List (String × ParsedMessage F × ℕ)) (s : Routing F)
        → IsReady F md5 s.router
        → IsReady F md5 (take_item F items s).router
    unfolding take_item
    take_item-IsReady [] s ready = ready
    take_item-IsReady (item ∷ items) s ready = record {
      workers = ready.workers;
      queues = ready.queues;
      cache = ready.cache;
    }

    -- an event leaves the router ready, and running as it was
    pub step-IsReady :
        (e : Event F) (s : Routing F)
        → IsReady F md5 s.router
        → IsReady F md5 (step F md5 e s).router
    unfolding step
    step-IsReady (arrives c now m) s ready =
        unfold route_message in
        if-elim (λ (x : MessageRouter F × Bool). IsReady F md5 x.0)
          (ltb (length s.router.async_queue) 20000)
          (λ _. record { workers = ready.workers; queues = ready.queues; cache = ready.cache })
          (λ _. record { workers = ready.workers; queues = ready.queues; cache = ready.cache })
    step-IsReady gets s ready =
        if-elim (λ (x : Routing F). IsReady F md5 x.router) (ltb (length s.batch) 100)
          (λ _. take_item-IsReady s.router.async_queue s ready) (λ _. ready)
    step-IsReady (ends takes now) s ready =
        if-elim (λ (x : Routing F). IsReady F md5 x.router) (eqb (length s.batch) 0) (λ _. ready)
          (λ _. route_batch-IsReady takes now s.batch s.router ready)

    step-running :
        (e : Event F) (s : Routing F) → (step F md5 e s).router.running ≡ s.router.running
    unfolding step take_item
    step-running (arrives c now m) s = unfold route_message in ground arith
    step-running gets s = ground arith
    step-running (ends takes now) s = ground (arith, route_batch_keeps takes now s.batch s.router)

    -- what a run keeps
    pub record Run (s : Routing F) (events : List (Event F)) (s' : Routing F) : Type 0 where
      pub ready : IsReady F md5 s'.router
      pub running : s'.router.running ≡ s.router.running
      pub counted : accounted s' ≡ accounted s + length (arrivals events)

    pub arrivals_split :
        (e : Event F) (events : List (Event F))
        → arrivals (e ∷ events) ≡ arrivals (e ∷ []) ++ arrivals events
    arrivals_split (arrives c now m) events = refl
    arrivals_split gets events = refl
    arrivals_split (ends takes now) events = refl

    pub run-Run :
        (events : List (Event F)) (s : Routing F)
        → IsReady F md5 s.router
        → Run s events (run F md5 events s)
    unfolding run
    run-Run [] s ready = record { ready = ready; running = refl; counted = omega arith }
    run-Run (e ∷ events) s ready =
        let r = run-Run events (step F md5 e s) (step-IsReady e s ready) in
        record {
          ready = r.ready;
          running = r.running ∙ step-running e s;
          counted = omega (
            arith,
            r.counted,
            step-accounted e s ready,
            ap (λ l. length l) (arrivals_split e events),
            length-append (arrivals (e ∷ [])) (arrivals events),
          );
        }

    -- Of a running router with workers, a queue for each and a right cache, whatever arrives and however
    -- its loop collects and ends its batches, a `stop` leaves every message that arrived, and every
    -- one that was waiting or collected, counted once, as routed or as dropped, beside those counted
    -- before. Nothing waits any more, and the router does not run.
    pub stop-run_counts :
        (events : List (Event F)) (takes : ℕ → ℕ) (now : ℕ) (s : Routing F)
        → IsReady F md5 s.router
        → s.router.running ≡ true
        → let s' = run F md5 events s in
          let r = stop F md5 takes now s'.batch s'.router in
          (r.stats.messages_routed + r.stats.messages_dropped
            ≡ accounted s + length (arrivals events))
          × (r.async_queue ≡ [])
          × (r.running ≡ false)
    stop-run_counts events takes now s ready on =
        let k = run-Run events s ready in
        let s' = run F md5 events s in
        let (total_lem, emptied, off) =
          stop_drains F md5 takes now s'.batch s'.router k.ready (k.running ∙ on) in
        (omega (arith, total_lem, k.counted), emptied, off)
