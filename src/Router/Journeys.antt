-- ===== src/Router/Journeys.antt =====
-- What a whole run of the router delivers (src/router.py): from the arrival of a message to the queue of
-- its worker.
use polypy.Prelude.{
  ℕ, ◌≡◌, refl, sym, ap, ◌∙◌, String, Bool, Option, some, List, [], ◌∷◌, ◌++◌, length, map,
  get_elem?, arith, ltb, eqb, if-elim,
}
use mathlib.Core.List.{append_assoc, append-nil}
use polypy.Prelude.Kept.{Kept, Kept-refl, Kept-nil, Kept-append, Kept-trans}
use polypy.Messages.{Floats, ParsedMessage}
use polypy.Router.{Item, MessageRouter, route_message, route_batch}
use polypy.Router.Assignment.{assigned}
use polypy.Router.Delivery.{history, Queue}
use polypy.Router.Batches.{IsReady, route_batch_delivers}
use polypy.Router.Loop.{Event, arrives, gets, ends, Routing, take_item, step, run}
use polypy.Router.Counts.{arrivals, arrivals_split, step-IsReady, route_batch_keeps}

map-append :
    {A : Type 0} (xs ys : List A) → map {B = Option A} some (xs ++ ys) ≡ map some xs ++ map some ys
map-append [] ys = refl
map-append (x ∷ xs) ys = ap (λ l. some x ∷ l) (map-append xs ys)

module _ (F : Floats) (md5 : String → List ℕ) (n w : ℕ) where
  assigned-append :
      (xs ys : List (String × ParsedMessage F × ℕ))
      → assigned F md5 n w (xs ++ ys) ≡ assigned F md5 n w xs ++ assigned F md5 n w ys
  unfolding assigned
  assigned-append [] ys = refl
  assigned-append ((c, m, ts) ∷ xs) ys = ground (arith, assigned-append xs ys)

  -- what has become of what arrived, for one worker: some of it was put in the worker's queue, some is
  -- still in the batch or in the router's queue, in order
  pub record Journey (q : Queue F) (arrived : List (String × ParsedMessage F × ℕ)) (s : Routing F)
      : Type 0 where
    pub workers : s.router.num_workers ≡ n
    pub now_queue : Queue F
    pub at : get_elem? s.router.worker_queues w ≡ some now_queue
    pub sent : List (Item F)
    pub put : history now_queue ≡ history q ++ map some sent
    pub in_order :
        Kept
          (sent ++ assigned F md5 n w (s.batch ++ s.router.async_queue))
          (assigned F md5 n w arrived)

  arrive-Journey :
      (c : String) (now : ℕ) (m : ParsedMessage F) (q : Queue F)
      (arrived : List (String × ParsedMessage F × ℕ)) (s : Routing F)
      → Journey q arrived s
      → Journey q (arrived ++ (c, m, now) ∷ []) (step F md5 (arrives c now m) s)
  unfolding step route_message
  arrive-Journey c now m q arrived s j =
      let mine = assigned F md5 n w in
      let next = (c, m, now) ∷ [] in
      let waiting = s.batch ++ s.router.async_queue in
      if-elim
        (λ (x : MessageRouter F × Bool). Journey q (arrived ++ next) (record s { router = x.0 }))
        (ltb (length s.router.async_queue) 20000)
        (λ _. record {
          workers = j.workers;
          now_queue = j.now_queue;
          at = j.at;
          sent = j.sent;
          put = j.put;
          in_order =
              rw
                (
                  assigned-append arrived next,
                  sym (append_assoc s.batch s.router.async_queue next),
                  assigned-append waiting next,
                  sym (append_assoc j.sent (mine waiting) (mine next)),
                )
                (Kept-append j.in_order (Kept-refl (mine next)));
        })
        (λ _. record {
          workers = j.workers;
          now_queue = j.now_queue;
          at = j.at;
          sent = j.sent;
          put = j.put;
          in_order =
              rw (assigned-append arrived next, sym (append-nil (j.sent ++ mine waiting)))
                (Kept-append j.in_order (Kept-nil (mine next)));
        })

  take-Journey :
      (items : List (String × ParsedMessage F × ℕ)) (q : Queue F)
      (arrived : List (String × ParsedMessage F × ℕ)) (s : Routing F)
      → s.router.async_queue ≡ items
      → Journey q arrived s
      → Journey q arrived (take_item F items s)
  unfolding take_item
  take-Journey [] q arrived s e j = j
  take-Journey (item ∷ items) q arrived s e j = record {
    workers = j.workers;
    now_queue = j.now_queue;
    at = j.at;
    sent = j.sent;
    put = j.put;
    in_order = rw (append_assoc s.batch (item ∷ []) items, sym e) j.in_order;
  }

  pub send-Journey :
      (takes : ℕ → ℕ) (now : ℕ) (q : Queue F) (arrived : List (String × ParsedMessage F × ℕ))
      (s : Routing F)
      → IsReady F md5 s.router
      → Journey q arrived s
      → Journey q arrived
          (record { router = route_batch F md5 takes now s.batch s.router; batch = [] })
  send-Journey takes now q arrived s ready j =
      let mine = assigned F md5 n w in
      let waiting = s.router.async_queue in
      let (queue, _, workers) = route_batch_keeps F md5 takes now s.batch s.router in
      let (q', sent, at, in_order, arrives_there) =
        route_batch_delivers F md5 takes now s.batch s.router w j.now_queue ready j.at in
      let sent_mine : Kept sent (mine s.batch) = rw (sym j.workers) in_order in
      record {
        workers = workers ∙ j.workers;
        now_queue = q';
        at = at;
        sent = j.sent ++ sent;
        put =
            arrives_there
            ∙ ap (λ l. l ++ map some sent) j.put
            ∙ append_assoc (history q) (map some j.sent) (map some sent)
            ∙ ap (λ l. history q ++ l) (sym (map-append j.sent sent));
        in_order = Kept-trans j.in_order (
            rw (queue, append_assoc j.sent sent (mine waiting), assigned-append s.batch waiting)
              (Kept-append (Kept-refl j.sent) (Kept-append sent_mine (Kept-refl (mine waiting)))));
      }

  step-Journey :
      (e : Event F) (q : Queue F) (arrived : List (String × ParsedMessage F × ℕ)) (s : Routing F)
      → IsReady F md5 s.router
      → Journey q arrived s
      → Journey q (arrived ++ arrivals F (e ∷ [])) (step F md5 e s)
  unfolding step
  step-Journey (arrives c now m) q arrived s ready j = arrive-Journey c now m q arrived s j
  step-Journey gets q arrived s ready j = rw (append-nil arrived) (
      if-elim (Journey q arrived) (ltb (length s.batch) 100)
        (λ _. take-Journey s.router.async_queue q arrived s refl j) (λ _. j))
  step-Journey (ends takes now) q arrived s ready j = rw (append-nil arrived) (
      if-elim (Journey q arrived) (eqb (length s.batch) 0) (λ _. j)
        (λ _. send-Journey takes now q arrived s ready j))

  pub run-Journey :
      (events : List (Event F)) (q : Queue F) (arrived : List (String × ParsedMessage F × ℕ))
      (s : Routing F)
      → IsReady F md5 s.router
      → Journey q arrived s
      → Journey q (arrived ++ arrivals F events) (run F md5 events s)
  unfolding run
  run-Journey [] q arrived s ready j = rw (append-nil arrived) j
  run-Journey (e ∷ events) q arrived s ready j =
      rw
        (
          arrivals_split F md5 e events,
          sym (append_assoc arrived (arrivals F (e ∷ [])) (arrivals F events)),
        )
        (run-Journey events q (arrived ++ arrivals F (e ∷ [])) (step F md5 e s)
          (step-IsReady F md5 e s ready) (step-Journey e q arrived s ready j))

  pub begin-Journey :
      (r : MessageRouter F) (q : Queue F)
      → r.num_workers ≡ n
      → get_elem? r.worker_queues w ≡ some q
      → Journey q r.async_queue (record { router = r; batch = [] })
  begin-Journey r q workers at = record {
    workers = workers;
    now_queue = q;
    at = at;
    sent = [];
    put = sym (append-nil (history q));
    in_order = Kept-refl (assigned F md5 n w r.async_queue);
  }
