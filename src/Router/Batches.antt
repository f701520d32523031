-- ===== src/Router/Batches.antt =====
-- The whole of `_route_batch` and of `stop` (src/router.py): who gets what, and that no message
-- goes uncounted.
use polypy.Prelude.{
  ℕ, ◌+◌, ◌<◌, ◌≤◌, ◌↔◌, String, ◌≡◌, refl, sym, ap, ◌∙◌, true, false, some, List, [], ◌∷◌, ◌++◌,
  length, length-append, map, get_elem?, arith, eqb, if-elim,
}
use polypy.Prelude.Kept.{Kept}
use polypy.Messages.{Floats, ParsedMessage}
use polypy.Router.{
  Item, MessageRouter, async_queue_size, route_message, group, route_batch, drain, stop, replicate,
}
use polypy.Router.Assignment.{
  nth, nth-replicate, total-replicate, IsRightCache, assigned, group_empty,
}
use polypy.Router.Delivery.{history, Queue, send_batches-Counted, send_batches_at}

module _ (F : Floats) (md5 : String → List ℕ) where
  -- what every router keeps: workers, one queue each, and a cache that agrees with the hash
  pub record IsReady (r : MessageRouter F) : Type 0 where
    pub workers : 0 < r.num_workers
    pub queues : length r.worker_queues ≡ r.num_workers
    pub cache : IsRightCache md5 r.num_workers r.asset_worker_cache

  -- A batch reaches the workers by hash: what arrives at worker `w` after what its queue already
  -- got is a part, in order, of the batch's messages whose asset hashes to `w`, whatever the
  -- cache holds and the workers take meanwhile.
  pub route_batch_delivers :
      (takes : ℕ → ℕ) (now : ℕ) (batch : List (String × ParsedMessage F × ℕ)) (r : MessageRouter F)
      (w : ℕ) (q : Queue F)
      → IsReady r
      → get_elem? r.worker_queues w ≡ some q
      → (q' : Queue F) × (sent : List (Item F)) × (get_elem?
            (route_batch F md5 takes now batch r).worker_queues
            w
          ≡ some q')
        × Kept sent (assigned F md5 r.num_workers w batch)
        × (history q' ≡ history q ++ map some sent)
  unfolding route_batch
  route_batch_delivers takes now batch r w q ready at =
      let g =
        group_empty F md5 r.num_workers batch r.asset_worker_cache ready.workers ready.cache in
      let (cache, bs) =
        group F md5 r.num_workers batch r.asset_worker_cache (replicate r.num_workers []) in
      let (q', sent, there, in_order, arrived) =
        send_batches_at F takes now bs r.worker_queues r.stats 0 w q (g.size ∙ sym ready.queues)
          at in
      let mine : nth bs w ≡ assigned F md5 r.num_workers w batch =
        g.groups w
        ∙ ap (λ l. l ++ assigned F md5 r.num_workers w batch)
            (nth-replicate (Item F) r.num_workers w) in
      (q', sent, there, rw (sym mine) in_order, arrived)

  -- A batch of any length adds exactly its length to the messages routed and dropped, a message is
  -- dropped only in a full-queue event, and the batch is counted once.
  pub route_batch_counts :
      (takes : ℕ → ℕ) (now : ℕ) (batch : List (String × ParsedMessage F × ℕ)) (r : MessageRouter F)
      → IsReady r
      → let st' = (route_batch F md5 takes now batch r).stats in
        (st'.messages_routed + st'.messages_dropped
          ≡ r.stats.messages_routed + r.stats.messages_dropped + length batch)
        × (st'.queue_full_events + r.stats.messages_dropped
            ≡ r.stats.queue_full_events + st'.messages_dropped)
        × (st'.batches_sent ≡ r.stats.batches_sent + 1)
  unfolding route_batch
  route_batch_counts takes now batch r ready =
      let g =
        group_empty F md5 r.num_workers batch r.asset_worker_cache ready.workers ready.cache in
      let (cache, bs) =
        group F md5 r.num_workers batch r.asset_worker_cache (replicate r.num_workers []) in
      let c =
        send_batches-Counted F takes now bs r.worker_queues r.stats 0 (g.size ∙ sym ready.queues) in
      (
        omega (arith, c.conserved, g.count, total-replicate (Item F) r.num_workers),
        c.full,
        ap (λ k. k + 1) c.batches,
      )

  drain_counts :
      (takes : ℕ → ℕ) (now : ℕ) (batch : List (String × ParsedMessage F × ℕ)) (r : MessageRouter F)
      → IsReady r
      → let r' = drain F md5 takes now batch r in
        (r'.stats.messages_routed + r'.stats.messages_dropped
          ≡ r.stats.messages_routed
            + r.stats.messages_dropped
            + length batch
            + length r.async_queue)
        × (r'.async_queue ≡ [])
        × (r'.running ≡ r.running)
  unfolding drain
  drain_counts takes now batch r ready =
      let left = batch ++ r.async_queue in
      let emptied : MessageRouter F = record r { async_queue = [] } in
      if-elim
        (λ (r' : MessageRouter F).
          (r'.stats.messages_routed + r'.stats.messages_dropped
            ≡ r.stats.messages_routed
              + r.stats.messages_dropped
              + length batch
              + length r.async_queue)
          × (r'.async_queue ≡ [])
          × (r'.running ≡ r.running))
        (eqb (length left) 0)
        (λ e. (ground (arith, e, length-append batch r.async_queue), refl, refl))
        (λ _.
          let (total_lem, _, _) =
            route_batch_counts takes now left emptied
              (record { workers = ready.workers; queues = ready.queues; cache = ready.cache }) in
          (
            omega (arith, total_lem, length-append batch r.async_queue),
            unfold route_batch in refl,
            unfold route_batch in refl,
          ))

  -- Stopping a running router loses nothing: the messages that the loop had collected and those
  -- still in its queue are all counted as routed or as dropped, and its queue is left empty.
  pub stop_drains :
      (takes : ℕ → ℕ) (now : ℕ) (batch : List (String × ParsedMessage F × ℕ)) (r : MessageRouter F)
      → IsReady r
      → r.running ≡ true
      → let r' = stop F md5 takes now batch r in
        (r'.stats.messages_routed + r'.stats.messages_dropped
          ≡ r.stats.messages_routed
            + r.stats.messages_dropped
            + length batch
            + length r.async_queue)
        × (r'.async_queue ≡ [])
        × (r'.running ≡ false)
  unfolding stop
  stop_drains takes now batch r ready on =
      if-elim
        (λ (r' : MessageRouter F).
          (r'.stats.messages_routed + r'.stats.messages_dropped
            ≡ r.stats.messages_routed
              + r.stats.messages_dropped
              + length batch
              + length r.async_queue)
          × (r'.async_queue ≡ [])
          × (r'.running ≡ false))
        r.running
        (λ _.
          drain_counts takes now batch (record r { running = false })
            (record { workers = ready.workers; queues = ready.queues; cache = ready.cache }))
        (λ off. cc)

  -- `route_message` never lets the queue outgrow its limit, and it answers False exactly when
  -- the message was dropped and counted.
  pub route_message_bounds :
      (connection_id : String) (now : ℕ) (message : ParsedMessage F) (r : MessageRouter F)
      → length r.async_queue ≤ async_queue_size
      → let r' = route_message F md5 connection_id now message r in
        (length r'.0.async_queue ≤ async_queue_size)
        × (length r'.0.async_queue + r'.0.stats.messages_dropped
            ≡ length r.async_queue + r.stats.messages_dropped + 1)
        × ((r'.1 ≡ false) ↔ (r'.0.stats.messages_dropped ≡ r.stats.messages_dropped + 1))
  unfolding route_message
  route_message_bounds c now m r h = ground (arith, length-append r.async_queue ((c, m, now) ∷ []))
