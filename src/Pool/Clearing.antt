-- ===== src/Pool/Clearing.antt =====
-- How fast `_subscription_loop` (src/connection/pool.py) clears the queue of pending assets.
use polypy.Prelude.{
  ℕ, ◌+◌, ◌-◌, ◌*◌, ◌≤◌, ◌<◌, String, ◌≡◌, sym, ap, ◌∙◌, Bool, List, [], ◌∷◌, length, length-append,
  min, arith, ltb, if-elim,
}
use polypy.Prelude.Int.{pos}
use polypy.SortedDict.{SortedDict}
use polypy.Registry.Queries.{get_pending_count}
use polypy.Registry.Updates
use polypy.Registry.Outcomes.Batching.{take_pending_batch_splits}
use polypy.Registry.Outcomes.Reassigning.{queue-mark_subscribed}
use polypy.Pool.{ConnectionPool, process_pending}
use polypy.Pool.Subscribing.{open_connection_lem, process_pending_lem}
use polypy.Pool.Upkeep.{Turn, subscription_loop}

module _ (S : SortedDict) where
  pending-process_pending :
      (now : ℕ) (id : String) (p : ConnectionPool S)
      → 50 ≤ get_pending_count S p.registry
      → get_pending_count S (process_pending S now id p).0.registry
        ≤ get_pending_count S p.registry - 400
  unfolding get_pending_count
  pending-process_pending now id p h =
      let (r, batch) = Updates.take_pending_batch S (pos 400) p.registry in
      let (split, len, _) = take_pending_batch_splits S (pos 400) 400 p.registry in
      let len' : length batch ≡ min 400 (length p.registry.pending_queue) = omega (arith, len) in
      let (p', e, opened) =
        open_connection_lem S now id batch (record p { registry = r }) (omega (arith, len')) in
      let left : length batch + length r.pending_queue ≡ length p.registry.pending_queue =
        sym (length-append batch r.pending_queue) ∙ ap (λ (l : List String). length l) split in
      rw (process_pending_lem S now id p p' h len' e, opened.registry)
        (omega (arith, queue-mark_subscribed S now id batch r, left, len'))

  -- what happens while the loop sleeps queues no asset
  abbrev pub Quiet : List (Turn S) → Type 0
  Quiet [] = Unit
  Quiet (t ∷ turns) =
      ((q : ConnectionPool S)
        → get_pending_count S (t.meanwhile q).registry ≤ get_pending_count S q.registry)
      × Quiet turns

  idle-process_pending :
      (now : ℕ) (id : String) (p : ConnectionPool S)
      → get_pending_count S p.registry < 50
      → (process_pending S now id p).0 ≡ p
  unfolding process_pending
  idle-process_pending now id p h = ground (arith, h)

  -- The loop clears the queue: if nothing that happens while it sleeps lengthens the queue, and fewer than
  -- 50 + 400 n assets are pending, then fewer than 50 are after n turns.
  pub subscription_loop_clears :
      (turns : List (Turn S)) (p : ConnectionPool S)
      → Quiet turns
      → get_pending_count S p.registry < 50 + 400 * length turns
      → get_pending_count S (subscription_loop S turns p).0.registry < 50
  unfolding subscription_loop
  subscription_loop_clears [] p quiet h = omega (arith, h)
  subscription_loop_clears (t ∷ turns) p (quiet, later) h =
      let P : ConnectionPool S × Bool → Type 0 = λ x. get_pending_count S x.0.registry < 50 in
      let slept = t.meanwhile p in
      if-elim P (ltb (get_pending_count S p.registry) 50)
        (λ few.
          let few' : get_pending_count S slept.registry < 50 = ground (arith, few, quiet p) in
          if-elim P t.stopped (λ _. few')
            (λ _.
              rw (idle-process_pending t.now t.connection_id slept few')
                (subscription_loop_clears turns slept later (omega (arith, few')))))
        (λ many.
          let many' : 50 ≤ get_pending_count S p.registry = ground (arith, many) in
          subscription_loop_clears turns (process_pending S t.now t.connection_id p).0 later
            (omega (arith, h, pending-process_pending t.now t.connection_id p many')))
