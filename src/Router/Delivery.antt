-- ===== src/Router/Delivery.antt =====
-- What `_route_batch` (src/router.py) delivers, and what it counts.
use polypy.Prelude.{
  ℕ, zero, suc, ◌+◌, ◌≡◌, refl, sym, ap, ◌∙◌, Bool, true, false, Option, some, List, [], ◌∷◌, ◌++◌,
  length, take, drop, map, get_elem?, arith, ltb, if◌then◌else◌, take-append-drop, if-elim,
}
use mathlib.Core.List.{append_assoc, append-nil}
use polypy.Prelude.Kept.{Kept, done, kept, lost}
use polypy.Messages.{Floats}
use polypy.Router.{
  Item, WorkerQueue, RouterStats, worker_queue_size, worker_takes, queue_put, note_put,
  send_messages, send_batches,
}
use polypy.Router.Assignment.{nth, total}

-- everything that was ever put in a queue, in order
abbrev pub history : {A : Type 0} → WorkerQueue A → List A
history q = q.taken ++ q.waiting

history-worker_takes :
    {A : Type 0} (n : ℕ) (q : WorkerQueue A) → history (worker_takes n q) ≡ history q
unfolding worker_takes
history-worker_takes n q =
    append_assoc q.taken (take n q.waiting) (drop n q.waiting)
    ∙ ap (λ l. q.taken ++ l) (take-append-drop n q.waiting)

pub history-queue_put :
    {A : Type 0} (n : ℕ) (x : A) (q : WorkerQueue A)
    → history (queue_put n x q).0 ≡ (if (queue_put n x q).1 then history q ++ x ∷ [] else history q)
unfolding queue_put
history-queue_put {A} n x q =
    if-elim
      (λ (r : WorkerQueue A × Bool). history r.0 ≡ (if r.1 then history q ++ x ∷ [] else history q))
      (ltb (length (drop n q.waiting)) worker_queue_size)
      (λ _.
        sym (append_assoc (q.taken ++ take n q.waiting) (drop n q.waiting) (x ∷ []))
        ∙ ap (λ l. l ++ x ∷ []) (history-worker_takes n q))
      (λ _. history-worker_takes n q)

module _ (F : Floats) where
  abbrev pub Queue : Type 0
  Queue = WorkerQueue (Option (Item F))

  -- what the messages for one worker become: some are kept, and the counters tell how many
  pub record Delivered (ms : List (Item F)) (q : Queue) (st : RouterStats) (q' : Queue)
      (st' : RouterStats) : Type 0 where
    pub sent : List (Item F)
    pub in_order : Kept sent ms
    pub arrived : history q' ≡ history q ++ map some sent
    pub routed : st'.messages_routed ≡ st.messages_routed + length sent
    pub dropped : st'.messages_dropped + length sent ≡ st.messages_dropped + length ms
    pub full :
        st'.queue_full_events + st.messages_dropped ≡ st.queue_full_events + st'.messages_dropped
    pub batches : st'.batches_sent ≡ st.batches_sent

  note_put-Delivered :
      (now : ℕ) (m : Item F) (ms : List (Item F)) (q q1 q2 : Queue) (st st2 : RouterStats)
      (b : Bool)
      → history q1 ≡ (if b then history q ++ some m ∷ [] else history q)
      → Delivered ms q1 (note_put now m.1 b st) q2 st2
      → Delivered (m ∷ ms) q st q2 st2
  unfolding note_put
  note_put-Delivered now m ms q q1 q2 st st2 true e d = record {
    sent = m ∷ d.sent;
    in_order = kept m d.in_order;
    arrived =
        d.arrived
        ∙ ap (λ l. l ++ map some d.sent) e
        ∙ append_assoc (history q) (some m ∷ []) (map some d.sent);
    routed = omega (arith, d.routed);
    dropped = omega (arith, d.dropped);
    full = omega (arith, d.full);
    batches = d.batches;
  }
  note_put-Delivered now m ms q q1 q2 st st2 false e d = record {
    sent = d.sent;
    in_order = lost m d.in_order;
    arrived = d.arrived ∙ ap (λ l. l ++ map some d.sent) e;
    routed = d.routed;
    dropped = omega (arith, d.dropped);
    full = omega (arith, d.full);
    batches = d.batches;
  }

  send_messages-Delivered :
      (takes : ℕ → ℕ) (now : ℕ) (ms : List (Item F)) (q : Queue) (st : RouterStats) (i : ℕ)
      → Delivered ms q st
          (send_messages F takes now ms q st i).0
          (send_messages F takes now ms q st i).1
  unfolding send_messages
  send_messages-Delivered takes now [] q st i = record {
    sent = [];
    in_order = done;
    arrived = sym (append-nil (history q));
    routed = omega arith;
    dropped = omega arith;
    full = omega arith;
    batches = refl;
  }
  send_messages-Delivered takes now (m ∷ ms) q st i =
      let (q1, b) = queue_put (takes i) (some m) q in
      note_put-Delivered now m ms q q1 _ st _ b (history-queue_put (takes i) (some m) q)
        (send_messages-Delivered takes now ms q1 (note_put now m.1 b st) (i + 1))

  -- the counters after all workers, whose queues are there
  pub record Counted (bs : List (List (Item F))) (st st' : RouterStats) : Type 0 where
    pub conserved :
        st'.messages_routed + st'.messages_dropped
        ≡ st.messages_routed + st.messages_dropped + total bs
    pub full :
        st'.queue_full_events + st.messages_dropped ≡ st.queue_full_events + st'.messages_dropped
    pub batches : st'.batches_sent ≡ st.batches_sent

  pub send_batches-Counted :
      (takes : ℕ → ℕ) (now : ℕ) (bs : List (List (Item F))) (qs : List Queue) (st : RouterStats)
      (i : ℕ)
      → length bs ≡ length qs
      → Counted bs st (send_batches F takes now bs qs st i).1
  unfolding send_batches
  send_batches-Counted takes now [] qs st i e = record {
    conserved = omega arith;
    full = omega arith;
    batches = refl;
  }
  send_batches-Counted takes now (b ∷ bs) [] st i e = absurd (omega arith)
  send_batches-Counted takes now (b ∷ bs) (q ∷ qs) st i e =
      let d = send_messages-Delivered takes now b q st i in
      let (q', st', i') = send_messages F takes now b q st i in
      let c = send_batches-Counted takes now bs qs st' i' (omega arith) in
      record {
        conserved = omega (arith, c.conserved, d.routed, d.dropped);
        full = omega (arith, c.full, d.full);
        batches = c.batches ∙ d.batches;
      }

  -- one queue after all workers
  pub send_batches_at :
      (takes : ℕ → ℕ) (now : ℕ) (bs : List (List (Item F))) (qs : List Queue) (st : RouterStats)
      (i w : ℕ) (q : Queue)
      → length bs ≡ length qs
      → get_elem? qs w ≡ some q
      → (q' : Queue) × (sent : List (Item F)) × (get_elem? (send_batches F takes now bs qs st i).0 w
          ≡ some q')
        × Kept sent (nth bs w)
        × (history q' ≡ history q ++ map some sent)
  unfolding send_batches
  send_batches_at takes now [] [] st i w q e at = cc
  send_batches_at takes now [] (r ∷ qs) st i w q e at = absurd (omega arith)
  send_batches_at takes now (b ∷ bs) [] st i w q e at = absurd (omega arith)
  send_batches_at takes now (b ∷ bs) (r ∷ qs) st i zero q e at =
      let d = send_messages-Delivered takes now b r st i in
      let same : r ≡ q = ground arith in
      (
        _,
        d.sent,
        refl,
        d.in_order,
        d.arrived ∙ ap (λ (x : Queue). history x ++ map some d.sent) same,
      )
  send_batches_at takes now (b ∷ bs) (r ∷ qs) st i (suc w) q e at =
      let (q', st', i') = send_messages F takes now b r st i in
      send_batches_at takes now bs qs st' i' w q (omega arith) at
