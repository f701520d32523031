-- ===== src/Worker/Turns.antt =====
-- When the loop of a worker ends, and what it has done by then (src/worker/worker.py, `run`).
use polypy.Prelude.{
  ℕ, ◌+◌, ◌-◌, ◌≡◌, refl, sym, ◌⊎◌, ◌∙◌, ap, Bool, true, false, Option, none, some, List, [], ◌∷◌,
  length, arith, leb, if◌then◌else◌, if-elim, Bool-cases, inl, inr,
}
use polypy.Prelude.Int.{pos, ◌+ℤ◌, ◌-ℤ◌}
use polypy.SortedDict.{SortedDict}
use polypy.Messages.{Floats, ParsedMessage}
use polypy.Worker.{
  WorkerStats, FloatArithmetic, OrderbookRequest, Worker, heartbeat_interval, stats_interval,
  process_message, update_stats, put_stats,
}
use polypy.Worker.Queries.{handle_orderbook_request}
use polypy.Worker.Loop.{
  Incoming, shutdown, request, message, Turn, Timers, process_message_loop, heartbeat, report,
  send_final_stats, run,
}
use polypy.Worker.Tally.{IsTallied, process_message-IsTallied, messages-process_message}
use polypy.Worker.Replies.{handle_orderbook_request-IsTallied, handle_orderbook_request_answers}

-- the loop meets the event or the sentinel
unfoldable pub ends : {F : Floats} → List (Turn F) → Bool
ends [] = false
ends (t ∷ ts) = if t.event_set then true else elim t.item [
  | none ↦ ends ts
  | some shutdown ↦ true
  | some (request q) ↦ ends ts
  | some (message m) ↦ ends ts
]

-- the messages that come before that
unfoldable pub messages_before : {F : Floats} → List (Turn F) → ℕ
messages_before [] = 0
messages_before (t ∷ ts) = if t.event_set then 0 else elim t.item [
  | none ↦ messages_before ts
  | some shutdown ↦ 0
  | some (request q) ↦ messages_before ts
  | some (message m) ↦ messages_before ts + 1
]

item_cases :
    {F : Floats} (o : Option (Incoming F))
    → (o ≡ none)
      ⊎ (o ≡ some shutdown)
      ⊎ ((q : OrderbookRequest) × (o ≡ some (request q)))
      ⊎ ((m : ParsedMessage F) × (o ≡ some (message m)))
item_cases none = inl refl
item_cases (some shutdown) = inr (inl refl)
item_cases (some (request q)) = inr (inr (inl (q, refl)))
item_cases (some (message m)) = inr (inr (inr (m, refl)))

module _ (S : SortedDict) (F : Floats) (R : FloatArithmetic F) (base capacity : ℕ) where
  -- what holds of a worker when its loop has run, with the number of messages it had before
  pub record HasRun (n : ℕ) (ts : List (Turn F)) (r : Worker S F × Bool) : Type 0 where
    pub ended : r.1 ≡ ends ts
    pub counted : r.0.stats.messages_processed ≡ n + messages_before ts
    pub tallied : IsTallied S F r.0
    pub final : r.1 ≡ true → r.0.stats.orderbook_count ≡ length r.0.store.books

  update_stats-IsTallied :
      (w : Worker S F) → IsTallied S F w → IsTallied S F (update_stats S F base w)
  unfolding update_stats
  update_stats-IsTallied w h = record {
    updates = h.updates;
    snapshots = h.snapshots;
    index = h.index;
  }

  put_stats-IsTallied :
      (w : Worker S F) → IsTallied S F w → IsTallied S F (put_stats S F capacity w)
  unfolding put_stats
  put_stats-IsTallied w h = record { updates = h.updates; snapshots = h.snapshots; index = h.index }

  -- the timers of a turn leave the tally and the count
  timers-IsTallied :
      (now : ℕ) (r : Timers (Worker S F))
      → IsTallied S F r.worker
      → IsTallied S F (report S F R base capacity now (heartbeat S F R base capacity now r)).worker
  unfolding report heartbeat
  timers-IsTallied now r h =
      let r' = heartbeat S F R base capacity now r in
      let h' : IsTallied S F r'.worker =
        if-elim (λ (x : Timers (Worker S F)). IsTallied S F x.worker)
          (leb heartbeat_interval (now - r.last_heartbeat)) (λ _. update_stats-IsTallied r.worker h)
          (λ _. h) in
      if-elim (λ (x : Timers (Worker S F)). IsTallied S F x.worker)
        (leb stats_interval (now - r'.last_stats_report)) (λ _. put_stats-IsTallied r'.worker h')
        (λ _. h')

  messages-timers :
      (now : ℕ) (r : Timers (Worker S F))
      → (report S F R base capacity now
          (heartbeat S F R base capacity now r)).worker.stats.messages_processed
        ≡ r.worker.stats.messages_processed
  unfolding report heartbeat update_stats put_stats
  messages-timers now r = ground arith

  finish :
      (ts : List (Turn F)) (w : Worker S F)
      → ends ts ≡ true
      → messages_before ts ≡ 0
      → IsTallied S F w
      → HasRun w.stats.messages_processed ts (send_final_stats S F R base capacity w, true)
  unfolding send_final_stats update_stats put_stats
  finish ts w e z h = record {
    ended = cc;
    counted = omega (arith, z);
    tallied = put_stats-IsTallied (update_stats S F base w) (update_stats-IsTallied w h);
    final = λ _. refl;
  }

  -- a turn that goes on
  later :
      (t : Turn F) (ts : List (Turn F)) (n d k : ℕ) (x : Worker S F × Bool)
      → ends (t ∷ ts) ≡ ends ts
      → messages_before (t ∷ ts) ≡ messages_before ts + d
      → k ≡ n + d
      → HasRun k ts x
      → HasRun n (t ∷ ts) x
  later t ts n d k x e b c h = record {
    ended = h.ended ∙ sym e;
    counted = omega (arith, h.counted, b, c);
    tallied = h.tallied;
    final = h.final;
  }

  -- The loop of a worker ends exactly at the first turn that finds the event set or the sentinel; it
  -- has then counted each message taken before and none after, kept its tally through queries,
  -- time-outs and reports, and its final statistics tell how many books it has.
  pub run_ends :
      (ts : List (Turn F)) (r : Timers (Worker S F))
      → IsTallied S F r.worker
      → HasRun r.worker.stats.messages_processed ts (run S F R base capacity ts r)
  unfolding run ends messages_before process_message_loop
  run_ends [] r h = record { ended = refl; counted = omega arith; tallied = h; final = λ e. cc }
  run_ends (t ∷ ts) r h =
      let after : Worker S F → Timers (Worker S F) = λ w.
        report S F R base capacity t.now
          (heartbeat S F R base capacity t.now (record r { worker = w })) in
      let timed : Worker S F → Worker S F = λ w. record w {
        stats = record w.stats {
          processing_time_ms = w.stats.processing_time_ms +ℤ (pos t.finish -ℤ pos t.start);
          last_message_ts = t.last;
        };
      } in
      let same = λ (w : Worker S F). messages-timers t.now (record r { worker = w }) in
      let kept = λ (w : Worker S F) (g : IsTallied S F w).
        run_ends ts (after w) (timers-IsTallied t.now (record r { worker = w }) g) in
      elim (Bool-cases t.event_set) [
        | inl e ↦ simp e (finish (t ∷ ts) r.worker (ground (arith, e)) (ground (arith, e)) h)
        | inr e ↦ elim (item_cases t.item) [
          | inl i ↦
              let p : process_message_loop S F R base capacity t r.worker ≡ some r.worker =
                ground (arith, i) in
              simp (e, p)
                (later t ts _ 0 _ _ (ground (arith, e, i)) (ground (arith, e, i))
                  (omega (arith, same r.worker)) (kept r.worker h))
          | inr (inl i) ↦
              let p : process_message_loop S F R base capacity t r.worker ≡ none =
                ground (arith, i) in
              simp (e, p) (finish (t ∷ ts) r.worker (ground (arith, e, i)) (ground (arith, e, i)) h)
          | inr (inr (inl (q, i))) ↦
              let w = handle_orderbook_request S F R capacity q r.worker in
              let (_, st, _, _, _) =
                handle_orderbook_request_answers S F R capacity q r.worker "" in
              let p : process_message_loop S F R base capacity t r.worker ≡ some w =
                ground (arith, i) in
              simp (e, p)
                (later t ts _ 0 _ _ (ground (arith, e, i)) (ground (arith, e, i))
                  (omega (arith, same w, ap (λ (x : WorkerStats). x.messages_processed) st))
                  (kept w (handle_orderbook_request-IsTallied S F R capacity q r.worker h)))
          | inr (inr (inr (m, i))) ↦
              let w = process_message S F t.applied m r.worker in
              let g = process_message-IsTallied S F t.applied m r.worker h in
              let p : process_message_loop S F R base capacity t r.worker ≡ some (timed w) =
                ground (arith, i) in
              simp (e, p)
                (later t ts _ 1 _ _ (ground (arith, e, i)) (ground (arith, e, i))
                  (omega (
                    arith,
                    messages-timers t.now (record r { worker = timed w }),
                    messages-process_message S F t.applied m r.worker,
                  ))
                  (kept (timed w)
                    (record { updates = g.updates; snapshots = g.snapshots; index = g.index })))
        ]
      ]
