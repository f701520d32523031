-- ===== src/Exercises/Router/Assigning.antt =====
-- What the assignment of a new identifier to a process leaves (src/exercises/message_router.py).
use polypy.Prelude.{
  ℕ, ◌+◌, ◌≤◌, ◌<◌, String, ◌≡◌, refl, true, false, none, some, [], length, eqb, ◌==◌, ◌⊎◌, eq_iff,
  arith, Option-cases, Bool-cases, inl, inr,
}
use polypy.Prelude.Dict.{Dict, get, has, get-put}
use polypy.Prelude.Table.{find, find-store}
use polypy.Exercises.Router.{
  WorkerQueue, MessageRouter, count_of, first_with_capacity, create_worker_resources, register,
  register_worker_with_process, distribute_id_to_process,
}
use polypy.Exercises.Router.Balance.{
  AreNames, IsBalanced, first_with_capacity-some, first_with_capacity-none, length-put_new,
  nothing_there, register-IsBalanced, next-fresh, create-IsBalanced,
}

-- what is in a queue, nothing for a process that is not started
abbrev pub content : Dict WorkerQueue → String → WorkerQueue
content d name = elim (get d name) [ none ↦ [] | some q ↦ q ]

-- `name` is the process of `id` in the router that an assignment leaves
pub record Assigned (names : ℕ → String) (r : MessageRouter) (id : ℕ) (r' : MessageRouter)
    (name : String) : Type 0 where
  pub balanced : IsBalanced names r'
  pub threshold : r'.max_sm_threshold ≡ r.max_sm_threshold
  pub assigned : find r'.sm_process_map id ≡ some name
  -- an identifier that has a process keeps it
  pub kept :
      (j : ℕ) (n : String) → find r.sm_process_map j ≡ some n → find r'.sm_process_map j ≡ some n
  pub others : (j : ℕ) → eqb id j ≡ false → find r'.sm_process_map j ≡ find r.sm_process_map j
  pub queues : (n : String) → content r'.process_queue_map n ≡ content r.process_queue_map n
  -- a process is started only if every other has as many identifiers as it may
  pub thrifty :
      (length r'.process_queue_map ≡ length r.process_queue_map)
      ⊎ ((length r'.process_queue_map ≡ length r.process_queue_map + 1)
          × ((n : String)
              → has r.process_queue_map n ≡ true
              → r.max_sm_threshold ≡ count_of r.process_sm_counter n))

module _ (names : ℕ → String) (distinct : AreNames names) (id : ℕ) (r : MessageRouter)
    (b : IsBalanced names r) (new : find r.sm_process_map id ≡ none) where
  register-Assigned :
      (name : String)
      → has r.process_queue_map name ≡ true
      → count_of r.process_sm_counter name < r.max_sm_threshold
      → Assigned names r id (register id name r) name
  unfolding register
  register-Assigned name here room = record {
    balanced = register-IsBalanced names distinct id name r b new here room;
    threshold = refl;
    assigned = ground (arith, find-store r.sm_process_map id id name);
    kept = λ j n h. ground (arith, find-store r.sm_process_map id j name);
    others = λ j h. ground (arith, find-store r.sm_process_map id j name);
    queues = λ n. refl;
    thrifty = inl refl;
  }

  start-Assigned :
      ((n : String)
        → has r.process_queue_map n ≡ true
        → r.max_sm_threshold ≤ count_of r.process_sm_counter n)
      → let (created, fresh) = create_worker_resources names r in
        Assigned names r id (register id fresh created) fresh
  unfolding register create_worker_resources
  start-Assigned full =
      let n = length r.process_queue_map in
      let absent = next-fresh names distinct r b in
      let q = get-put r.process_queue_map (names n) in
      record {
        balanced =
            register-IsBalanced names distinct id (names n) (create_worker_resources names r).0
              (create-IsBalanced names distinct r b) new
              (ground (arith, q (names n) [], eq_iff (names n) (names n)))
              (ground (arith, b.positive, b.idle (names n) absent));
        threshold = refl;
        assigned = ground (arith, find-store r.sm_process_map id id (names n));
        kept = λ j m h. ground (arith, find-store r.sm_process_map id j (names n));
        others = λ j h. ground (arith, find-store r.sm_process_map id j (names n));
        queues = λ m. ground (arith, q m [], absent, eq_iff (names n) m);
        thrifty = inr (
          length-put_new r.process_queue_map (names n) [] absent,
          λ m h. omega (arith, full m h, b.bounded m),
        );
      }

  pub distribute-Assigned :
      (name : String) × Assigned names r id (distribute_id_to_process names id r) name
  unfolding distribute_id_to_process register_worker_with_process
  distribute-Assigned = elim (Bool-cases (eqb (length r.process_queue_map) 0)) [
    | inl no_process ↦ rw no_process (
      names (length r.process_queue_map),
      start-Assigned (λ n h. absurd (nothing_there r.process_queue_map n no_process h)),
    )
    | inr processes ↦
        elim (Option-cases
          (first_with_capacity r.max_sm_threshold r.process_sm_counter r.process_queue_map)) [
            | inl full ↦
                rw (processes, full)
                  (
                    names (length r.process_queue_map),
                    start-Assigned (λ n h.
                        first_with_capacity-none r.max_sm_threshold r.process_sm_counter
                          r.process_queue_map n full h),
                  )
            | inr (name, e) ↦
                let (here, room) =
                  first_with_capacity-some r.max_sm_threshold r.process_sm_counter
                    r.process_queue_map name e in
                let (i, lt, same) = b.started name here in
                rw (processes, e, given name i same) (name, register-Assigned name here room)
          ]
  ]
    where
      given : (name : String) (i : ℕ) → names i ≡ name → (name == "") ≡ false
      given name i same = rw same at (distinct.given i)
