-- ===== src/Exercises/Router/Routing.antt =====
-- What the loop of src/exercises/message_router.py delivers: the messages of an identifier, in order, to
-- one process.
use polypy.Prelude.{
  ℕ, String, ◌≡◌, refl, ◌∙◌, true, none, some, List, [], ◌∷◌, ◌++◌, length, eqb, eqb_iff, ◌==◌,
  eq_iff, arith, if◌then◌else◌, Option-cases, Bool-cases, inl, inr,
}
use mathlib.Core.List.{append-nil}
use polypy.Prelude.Int.{ℤ}
use polypy.Prelude.Dict.{Dict, get, put, has, get-put}
use polypy.Prelude.Table.{find}
use polypy.Exercises.StateMachine.{Message}
use polypy.Exercises.Router.{
  WorkerQueue, MessageRouter, get_state_machine_process_queue, distribute_id_to_process,
}
use polypy.Exercises.Router.Balance.{AreNames, IsBalanced}
use polypy.Exercises.Router.Assigning.{Assigned, content, distribute-Assigned}

-- the messages of an identifier, in a queue and in a list
unfoldable pub in_queue : ℕ → WorkerQueue → List Message
in_queue id [] = []
in_queue id (none ∷ q) = in_queue id q
in_queue id (some m ∷ q) = if eqb m.worker_id id then m ∷ in_queue id q else in_queue id q

unfoldable pub of_id : ℕ → List Message → List Message
of_id id [] = []
of_id id (m ∷ ms) = if eqb m.worker_id id then m ∷ of_id id ms else of_id id ms

pub in_queue-append :
    (id : ℕ) (q q' : WorkerQueue) → in_queue id (q ++ q') ≡ in_queue id q ++ in_queue id q'
unfolding in_queue
in_queue-append id [] q' = refl
in_queue-append id (none ∷ q) q' = in_queue-append id q q'
in_queue-append id (some m ∷ q) q' = ground (arith, in_queue-append id q q')

of_id-append : (id : ℕ) (ms ms' : List Message) → of_id id (ms ++ ms') ≡ of_id id ms ++ of_id id ms'
unfolding of_id
of_id-append id [] ms' = refl
of_id-append id (m ∷ ms) ms' = ground (arith, of_id-append id ms ms')

-- what a process should hold of an identifier, after the messages `ms`
abbrev pub due : MessageRouter → List Message → ℕ → String → List Message
due r ms id name = elim (find r.sm_process_map id) [
  | none ↦ []
  | some p ↦ if p == name then of_id id ms else []
]

-- Every message is at the process of its identifier, with the others of that identifier, in order.
pub record IsFaithful (r : MessageRouter) (ms : List Message) : Type 0 where
  pub unseen : (id : ℕ) → find r.sm_process_map id ≡ none → of_id id ms ≡ []
  pub held :
      (id : ℕ) (name : String) → in_queue id (content r.process_queue_map name) ≡ due r ms id name

length-put_old :
    (d : Dict WorkerQueue) (name : String) (q : WorkerQueue)
    → has d name ≡ true
    → length (put d name q) ≡ length d
unfolding put get
length-put_old [] name q h = ground arith
length-put_old ((n, q') ∷ d) name q h = ground (arith, length-put_old d name q)

module _ (names : ℕ → String) (distinct : AreNames names) where
  -- the assignment of any identifier, old or new
  pub get_state_machine_process_queue-Assigned :
      (id : ℕ) (r : MessageRouter)
      → IsBalanced names r
      → (r' : MessageRouter) × (name : String) × (get_state_machine_process_queue names id r
          ≡ some (r', name, content r'.process_queue_map name))
        × Assigned names r id r' name
  unfolding get_state_machine_process_queue
  get_state_machine_process_queue-Assigned id r b = elim (Option-cases (find r.sm_process_map id)) [
    | inl new ↦
        let (name, a) = distribute-Assigned names distinct id r b new in
        (
          distribute_id_to_process names id r,
          name,
          ground (arith, new, a.assigned, a.balanced.known id name a.assigned),
          a,
        )
    | inr (name, old) ↦ (
      r,
      name,
      ground (arith, old, b.known id name old),
      record {
        balanced = b;
        threshold = refl;
        assigned = old;
        kept = λ j n h. h;
        others = λ j h. refl;
        queues = λ n. refl;
        thrifty = inl refl;
      },
    )
  ]

  -- the router with a message put in the queue of a process
  unfoldable pub queued : ℤ → Message → String → MessageRouter → MessageRouter
  queued waited m name r = record r {
    process_queue_map =
        put r.process_queue_map name (content r.process_queue_map name ++ some m ∷ []);
    queue_waittime = r.queue_waittime ++ waited ∷ [];
  }

  module _ (r r' : MessageRouter) (name : String) (waited : ℤ) (m : Message)
      (a : Assigned names r m.worker_id r' name) where
    content-queued :
        (n : String)
        → content (queued waited m name r').process_queue_map n ≡ (
            if name == n
            then content r'.process_queue_map name ++ some m ∷ []
            else content r'.process_queue_map n)
    unfolding queued
    content-queued n = ground (
      arith,
      get-put r'.process_queue_map name n (content r'.process_queue_map name ++ some m ∷ []),
    )

    pub queued-IsBalanced : IsBalanced names (queued waited m name r')
    unfolding queued
    queued-IsBalanced =
        let d = r'.process_queue_map in
        let q = content d name ++ some m ∷ [] in
        let here = a.balanced.known m.worker_id name a.assigned in
        record {
          positive = a.balanced.positive;
          known = λ j n h. ground (arith, get-put d name n q, a.balanced.known j n h);
          counted = a.balanced.counted;
          bounded = a.balanced.bounded;
          started = λ n h.
              rw (length-put_old d name q here)
                (a.balanced.started n (ground (arith, h, here, get-put d name n q, eq_iff name n)));
          idle = λ n h. ground (arith, h, get-put d name n q, a.balanced.idle n);
        }

    in_queue-queued :
        (id : ℕ) (n : String)
        → in_queue id (content (queued waited m name r').process_queue_map n) ≡ (
            if name == n
            then in_queue id (content r.process_queue_map name)
              ++ (if eqb m.worker_id id then m ∷ [] else [])
            else in_queue id (content r.process_queue_map n))
    unfolding in_queue
    in_queue-queued id n = ground (
      arith,
      content-queued n,
      a.queues name,
      a.queues n,
      in_queue-append id (content r.process_queue_map name) (some m ∷ []),
    )

    due_same :
        (ms : List Message) (f : IsFaithful r ms) (id : ℕ) (n : String)
        → eqb m.worker_id id ≡ true
        → (if name == n
            then in_queue id (content r.process_queue_map name)
              ++ (if eqb m.worker_id id then m ∷ [] else [])
            else in_queue id (content r.process_queue_map n))
          ≡ due r' (ms ++ m ∷ []) id n
    unfolding of_id
    due_same ms f id n same =
        let e = (eqb_iff m.worker_id id).0 same in
        let here : find r'.sm_process_map id ≡ some name = rw (← e) a.assigned in
        elim (Option-cases (find r.sm_process_map id)) [
          | inl new ↦ ground (
            arith,
            same,
            here,
            new,
            f.held id n,
            f.held id name,
            f.unseen id new,
            of_id-append id ms (m ∷ []),
          )
          | inr (p, old) ↦ ground (
            arith,
            same,
            here,
            old,
            a.kept id p old,
            f.held id n,
            f.held id name,
            of_id-append id ms (m ∷ []),
            eq_iff name name,
          )
        ]

    pub queued-IsFaithful :
        (ms : List Message) → IsFaithful r ms → IsFaithful (queued waited m name r') (ms ++ m ∷ [])
    unfolding queued of_id
    queued-IsFaithful ms f = record {
      unseen = λ id h. ground (
        arith,
        h,
        a.assigned,
        a.others id,
        f.unseen id,
        of_id-append id ms (m ∷ []),
        eqb_iff m.worker_id id,
      );
      held = λ id n. in_queue-queued id n ∙ elim (Bool-cases (eqb m.worker_id id)) [
        | inl same ↦ due_same ms f id n same
        | inr other ↦ ground (
          arith,
          other,
          f.held id n,
          f.held id name,
          of_id-append id ms (m ∷ []),
          append-nil (of_id id ms),
          append-nil (in_queue id (content r.process_queue_map name)),
          a.others id,
          eq_iff name n,
        )
      ];
    }
