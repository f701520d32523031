-- ===== src/Exercises/Router/Balance.antt =====
-- How identifiers are spread over processes: no process has more than the threshold, and a process is
-- started only if every other is full.
use polypy.Prelude.{
  ℕ, ◌+◌, ◌≤◌, ◌<◌, String, ◌≡◌, true, false, none, some, [], ◌∷◌, length, eqb, ◌==◌, eq_iff, arith,
  if◌then◌else◌, Bool-cases, inl, inr,
}
use polypy.Prelude.Dict.{Dict, get, put, has, get-put}
use polypy.Prelude.Table.{Table, find, store, find-store}
use polypy.Exercises.Router.{
  WorkerQueue, MessageRouter, count_of, first_with_capacity, create_worker_resources, register,
}

-- how many identifiers a process has
unfoldable pub tally : String → Table String → ℕ
tally name [] = 0
tally name ((id, n) ∷ d) = if n == name then 1 + tally name d else tally name d

pub tally-store :
    (name n : String) (d : Table String) (id : ℕ)
    → find d id ≡ none
    → tally name (store d id n) ≡ tally name d + (if n == name then 1 else 0)
unfolding tally find store
tally-store name n [] id h = ground arith
tally-store name n ((j, m) ∷ d) id h = ground (arith, tally-store name n d id)

-- The system gives every process a name of its own, and none an empty one.
pub record AreNames (names : ℕ → String) : Type 0 where
  pub distinct : (i j : ℕ) → names i ≡ names j → i ≡ j
  pub given : (i : ℕ) → (names i == "") ≡ false

pub record IsBalanced (names : ℕ → String) (r : MessageRouter) : Type 0 where
  pub positive : 0 < r.max_sm_threshold
  pub known :
      (id : ℕ) (name : String)
      → find r.sm_process_map id ≡ some name
      → has r.process_queue_map name ≡ true
  pub counted : (name : String) → count_of r.process_sm_counter name ≡ tally name r.sm_process_map
  pub bounded : (name : String) → count_of r.process_sm_counter name ≤ r.max_sm_threshold
  pub started :
      (name : String)
      → has r.process_queue_map name ≡ true
      → (i : ℕ) × (i < length r.process_queue_map) × (names i ≡ name)
  pub idle :
      (name : String)
      → has r.process_queue_map name ≡ false
      → count_of r.process_sm_counter name ≡ 0

pub first_with_capacity-some :
    (threshold : ℕ) (counter : Dict ℕ) (d : Dict WorkerQueue) (name : String)
    → first_with_capacity threshold counter d ≡ some name
    → (has d name ≡ true) × (count_of counter name < threshold)
unfolding first_with_capacity get
first_with_capacity-some threshold counter [] name h = ground arith
first_with_capacity-some threshold counter ((n, q) ∷ d) name h =
    ground (arith, first_with_capacity-some threshold counter d name, eq_iff n name)

pub first_with_capacity-none :
    (threshold : ℕ) (counter : Dict ℕ) (d : Dict WorkerQueue) (name : String)
    → first_with_capacity threshold counter d ≡ none
    → has d name ≡ true
    → threshold ≤ count_of counter name
unfolding first_with_capacity get
first_with_capacity-none threshold counter [] name h k = ground arith
first_with_capacity-none threshold counter ((n, q) ∷ d) name h k =
    ground (arith, first_with_capacity-none threshold counter d name, eq_iff n name)

pub length-put_new :
    (d : Dict WorkerQueue) (name : String) (q : WorkerQueue)
    → has d name ≡ false
    → length (put d name q) ≡ length d + 1
unfolding put get
length-put_new [] name q h = omega arith
length-put_new ((n, q') ∷ d) name q h = ground (arith, length-put_new d name q)

pub nothing_there :
    (d : Dict WorkerQueue) (name : String) → eqb (length d) 0 ≡ true → has d name ≡ true → ⊥
unfolding get
nothing_there [] name h k = ground arith
nothing_there (x ∷ d) name h k = ground arith

module _ (names : ℕ → String) (distinct : AreNames names) where
  pub register-IsBalanced :
      (id : ℕ) (name : String) (r : MessageRouter)
      → IsBalanced names r
      → find r.sm_process_map id ≡ none
      → has r.process_queue_map name ≡ true
      → count_of r.process_sm_counter name < r.max_sm_threshold
      → IsBalanced names (register id name r)
  unfolding register
  register-IsBalanced id name r b new here room = record {
    positive = b.positive;
    known = λ j n h. ground (arith, here, find-store r.sm_process_map id j name, b.known j n);
    counted = λ n. ground (
      arith,
      get-put r.process_sm_counter name n (count_of r.process_sm_counter name + 1),
      eq_iff name n,
      tally-store n name r.sm_process_map id new,
      b.counted n,
      b.counted name,
    );
    bounded = λ n. ground (
      arith,
      room,
      get-put r.process_sm_counter name n (count_of r.process_sm_counter name + 1),
      b.bounded n,
    );
    started = b.started;
    idle = λ n h. ground (
      arith,
      here,
      get-put r.process_sm_counter name n (count_of r.process_sm_counter name + 1),
      eq_iff name n,
      b.idle n,
    );
  }

  -- the next name is not in use
  pub next-fresh :
      (r : MessageRouter)
      → IsBalanced names r
      → has r.process_queue_map (names (length r.process_queue_map)) ≡ false
  next-fresh r b =
      elim (Bool-cases (has r.process_queue_map (names (length r.process_queue_map)))) [
        | inr e ↦ e
        | inl e ↦
            let (i, lt, same) = b.started (names (length r.process_queue_map)) e in
            absurd (ground (arith, distinct.distinct i (length r.process_queue_map) same))
      ]

  created_started :
      (r : MessageRouter)
      → IsBalanced names r
      → (m : String) → has (create_worker_resources names r).0.process_queue_map m ≡ true
      → (i : ℕ) × (i < length (create_worker_resources names r).0.process_queue_map) × (names i ≡ m)
  unfolding create_worker_resources
  created_started r b m h =
      let n = length r.process_queue_map in
      let longer = length-put_new r.process_queue_map (names n) [] (next-fresh r b) in
      elim (Bool-cases (names n == m)) [
        | inl e ↦ (n, omega (arith, longer), (eq_iff (names n) m).0 e)
        | inr e ↦
            let (i, lt, same) =
              b.started m (ground (arith, h, get-put r.process_queue_map (names n) m [], e)) in
            (i, omega (arith, longer), same)
      ]

  pub create-IsBalanced :
      (r : MessageRouter)
      → IsBalanced names r
      → IsBalanced names (create_worker_resources names r).0
  unfolding create_worker_resources
  create-IsBalanced r b =
      let n = length r.process_queue_map in
      let fresh = next-fresh r b in
      record {
        positive = b.positive;
        known = λ j m h. ground (arith, get-put r.process_queue_map (names n) m [], b.known j m h);
        counted = b.counted;
        bounded = b.bounded;
        started = λ m h. created_started r b m h;
        idle = λ m h. ground (arith, h, get-put r.process_queue_map (names n) m [], b.idle m);
      }
