-- ===== src/App.antt =====
-- The application (src/app.py): the order in which it builds, starts and stops its components, and what
-- it does when one of them raises. A component is here what the application sees of it: absent, or
-- there and running or not. What raises is an argument.
pub mod Startup
pub mod Shutdown
pub mod Stats
pub mod Tests
use polypy.Prelude.{
  ℕ, ◌-◌, Bool, true, false, Option, none, some, List, [], ◌∷◌, ◌++◌, ◌&&◌, not, ltb, if◌then◌else◌,
}

pub data Part : Type 0 where
  workers : Part
  router : Part
  pool : Part
  lifecycle : Part
  recycler : Part
  http_server : Part

-- none is Python's None, `some b` a component that runs or not
pub record PolyPy : Type 0 where
  pub num_workers : ℕ
  pub enable_http : Bool
  pub has_registry : Bool
  pub has_parser : Bool
  pub state : Part → Option Bool
  pub running : Bool

-- `__init__` with `_validate_num_workers`; none for a ValueError
unfoldable pub init : ℕ → ℕ → Bool → Option PolyPy
init cpu_count num_workers enable_http =
    if ltb num_workers 1
    then none
    else if ltb (cpu_count - 1) num_workers
    then none
    else some (record {
      num_workers = num_workers;
      enable_http = enable_http;
      has_registry = false;
      has_parser = false;
      state = λ _. none;
      running = false;
    })

abbrev pub part_eq : Part → Part → Bool
part_eq workers workers = true
part_eq router router = true
part_eq pool pool = true
part_eq lifecycle lifecycle = true
part_eq recycler recycler = true
part_eq http_server http_server = true
part_eq _ _ = false

-- self._part = value
unfoldable pub assign : Part → Option Bool → PolyPy → PolyPy
assign p v a = record a { state = λ q. if part_eq p q then v else a.state q }

-- what the application calls while it starts, and may raise
pub data Call : Type 0 where
  build_registry : Call
  build_parser : Call
  build : Part → Call
  start_part : Part → Call

-- the state at the point that a `try` block has reached, and whether it is still in it
abbrev pub Attempt : Type 0
Attempt = PolyPy × Bool

module _ (raises : Call → Bool) where
  -- a call and the change that follows it
  unfoldable pub attempt : Call → (PolyPy → PolyPy) → Attempt → Attempt
  attempt c change (a, true) = if raises c then (a, false) else (change a, true)
  attempt c change (a, false) = (a, false)

  unfoldable pub build_part : Part → Attempt → Attempt
  unfolding attempt assign
  build_part p = attempt (build p) (assign p (some false))

  unfoldable pub run_part : Part → Attempt → Attempt
  unfolding attempt assign
  run_part p = attempt (start_part p) (assign p (some true))

  -- step 10: only the construction of the server can end the startup
  unfoldable pub start_http : Attempt → Attempt
  unfolding build_part assign
  start_http (a, true) =
      if a.enable_http
      then (if raises (build http_server) then (a, false) else (
        assign http_server (if raises (start_part http_server) then none else some true) a,
        true,
      ))
      else (a, true)
  start_http (a, false) = (a, false)

  -- the `try` block of `start`, in its order
  unfoldable pub startup : PolyPy → Attempt
  unfolding build_part run_part start_http
  startup a =
      let registry = attempt build_registry (λ x. record x { has_registry = true }) (a, true) in
      let parser = attempt build_parser (λ x. record x { has_parser = true }) registry in
      let built = build_part router (build_part workers parser) in
      let routing = run_part router (run_part workers built) in
      let pooled = run_part pool (build_part pool routing) in
      let watched = run_part lifecycle (build_part lifecycle pooled) in
      let recycled = run_part recycler (build_part recycler watched) in start_http recycled

  -- `start`: an exception is logged, and that is all
  unfoldable pub start : PolyPy → PolyPy
  unfolding startup
  start a =
      if a.running
      then a
      else (let (a', done) = startup a in if done then record a' { running = true } else a')

-- the order of `_stop`
abbrev pub stop_order : List Part
stop_order = recycler ∷ http_server ∷ lifecycle ∷ pool ∷ router ∷ workers ∷ []

module _ (raises : Part → Bool) where
  -- One of the `try` blocks of `_stop`: the component stops unless its `stop` raises. Beside it the
  -- components of which `stop` has been called, in order.
  unfoldable pub stop_part : Part → PolyPy × List Part → PolyPy × List Part
  unfolding assign
  stop_part p (a, called) = elim (a.state p) [
    | none ↦ (a, called)
    | some b ↦ (if raises p then a else assign p (some false) a, called ++ p ∷ [])
  ]

  unfoldable pub stop_parts : List Part → PolyPy × List Part → PolyPy × List Part
  unfolding stop_part
  stop_parts [] x = x
  stop_parts (p ∷ ps) x = stop_parts ps (stop_part p x)

  -- `stop`
  unfoldable pub stop : PolyPy → PolyPy × List Part
  unfolding stop_parts
  stop a =
      if a.running
      then (let (a', called) = stop_parts stop_order (a, []) in
          (record a' { running = false }, called))
      else (a, [])

-- `run`, from its start to the signal that ends it
unfoldable pub run : (Call → Bool) → (Part → Bool) → PolyPy → PolyPy × List Part
unfolding start stop
run start_raises stop_raises a = stop stop_raises (start start_raises a)

-- `is_healthy`, with what the manager of the workers says
unfoldable pub is_healthy : Bool → PolyPy → Bool
is_healthy workers_healthy a =
    if a.running then elim (a.state workers) [ none ↦ true | some b ↦ workers_healthy ] else false
