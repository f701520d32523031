-- ===== src/App/Startup.antt =====
-- What `start` of src/app.py leaves: everything running, or, if a call raises, what had been started.
use polypy.Prelude.{◌≡◌, Bool, true, false, none, some, List, [], ◌∷◌, arith, if◌then◌else◌}
use polypy.App.{
  Part, workers, router, pool, lifecycle, recycler, http_server, PolyPy, Call, build_registry,
  build_parser, build, start_part, start, stop, run,
}

-- the calls whose exceptions end a startup, in their order
abbrev pub calls : Bool → List Call
calls enable_http =
    build_registry
    ∷ build_parser
    ∷ build workers
    ∷ build router
    ∷ start_part workers
    ∷ start_part router
    ∷ build pool
    ∷ start_part pool
    ∷ build lifecycle
    ∷ start_part lifecycle
    ∷ build recycler
    ∷ start_part recycler
    ∷ (if enable_http then build http_server ∷ [] else [])

abbrev pub any_raises : (Call → Bool) → List Call → Bool
any_raises raises [] = false
any_raises raises (c ∷ cs) = if raises c then true else any_raises raises cs

-- If no call of it raises, the start of the HTTP server aside, then after `start` the application runs and every
-- component runs, the HTTP server too if it is enabled and its own start does not raise.
pub start_runs :
    (raises : Call → Bool) (a : PolyPy)
    → a.running ≡ false
    → any_raises raises (calls a.enable_http) ≡ false
    → ((start raises a).running ≡ true)
      × ((start raises a).state workers ≡ some true)
      × ((start raises a).state router ≡ some true)
      × ((start raises a).state pool ≡ some true)
      × ((start raises a).state lifecycle ≡ some true)
      × ((start raises a).state recycler ≡ some true)
      × ((start raises a).state http_server ≡ (
          if a.enable_http
          then (if raises (start_part http_server) then none else some true)
          else a.state http_server))
unfolding start
start_runs raises a fresh h = ground (arith, fresh, h)

-- A startup that raises after the workers have been started leaves them running, and nothing stops them:
-- the application is not marked as running, so that the `stop` at the end of `run` returns at once,
-- whatever had been started.
pub failed_start_leaks :
    (raises : Call → Bool) (stop_raises : Part → Bool) (a : PolyPy)
    → a.running ≡ false
    → any_raises raises
        (build_registry ∷ build_parser ∷ build workers ∷ build router ∷ start_part workers ∷ [])
      ≡ false
    → any_raises raises (calls a.enable_http) ≡ true
    → (run raises stop_raises a ≡ (start raises a, []))
      × ((run raises stop_raises a).0.state workers ≡ some true)
unfolding run start stop
failed_start_leaks raises stop_raises a fresh early late = ground (arith, fresh, early, late)
