-- ===== src/App/Tests.antt =====
-- The application (src/app.py) at concrete failures.
use polypy.Prelude.{◌≡◌, refl, Bool, true, false, none, some, []}
use polypy.App.{
  Part, workers, pool, lifecycle, http_server, PolyPy, Call, start_part, start, run, init,
}
use polypy.App.Startup.{failed_start_leaks}

abbrev new : PolyPy
new = record {
  num_workers = 2;
  enable_http = true;
  has_registry = false;
  has_parser = false;
  state = λ _. none;
  running = false;
}

new_lem : init 4 2 true ≡ some new
unfolding init
new_lem = refl

-- the port of the server is taken
abbrev port_taken : Call → Bool
port_taken (start_part http_server) = true
port_taken _ = false

abbrev pool_raises : Call → Bool
pool_raises (start_part pool) = true
pool_raises _ = false

abbrev lifecycle_raises : Part → Bool
lifecycle_raises lifecycle = true
lifecycle_raises _ = false

failed_start_leaks_example :
    (run pool_raises lifecycle_raises new ≡ (start pool_raises new, []))
    × ((run pool_raises lifecycle_raises new).0.state workers ≡ some true)
failed_start_leaks_example = failed_start_leaks pool_raises lifecycle_raises new refl refl refl

abbrev started : PolyPy
started = start port_taken new
