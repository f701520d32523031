-- ===== src/Lifecycle/Tasks.antt =====
-- The background tasks of the lifecycle controller (src/lifecycle/controller.py): `start`, `stop` and the
-- three loops. The tasks take turns with each other and with the rest of the program: a run is a
-- sequence of wake-ups and of operations on the registry. Each body of a loop is one step.
use polypy.Prelude.{ℕ, String, Bool, true, false, Option, List, [], ◌∷◌, length, ltb, if◌then◌else◌}
use polypy.Prelude.Int.{ℤ}
use polypy.SortedDict.{SortedDict}
use polypy.Registry.Runs
use polypy.Registry.Runs.{Operation}
use polypy.Lifecycle.{
  MarketInfo, LifecycleController, discover_markets, add_market_manually, check_expirations,
  cleanup_expired,
}

-- One wake-up of a loop, with the readings of the clock and what the fetch gives; a call of
-- `add_market_manually`; or an operation that another part makes on the registry.
pub data Event : Type 0 where
  discovery : ℕ → Option (List MarketInfo) → Event
  expiration : ℤ → Event
  cleanup : ℕ → Event
  manual : ℕ → String → String → ℤ → Event
  elsewhere : Operation → Event

module _ (S : SortedDict) where
  -- `session` and `tasks` tell that the HTTP session and the three tasks are there.
  pub record Managed : Type 0 where
    pub controller : LifecycleController S
    pub running : Bool
    pub session : Bool
    pub tasks : Bool

  unfoldable pub start : Managed → Managed
  start m = if m.running then m else record m { running = true; session = true; tasks = true }

  -- the tasks are cancelled and awaited
  unfoldable pub stop : Managed → Managed
  stop m = if m.running then record m { running = false; session = false; tasks = false } else m

  -- the discovery loop sleeps before a wake-up only if it knows a market
  unfoldable pub sleeps : Managed → Bool
  sleeps m = ltb 0 (length m.controller.known_conditions)

  -- what a loop does when it wakes: nothing if the controller is not running
  unfoldable pub step : Event → Managed → Managed
  unfolding discover_markets add_market_manually check_expirations cleanup_expired Runs.apply
  step (discovery now fetched) m =
      if m.running
      then (if m.session
          then record m { controller = (discover_markets S now fetched m.controller).0 }
          else m)
      else m
  step (expiration now) m =
      if m.running
      then record m {
        controller = record m.controller {
          registry = (check_expirations S now m.controller.registry).0;
        };
      }
      else m
  step (cleanup now) m =
      if m.running
      then record m {
        controller = record m.controller {
          registry = (cleanup_expired S now m.controller.registry).0;
        };
      }
      else m
  step (manual now a condition t) m = record m {
    controller = (add_market_manually S now a condition t m.controller).0;
  }
  step (elsewhere op) m = record m {
    controller = record m.controller { registry = Runs.apply S op m.controller.registry };
  }

  unfoldable pub run : List Event → Managed → Managed
  unfolding step
  run [] m = m
  run (e ∷ events) m = run events (step e m)
