-- ===== src/Lifecycle/Tests.antt =====
-- The lifecycle controller (src/lifecycle/controller.py) at concrete markets.
use polypy.Prelude.{
  ℕ, zero, suc, ◌*◌, ◌<◌, take, drop, arith, String, ◌≡◌, ◌≢◌, refl, length, Bool, true, false,
  ◌&&◌, Option, none, some, List, [], ◌∷◌, if◌then◌else◌,
}
use polypy.Prelude.Int.{pos, ltb_ℤ}
use polypy.Prelude.Dict.{get}
use polypy.SortedDict.Reference.{sorted_listing}
use polypy.Registry
use polypy.Registry.{AssetRegistry}
use polypy.Registry.Entry.{subscribed, status_eq, holds}
use polypy.Registry.Coherence.{IsCoherent}
use polypy.Registry.Outcomes.Expiring.{expired_entry}
use polypy.Registry.Runs.{
  Operation, add_asset, mark_subscribed, take_pending_batch, run, init-IsCoherent, run-IsCoherent,
}
use polypy.Lifecycle.{
  MarketInfo, LifecycleController, discover_markets, add_market_manually, check_expirations,
}
use polypy.Lifecycle.Api.{
  RawMarket, Readers, Response, page, client_error, ok, items, parse_valid, fetch_active_markets,
}
use polypy.Lifecycle.Fetching.{Serves, fetch_active_markets_stops}
use polypy.Lifecycle.Discovery.{discover_markets_once, discover_after_manual}
use polypy.Prelude.Ids.{member}
use polypy.Lifecycle.Tasks
use polypy.Lifecycle.Tasks.{Managed, Event, discovery, expiration, cleanup, manual, elsewhere}
use polypy.Lifecycle.Watching.{run_watches}
use polypy.Lifecycle.Expiry.{check_expirations_expires}

abbrev operations : List Operation
operations = add_asset 1 "yes" "game" (pos 50) ∷ mark_subscribed 3 ("yes" ∷ []) "c1" ∷ []

abbrev registry : AssetRegistry sorted_listing
registry = run sorted_listing operations (Registry.init sorted_listing)

registry-IsCoherent : IsCoherent sorted_listing registry
registry-IsCoherent =
    run-IsCoherent sorted_listing operations (Registry.init sorted_listing)
      (init-IsCoherent sorted_listing)

check_expirations_expires_example :
    ((b : String)
      → get (check_expirations sorted_listing (pos 60) registry).0.assets b ≡ (
          if holds
            (λ e.
              status_eq e.status subscribed
              && (ltb_ℤ (pos 0) e.expiration_ts && ltb_ℤ e.expiration_ts (pos 60)))
            (get registry.assets b)
          then expired_entry (get registry.assets b)
          else get registry.assets b))
    × IsCoherent sorted_listing (check_expirations sorted_listing (pos 60) registry).0
check_expirations_expires_example =
    check_expirations_expires sorted_listing (pos 60) registry registry-IsCoherent

abbrev market : MarketInfo
market = record {
  condition_id = "match";
  question = "Who wins?";
  outcomes = "Yes" ∷ "No" ∷ [];
  tokens = (("token_id", "up") ∷ []) ∷ (("token_id", "down") ∷ []) ∷ [];
  end_date_iso = "2026-01-01";
  end_timestamp = pos 90;
  active = true;
  closed = false;
}

abbrev controller : LifecycleController sorted_listing
controller = record { registry = registry; known_conditions = []; market_metadata = [] }

discover_markets_once_example :
    IsCoherent sorted_listing
      (discover_markets sorted_listing 5 (some (market ∷ [])) controller).0.registry
    × (discover_markets sorted_listing 6
          (some (market ∷ []))
          (discover_markets sorted_listing 5 (some (market ∷ [])) controller).0
        ≡ ((discover_markets sorted_listing 5 (some (market ∷ [])) controller).0, []))
discover_markets_once_example =
    discover_markets_once sorted_listing 5 6 (market ∷ []) controller registry-IsCoherent

up_is_new : (add_market_manually sorted_listing 5 "up" "match" (pos 90) controller).1 ≡ true
unfolding add_market_manually polypy.Registry.Updates.add_asset_locked get run
    polypy.Registry.Updates.mark_subscribed Registry.init polypy.Prelude.Dict.put
up_is_new = refl

discover_after_manual_example :
    discover_markets sorted_listing 6
      (some (market ∷ []))
      (add_market_manually sorted_listing 5 "up" "match" (pos 90) controller).0
    ≡ ((add_market_manually sorted_listing 5 "up" "match" (pos 90) controller).0, [])
discover_after_manual_example =
    discover_after_manual sorted_listing 5 6 "up" (pos 90) market controller up_is_new

-- no JSON text and no date can be read
abbrev readers : Readers
readers = record { loads = λ t. none; milliseconds = λ t. none; outcome_name = λ i. "Outcome" }

abbrev raw : Option String → RawMarket
raw question = record {
  condition_id = some "match";
  question = question;
  outcomes = some (items ("Yes" ∷ []));
  clob_token_ids = some (items ("up" ∷ "down" ∷ []));
  end_date = some "";
  active = none;
  closed = some false;
}

-- the second market has no question
abbrev listed : List RawMarket
listed = raw (some "Who wins?") ∷ raw none ∷ raw (some "Who loses?") ∷ []

-- every page comes at the second attempt
respond : ℕ → ℕ → Response
respond offset zero = client_error
respond offset (suc k) = page (take 1 (drop offset listed))

respond_before : (offset i : ℕ) → i < 1 → respond offset i ≡ client_error
unfolding respond
respond_before offset zero h = refl
respond_before offset (suc i) h = absurd (omega arith)

respond-Serves : Serves readers respond 1 listed
unfolding respond
respond-Serves offset = (1, omega arith, respond_before offset, refl)

first_has_one : (i : ℕ) → i < 1 → length (parse_valid readers (take 1 (drop (i * 1) listed))) ≢ 0
unfolding parse_valid
first_has_one zero h = omega arith
first_has_one (suc i) h = absurd (omega arith)

second_has_none : length (parse_valid readers (take 1 (drop (1 * 1) listed))) ≡ 0
unfolding parse_valid
second_has_none = refl

fetch_active_markets_stops_example :
    fetch_active_markets readers 2 respond 1 ≡ some (ok (parse_valid readers (take (1 * 1) listed)))
fetch_active_markets_stops_example =
    fetch_active_markets_stops readers respond 1 listed respond-Serves 1 first_has_one
      second_has_none

abbrev managed : Managed sorted_listing
managed = record { controller = controller; running = true; session = true; tasks = true }

abbrev events : List Event
events =
    discovery 5 (some (market ∷ []))
    ∷ elsewhere (take_pending_batch (pos 400))
    ∷ expiration (pos 60)
    ∷ manual 7 "maybe" "toss" (pos 0)
    ∷ cleanup 8
    ∷ []

run_watches_example :
    IsCoherent sorted_listing (Tasks.run sorted_listing events managed).controller.registry
    × ((k : String)
        → member k [] ≡ true
        → member k (Tasks.run sorted_listing events managed).controller.known_conditions ≡ true)
run_watches_example = run_watches sorted_listing events managed registry-IsCoherent
