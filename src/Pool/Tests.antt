-- ===== src/Pool/Tests.antt =====
-- The pool and the recycler (src/connection/pool.py, src/lifecycle/recycler.py) at concrete inputs.
use mathlib.Core.Option
use polypy.Prelude.{
  ℕ, ◌≤◌, ◌<◌, String, ◌≡◌, ◌≢◌, refl, Bool, true, false, Option, none, some, List, [], ◌∷◌, length,
  map, min, arith, eq_iff, if◌then◌else◌,
}
use polypy.Prelude.Int.{pos}
use polypy.Prelude.Ids.{member}
use polypy.Prelude.Dict.{Dict, get, has}
use polypy.SortedDict.Reference.{sorted_listing}
use polypy.Registry
use polypy.Registry.{AssetRegistry}
use polypy.Registry.Queries.{get_pending_count, get_active_by_connection}
use polypy.Registry.Updates
use polypy.Registry.Coherence.{IsCoherent}
use polypy.Registry.Runs.{Operation, add_asset, mark_subscribed, init-IsCoherent, run-IsCoherent}
use polypy.Registry.Runs
use polypy.Registry.Outcomes.Marking.{subscribed_entry}
use polypy.Connection.{WebsocketConnection, connected}
use polypy.Router.{replicate}
use polypy.Pool.{ConnectionInfo, ConnectionPool, process_pending, remove_connection}
use polypy.Pool.Recycler.{ConnectionRecycler, recycle_connection}
use polypy.Pool.Upkeep.{Turn, initiate_recycling, subscription_loop}
use polypy.Pool.Renewal.{Renewed, initiate_recycling-Renewed}
use polypy.Pool.Clearing.{Quiet, subscription_loop_clears}
use polypy.Pool.Subscribing.{Opened, process_pending_subscribes}
use polypy.Pool.Migration.{recycle_connection_migrates_none, recycle_connection_moves}

abbrev waiting : ConnectionPool sorted_listing
waiting = record {
  registry = record (Registry.init sorted_listing) { pending_queue = replicate 50 "yes" };
  connections = [];
}

fifty_wait : 50 ≤ get_pending_count sorted_listing waiting.registry
unfolding get_pending_count
fifty_wait = omega arith

process_pending_subscribes_example :
    let batch = (Updates.take_pending_batch sorted_listing (pos 400) waiting.registry).1 in
    let (p', done) = process_pending sorted_listing 3 "c1" waiting in
    (done ≡ true)
    × (length batch ≡ min 400 (length waiting.registry.pending_queue))
    × Opened sorted_listing 3 "c1" batch
        (record waiting {
          registry = (Updates.take_pending_batch sorted_listing (pos 400) waiting.registry).0;
        })
        p'
    × ((b : String)
        → get p'.registry.assets b ≡ (
            if member b batch
            then subscribed_entry 3 "c1" (get waiting.registry.assets b)
            else get waiting.registry.assets b))
process_pending_subscribes_example =
    process_pending_subscribes sorted_listing 3 "c1" waiting fifty_wait

abbrev operations : List Operation
operations = add_asset 1 "yes" "game" (pos 50) ∷ mark_subscribed 3 ("yes" ∷ []) "c1" ∷ []

abbrev registry : AssetRegistry sorted_listing
registry = Runs.run sorted_listing operations (Registry.init sorted_listing)

registry-IsCoherent : IsCoherent sorted_listing registry
registry-IsCoherent =
    run-IsCoherent sorted_listing operations (Registry.init sorted_listing)
      (init-IsCoherent sorted_listing)

abbrev old_connection : ConnectionInfo
old_connection = record {
  connection = record {
    connection_id = "c1";
    asset_ids = "yes" ∷ [];
    status = connected;
    stats = record {
      messages_received = 0;
      bytes_received = 0;
      parse_errors = 0;
      reconnect_count = 0;
      last_message_ts = 0;
      created_at = 3;
    };
    stop_event = false;
    running = true;
    reconnect_delay = 1000;
    subscribed_asset_ids = "yes" ∷ [];
  };
  created_at = 3;
  is_draining = false;
}

abbrev pool : ConnectionPool sorted_listing
pool = record { registry = registry; connections = ("c1", old_connection) ∷ [] }

abbrev recycler : ConnectionRecycler sorted_listing
recycler = record {
  pool = pool;
  active_recycles = [];
  stats = record {
    recycles_initiated = 0;
    recycles_completed = 0;
    recycles_failed = 0;
    markets_migrated = 0;
    total_downtime_ms = 0;
  };
}

-- every socket connects
abbrev connect_all : Dict ConnectionInfo → Dict ConnectionInfo
connect_all [] = []
connect_all ((id, info) ∷ d) =
    (id, record info { connection = record info.connection { status = connected } }) ∷ connect_all d

abbrev settle : ConnectionPool sorted_listing → ConnectionPool sorted_listing
settle p = record p { connections = connect_all p.connections }

other_connection : ◌≢◌ {A = String} "c1" "c2"
other_connection e = ground (arith, (eq_iff "c1" "c2").1, e)

recycle_connection_migrates_none_example :
    (recycle_connection sorted_listing settle 9 12 "c2" "c1" recycler).0.stats.markets_migrated ≡ 0
recycle_connection_migrates_none_example =
    recycle_connection_migrates_none sorted_listing settle 9 12 "c2" "c1" recycler other_connection
      (λ p. refl)

yes_active : member "yes" (get_active_by_connection sorted_listing registry "c1") ≡ true
unfolding get_active_by_connection member get Runs.run Updates.mark_subscribed
    Updates.add_asset_locked Registry.init polypy.Prelude.Dict.put polypy.Prelude.Ids.add
yes_active = refl

recycled : (recycle_connection sorted_listing settle 9 12 "c2" "c1" recycler).1 ≡ true
unfolding recycle_connection get_active_by_connection get Runs.run Updates.mark_subscribed
    Updates.add_asset_locked Registry.init polypy.Prelude.Dict.put polypy.Pool.force_subscribe
    polypy.Pool.Recycler.found_healthy polypy.Pool.get_connection_stats polypy.Connection.is_healthy
    Updates.reassign_connection
recycled = refl

recycle_connection_moves_example :
    get
      (recycle_connection sorted_listing settle 9 12 "c2" "c1" recycler).0.pool.registry.assets
      "yes"
    ≡ subscribed_entry 9 "c2" (get registry.assets "yes")
recycle_connection_moves_example =
    recycle_connection_moves sorted_listing settle 9 12 "c2" "c1" "yes" recycler other_connection
      (λ p. refl) yes_active recycled

few_active : length (get_active_by_connection sorted_listing registry "c1") ≤ 500
unfolding get_active_by_connection member get Runs.run Updates.mark_subscribed
    Updates.add_asset_locked Registry.init polypy.Prelude.Dict.put polypy.Prelude.Ids.add
few_active = omega arith

still_there : (d : Dict ConnectionInfo) → has (connect_all d) "c1" ≡ has d "c1"
unfolding get
still_there [] = refl
still_there ((id, info) ∷ d) = ground (arith, still_there d)

initiate_recycling-Renewed_example :
    Renewed sorted_listing "c1" "c2"
      (get_active_by_connection sorted_listing registry "c1")
      registry
      (initiate_recycling sorted_listing settle 9 "c2" "c1" pool)
initiate_recycling-Renewed_example =
    initiate_recycling-Renewed sorted_listing settle 9 "c2" "c1" pool registry-IsCoherent
      other_connection (unfold get in refl) few_active (λ q. refl) (λ q. still_there q.connections)

-- what the recycling leaves in the registry
renewed_on :
    Option.map
      (λ e. e.connection_id)
      (get (initiate_recycling sorted_listing settle 9 "c2" "c1" pool).0.registry.assets "yes")
    ≡ some (some "c2")
unfolding initiate_recycling get_active_by_connection get Runs.run Updates.mark_subscribed
    Updates.add_asset_locked Registry.init polypy.Prelude.Dict.put Updates.reassign_connection
    remove_connection polypy.Prelude.Ids.add Updates.remove_connection polypy.Prelude.Ids.discard
renewed_on = refl

abbrev turns : List (Turn sorted_listing)
turns =
    record { meanwhile = settle; stopped = false; now = 3; connection_id = "c1" }
    ∷ record { meanwhile = settle; stopped = true; now = 9; connection_id = "c2" }
    ∷ []

quiet : Quiet sorted_listing turns
unfolding get_pending_count
quiet = (λ q. omega arith, (λ q. omega arith, tt))

subscription_loop_clears_example :
    get_pending_count sorted_listing (subscription_loop sorted_listing turns waiting).0.registry
    < 50
subscription_loop_clears_example =
    subscription_loop_clears sorted_listing turns waiting quiet
      (unfold get_pending_count in omega arith)
