-- ===== src/Server/Tests.antt =====
-- The server (src/server) at concrete clients and requests.
use polypy.Prelude.{ℕ, ◌+◌, String, ◌≡◌, refl, Bool, true, false, Option, none, some, List, [], ◌∷◌}
use Prim.Native.String.{count}
use polypy.Prelude.Int.{ℤ, pos}
use polypy.Prelude.Dict.{values}
use polypy.Prelude.Table.{Table, find}
use polypy.SortedDict.Reference.{sorted_listing}
use polypy.Registry
use polypy.Registry.{AssetRegistry}
use polypy.Registry.Runs.{Operation, add_asset, mark_subscribed, init-IsCoherent, run-IsCoherent}
use polypy.Registry.Runs
use polypy.Lifecycle.{MarketInfo, LifecycleController}
use polypy.Messages.Tests.{tenths}
use polypy.Worker.{OrderbookResponse}
use polypy.Worker.Loop.{Incoming, shutdown}
use polypy.Worker.Manager.{failed_response}
use polypy.Server.{
  ClientSubscription, ClientData, object, missing, not_json, Event, connect, text_message, poll,
  disconnect, found, not_found, error, run, step, get_subscribed_count,
}
use polypy.Server.Streams.{run_own, sent_to, run_isolates}
use polypy.Server.Counting.{streaming_count, ended_stream_counts}
use polypy.Server.Handlers.{handle_markets}
use polypy.Server.Handlers.Answers.{rows, handle_markets_lists}

abbrev subscribe : String → ClientData
subscribe a = object (some a) false missing

abbrev events : List (Event String)
events =
    connect 1
    ∷ connect 2
    ∷ text_message 1 "" (subscribe "yes")
    ∷ text_message 2 "" (subscribe "no")
    ∷ poll 1 (found "book of yes")
    ∷ poll 2 (not_found none)
    ∷ text_message 1 "bad" not_json
    ∷ disconnect 1
    ∷ []

sent_to_first : sent_to 2 (run events []).1 ≡ error "Asset not found" ∷ []
unfolding sent_to run find polypy.Prelude.Table.store
sent_to_first = refl

run_isolates_example :
    (find (run events []).0 2 ≡ (run_own 2 events (find [] 2)).0)
    × (sent_to 2 (run events []).1 ≡ (run_own 2 events (find [] 2)).1)
run_isolates_example = run_isolates events [] 2

abbrev streaming : Table ClientSubscription
streaming =
    (
      1,
      record {
        asset_id = some "yes";
        stream_task = some (record { asset = "yes"; interval = 500; done = false });
      },
    )
    ∷ []

abbrev lost : Event String
lost = poll 1 (not_found (some "Request timeout"))

ended_stream_counts_example :
    (get_subscribed_count (step lost streaming).0 ≡ get_subscribed_count streaming)
    × (streaming_count (step lost streaming).0 + 1 ≡ streaming_count streaming)
    × ((t : String) × ((step lost streaming).1 ≡ (1, error t) ∷ []))
unfolding find
ended_stream_counts_example =
    ended_stream_counts 1 (not_found (some "Request timeout")) streaming "yes"
      (record { asset = "yes"; interval = 500; done = false }) refl refl tt

abbrev operations : List Operation
operations = add_asset 1 "yes" "game" (pos 50) ∷ mark_subscribed 3 ("yes" ∷ []) "c1" ∷ []

abbrev registry : AssetRegistry sorted_listing
registry = Runs.run sorted_listing operations (Registry.init sorted_listing)

abbrev market : String → MarketInfo
market token = record {
  condition_id = "game";
  question = "Who wins?";
  outcomes = "Yes" ∷ [];
  tokens = (("token_id", token) ∷ []) ∷ [];
  end_date_iso = "2026-01-01";
  end_timestamp = pos 50;
  active = true;
  closed = false;
}

abbrev controller : LifecycleController sorted_listing
controller = record {
  registry = registry;
  known_conditions = "game" ∷ "other" ∷ [];
  market_metadata = ("game", market "yes") ∷ ("other", market "no") ∷ [];
}

handle_markets_lists_example :
    handle_markets sorted_listing (some controller) (some registry)
    ≡ some (rows sorted_listing registry (values controller.market_metadata))
handle_markets_lists_example =
    handle_markets_lists sorted_listing registry
      (run-IsCoherent sorted_listing operations (Registry.init sorted_listing)
        (init-IsCoherent sorted_listing))
      controller

abbrev md5 : String → List ℕ
md5 t = count t ∷ []

abbrev parse_int : String → Option ℤ
parse_int t = some (pos (count t))

abbrev response_to : String → OrderbookResponse tenths
response_to id = failed_response tenths id "yes" "no book"

abbrev queues : List (List (Incoming tenths))
queues = [] ∷ (shutdown ∷ []) ∷ []
