-- ===== src/Lib.antt =====
-- polypy: a verification library of the market feed's core. The program subscribes to a feed of
-- order books over many websocket connections, routes what arrives to worker processes, and keeps
-- one order book per asset.
--
-- The parts, and the files that model them:
-- - messages/protocol.py and messages/parser.py: Messages, Messages.Raw, Messages.Parser. The typed
--   messages, the generators `parse_messages` and `_process_bytes`, and the parsers of the four kinds
--   of event.
-- - registry/asset_registry.py, registry/asset_entry.py: Registry and its children. `AssetRegistry` is
--   a record of the dictionary of entries, the four indices and the queue; Registry.Updates has its
--   writing methods, Registry.Queries its readings, and Registry.Runs any sequence of them.
-- - orderbook/orderbook.py, orderbook/orderbook_store.py: Orderbook, Orderbook.Views (readings),
--   Orderbook.Store. Orderbook.Levels specifies a book as a function from prices to sizes.
-- - router.py: Router (`_hash_to_worker`, the worker cache, `route_message`, `_route_batch`, `stop`) and
--   Router.Loop, the routing task over any order of what happens while it runs.
-- - worker/worker.py, worker/protocol.py, worker/stats.py: Worker (the handlers),
--   Worker.Queries (`_handle_orderbook_request`), Worker.Loop (`run`).
-- - worker/manager.py: Worker.Manager. The queues and processes, the statistics, and `query_orderbook`
--   over the polls made before its deadline.
-- - connection/websocket.py, types.py, stats.py: Connection, `_connection_loop` over its attempts.
-- - connection/pool.py: Pool, over the registry, and Pool.Upkeep, its tasks; lifecycle/recycler.py:
--   Pool.Recycler, Pool.Monitor. Where a task sleeps, what the rest of the program does meanwhile is a
--   function.
-- - lifecycle/controller.py, types.py: Lifecycle, over the registry; what is fetched is an argument.
--   Lifecycle.Tasks lets its tasks take turns with the other parts.
-- - lifecycle/api.py: Lifecycle.Api, over the answers of the server.
-- - app.py: App, over components that are absent, there, or running; App.Stats, `get_stats`.
-- - metrics/prometheus.py: Metrics, up to the package that keeps and writes the metrics.
-- - server/websocket_handler.py: Server; server/server.py: Server.Handlers.
-- - exercises/: Exercises.StateMachine (state_machine.py, worker.py), Exercises.Router
--   (message_router.py); these import nothing of the program.
-- SortedDict is the interface of the package `sortedcontainers`, with its documented laws, and
-- SortedDict.Reference a concrete instance. Prelude has the numbers, texts, lists and dictionaries.
--
-- How they fit together: the parser's messages go through the router to the worker that the hash of
-- the asset names; the worker keeps the books of its assets in an OrderbookStore and answers queries
-- from them. The registry says which connection an asset is subscribed on.
--
-- How state is modelled: an object is a record, and a method a function that returns the changed
-- record beside its result. The registry's methods hold one lock and await nothing under it, so each is
-- one step; `add_asset`, which reads before it has the lock, takes what runs in between as an argument.
-- A worker's queue keeps what was taken beside what waits, so that it shows every message ever put.
-- A property that fills a cache returns the state too. Loops are recursion on the list they walk, the
-- loop of a worker on the list of its turns, and the loop of the router on the events of its run. Two
-- loops run on fuel: a binary search, which gets one
-- round more than the array is long, and the pagination, which gets one round for each page that it
-- asks for; both are proved to end within it. Times and floating point: a reading
-- of the clock is an argument, in whole units; `float`, its arithmetic, the JSON decoder, `int(text)`
-- and MD5 are parameters. A Python integer is ℤ, a set is a list without repeats, and a `dict` an
-- association list in the order of insertion.
--
-- Not modelled: the system's processes (how one takes a stop is an argument of Worker.Manager), the
-- aiohttp site of server/server.py, the message generator and the benchmark of
-- exercises/, logging and configuration. Of the modelled parts: log messages, type checks at run time, the
-- timers of the background tasks, and the sockets, whose behaviour is given for each attempt to
-- connect.
pub mod Prelude
pub mod SortedDict
pub mod Messages
pub mod Orderbook
pub mod Registry
pub mod Router
pub mod Worker
pub mod App
pub mod Connection
pub mod Exercises
pub mod Lifecycle
pub mod Metrics
pub mod Pool
pub mod Server
