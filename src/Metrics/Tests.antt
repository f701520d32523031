-- ===== src/Metrics/Tests.antt =====
-- The metrics (src/metrics/prometheus.py) of a concrete application.
use polypy.Prelude.{◌≡◌, refl, true, false, none, some, [], ◌∷◌}
use polypy.Prelude.Int.{pos}
use polypy.Prelude.Ids.{Distinct}
use polypy.Prelude.Kept.{Kept}
use polypy.SortedDict.Reference.{sorted_listing}
use polypy.Registry
use polypy.Messages.Tests.{tenths}
use polypy.Worker.{WorkerStats}
use polypy.Worker.Manager.{WorkerManager}
use polypy.App.Stats.{AppStats, Components, get_stats}
use polypy.Metrics.Collector.{worker_detail_metrics, workers_of, collect_metrics}
use polypy.Metrics.Names.{names, all_names, worker_detail_names, collect_metrics-Distinct}
use polypy.Metrics.Totals.{next_scrape_forgets}

abbrev manager : WorkerManager tenths
manager = record {
  num_workers = 1;
  processes = record { worker_id = 0; alive = true } ∷ [];
  input_queues = [] ∷ [];
  shutdown_event = false;
  running = true;
}

abbrev report : WorkerStats
report = record {
  messages_processed = 4;
  updates_applied = 3;
  snapshots_received = 1;
  processing_time_ms = pos 10;
  last_message_ts = 7;
  orderbook_count = 2;
  memory_usage_bytes = 2097152;
}

abbrev app : Components sorted_listing tenths
app = record {
  running = true;
  registry = some (Registry.init sorted_listing);
  pool = some (record { registry = Registry.init sorted_listing; connections = [] });
  router = none;
  workers = some (manager, (0, report) ∷ []);
  lifecycle = none;
  recycler = none;
}

abbrev stats : AppStats
stats = (get_stats sorted_listing tenths 9 true app).1

collect_metrics-Distinct_example :
    Kept (names (collect_metrics stats)) all_names × Distinct (names (collect_metrics stats))
collect_metrics-Distinct_example = collect_metrics-Distinct stats

next_scrape_forgets_example :
    let (a', first) = get_stats sorted_listing tenths 9 true app in
    let (_, second) = get_stats sorted_listing tenths 12 true a' in
    (names (worker_detail_metrics (workers_of first.workers)) ≡ worker_detail_names)
    × (worker_detail_metrics (workers_of second.workers) ≡ [])
next_scrape_forgets_example =
    next_scrape_forgets sorted_listing tenths 9 12 true app manager 0 report [] refl
