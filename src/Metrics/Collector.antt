-- ===== src/Metrics/Collector.antt =====
-- The metrics of the router, the workers, the lifecycle controller and the recycler, and the whole
-- scrape (src/metrics/prometheus.py).
use polypy.Prelude.{ℕ, String, Option, none, some, List, [], ◌∷◌, ◌++◌, length, map, if◌then◌else◌}
use polypy.Prelude.Int.{ℤ, pos, negsuc}
use polypy.Pool.{ConnectionRow}
use polypy.App.Stats.{
  Number, Label, text, numbered, whole, times, PoolCounts, RouterCounts, WorkerRow, WorkersCounts,
  LifecycleCounts, RecyclerCounts, AppStats,
}
use polypy.Metrics.{
  Kind, gauge, counter, summary, value, Setting, Metric, single, setting, flag, is_positive, divide,
  multiply, summary_settings,
}
use polypy.Metrics.Sources.{application_metrics, registry_metrics, pool_metrics, connection_metrics}

-- a summary without labels
abbrev pub single_summary : String → ℕ → Number → ℕ → Metric
single_summary name unit avg n = record {
  kind = summary;
  name = name;
  label_names = [];
  settings = summary_settings [] unit avg n;
}

-- a depth of -1 is skipped
unfoldable pub depth_settings : List (Label × ℤ) → List Setting
depth_settings [] = []
depth_settings ((name, pos n) ∷ depths) = setting (name ∷ []) n ∷ depth_settings depths
depth_settings ((name, negsuc n) ∷ depths) = depth_settings depths

abbrev pub depth_metrics : List (Label × ℤ) → List Metric
depth_metrics [] = []
depth_metrics (d ∷ depths) =
    record {
      kind = gauge;
      name = "polypy_router_queue_depth";
      label_names = "queue_name" ∷ [];
      settings = depth_settings (d ∷ depths);
    }
    ∷ []

unfoldable pub router_metrics : Option RouterCounts → List Metric
unfolding depth_settings summary_settings
router_metrics none = []
router_metrics (some r) =
    single counter "polypy_router_messages_routed_total" (whole r.messages_routed)
      ∷ single counter "polypy_router_messages_dropped_total" (whole r.messages_dropped)
      ∷ single counter "polypy_router_batches_sent_total" (whole r.batches_sent)
      ∷ single counter "polypy_router_queue_full_events_total" (whole r.queue_full_events)
      ∷ single counter "polypy_router_routing_errors_total" (whole r.routing_errors)
      ∷ depth_metrics r.queue_depths
    ++ single_summary "polypy_router_routing_latency_seconds" 1000 r.avg_latency_ms
        r.messages_routed
      ∷ []

unfoldable pub worker_metrics : Option WorkersCounts → List Metric
worker_metrics none = []
worker_metrics (some w) =
    single gauge "polypy_workers_alive" (whole w.alive_count)
    ∷ single gauge "polypy_workers_healthy" (whole (flag w.is_healthy))
    ∷ []

-- a metric with a value for each worker
abbrev pub per_worker : Kind → String → (WorkerRow → Number) → List (ℕ × WorkerRow) → Metric
per_worker kind name f rows = record {
  kind = kind;
  name = name;
  label_names = "worker_id" ∷ [];
  settings =
      map (λ (w, row). record { labels = numbered "" w ∷ []; field = value; number = f row }) rows;
}

unfoldable pub processing_settings : List (ℕ × WorkerRow) → List Setting
unfolding summary_settings
processing_settings [] = []
processing_settings ((w, row) ∷ rows) =
    summary_settings (numbered "" w ∷ []) 1000000 row.avg_processing_time_us row.messages_processed
    ++ processing_settings rows

unfoldable pub worker_detail_metrics : List (ℕ × WorkerRow) → List Metric
unfolding processing_settings times
worker_detail_metrics [] = []
worker_detail_metrics (row ∷ rows) =
    let all = row ∷ rows in
    per_worker counter "polypy_worker_messages_processed_total" (λ r. whole r.messages_processed)
      all
    ∷ per_worker counter "polypy_worker_updates_applied_total" (λ r. whole r.updates_applied) all
    ∷ per_worker counter "polypy_worker_snapshots_received_total" (λ r. whole r.snapshots_received)
        all
    ∷ per_worker gauge "polypy_worker_orderbook_count" (λ r. whole r.orderbook_count) all
    ∷ per_worker gauge "polypy_worker_memory_bytes" (λ r. multiply 1048576 r.memory_usage_mb) all
    ∷ record {
      kind = summary;
      name = "polypy_worker_processing_seconds";
      label_names = "worker_id" ∷ [];
      settings = processing_settings all;
    }
    ∷ []

unfoldable pub lifecycle_metrics : Option LifecycleCounts → List Metric
lifecycle_metrics none = []
lifecycle_metrics (some l) =
    single gauge "polypy_lifecycle_running" (whole (flag l.is_running))
    ∷ single gauge "polypy_lifecycle_known_markets" (whole l.known_market_count)
    ∷ []

abbrev pub downtime_metrics : Number → List Metric
downtime_metrics avg =
    if is_positive avg
    then single gauge "polypy_recycler_avg_downtime_seconds" (divide avg 1000) ∷ []
    else []

unfoldable pub recycler_metrics : Option RecyclerCounts → List Metric
unfolding summary_settings
recycler_metrics none = []
recycler_metrics (some r) =
    record {
      kind = counter;
      name = "polypy_recycler_recycles_total";
      label_names = "result" ∷ [];
      settings =
          setting (text "completed" ∷ []) r.recycles_completed
          ∷ setting (text "failed" ∷ []) r.recycles_failed
          ∷ [];
    }
      ∷ single counter "polypy_recycler_markets_migrated_total" (whole r.markets_migrated)
      ∷ single gauge "polypy_recycler_success_rate" r.success_rate
      ∷ single gauge "polypy_recycler_active_recycles" (whole (length r.active_recycles))
      ∷ downtime_metrics r.avg_downtime_ms
    ++ single_summary "polypy_recycler_downtime_seconds" 1000 r.avg_downtime_ms r.recycles_completed
      ∷ []

abbrev pub rows_of : Option PoolCounts → List ConnectionRow
rows_of none = []
rows_of (some p) = p.stats

abbrev pub workers_of : Option WorkersCounts → List (ℕ × WorkerRow)
workers_of none = []
workers_of (some w) = w.worker_stats

-- `collect_metrics`, up to the text that `generate_latest` makes of it
unfoldable pub collect_metrics : AppStats → List Metric
unfolding application_metrics registry_metrics pool_metrics connection_metrics router_metrics
    worker_metrics worker_detail_metrics lifecycle_metrics recycler_metrics
collect_metrics stats =
    application_metrics stats
    ++ registry_metrics stats.registry
    ++ pool_metrics stats.pool
    ++ connection_metrics (rows_of stats.pool)
    ++ router_metrics stats.router
    ++ worker_metrics stats.workers
    ++ worker_detail_metrics (workers_of stats.workers)
    ++ lifecycle_metrics stats.lifecycle
    ++ recycler_metrics stats.recycler
