-- ===== src/Metrics/Names.antt =====
-- The names of the metrics that a scrape declares (src/metrics/prometheus.py).
use polypy.Prelude.{
  ℕ, String, ◌≡◌, refl, Bool, true, false, Option, none, some, List, [], ◌∷◌, ◌++◌, map, arith,
  if-elim, if◌then◌else◌,
}
use polypy.Prelude.Ids.{member, Distinct}
use polypy.Prelude.Kept.{Kept, done, kept, lost, Kept-refl, Kept-nil, Kept-append}
use polypy.Pool.{ConnectionRow}
use polypy.Prelude.Int.{ℤ}
use polypy.App.Stats.{
  Number, Label, RegistryCounts, PoolCounts, RouterCounts, WorkerRow, WorkersCounts,
  LifecycleCounts, RecyclerCounts, AppStats,
}
use polypy.Metrics.{Metric, is_positive}
use polypy.Metrics.Sources.{application_metrics, registry_metrics, pool_metrics, connection_metrics}
use polypy.Metrics.Collector.{
  depth_metrics, router_metrics, worker_metrics, worker_detail_metrics, lifecycle_metrics,
  downtime_metrics, recycler_metrics, rows_of, workers_of, collect_metrics,
}

unfoldable pub names : List Metric → List String
names = map (λ m. m.name)

names-append : (xs ys : List Metric) → names (xs ++ ys) ≡ names xs ++ names ys
unfolding names
names-append [] ys = refl
names-append (x ∷ xs) ys = ground (arith, names-append xs ys)

member-Kept :
    {xs ys : List String} (a : String) → Kept xs ys → member a xs ≡ true → member a ys ≡ true
unfolding member
member-Kept a done h = h
member-Kept a (kept x k) h = ground (arith, member-Kept a k, h)
member-Kept a (lost y k) h = ground (arith, member-Kept a k h)

Distinct-Kept : {xs ys : List String} → Kept xs ys → Distinct ys → Distinct xs
Distinct-Kept done d = d
Distinct-Kept (kept x k) (fresh, d) = (ground (arith, fresh, member-Kept x k), Distinct-Kept k d)
Distinct-Kept (lost y k) (fresh, d) = Distinct-Kept k d

joined :
    (xs ys : List Metric) {us vs : List String}
    → Kept (names xs) us
    → Kept (names ys) vs
    → Kept (names (xs ++ ys)) (us ++ vs)
joined xs ys h k = rw (names-append xs ys) (Kept-append h k)

abbrev unrepeated : List String → Bool
unrepeated [] = true
unrepeated (x ∷ xs) = if member x xs then false else unrepeated xs

unrepeated-Distinct : (xs : List String) → unrepeated xs ≡ true → Distinct xs
unrepeated-Distinct [] e = tt
unrepeated-Distinct (x ∷ xs) e = (ground (arith, e), unrepeated-Distinct xs (ground (arith, e)))

abbrev registry_names : List String
registry_names = "polypy_registry_markets_total" ∷ []

abbrev pool_names : List String
pool_names = "polypy_pool_connections" ∷ "polypy_pool_capacity" ∷ []

abbrev connection_names : List String
connection_names =
    "polypy_connection_messages_received_total" ∷ "polypy_connection_bytes_received_total"
    ∷ "polypy_connection_parse_errors_total" ∷ "polypy_connection_reconnects_total"
    ∷ "polypy_connection_message_rate" ∷ "polypy_connection_healthy"
    ∷ "polypy_connection_markets_total" ∷ "polypy_connection_pollution_ratio" ∷ []

abbrev router_names : List String
router_names =
    "polypy_router_messages_routed_total" ∷ "polypy_router_messages_dropped_total"
    ∷ "polypy_router_batches_sent_total" ∷ "polypy_router_queue_full_events_total"
    ∷ "polypy_router_routing_errors_total" ∷ "polypy_router_queue_depth"
    ∷ "polypy_router_routing_latency_seconds" ∷ []

abbrev worker_names : List String
worker_names = "polypy_workers_alive" ∷ "polypy_workers_healthy" ∷ []

abbrev pub worker_detail_names : List String
worker_detail_names =
    "polypy_worker_messages_processed_total" ∷ "polypy_worker_updates_applied_total"
    ∷ "polypy_worker_snapshots_received_total" ∷ "polypy_worker_orderbook_count"
    ∷ "polypy_worker_memory_bytes" ∷ "polypy_worker_processing_seconds" ∷ []

abbrev lifecycle_names : List String
lifecycle_names = "polypy_lifecycle_running" ∷ "polypy_lifecycle_known_markets" ∷ []

abbrev recycler_names : List String
recycler_names =
    "polypy_recycler_recycles_total" ∷ "polypy_recycler_markets_migrated_total"
    ∷ "polypy_recycler_success_rate" ∷ "polypy_recycler_active_recycles"
    ∷ "polypy_recycler_avg_downtime_seconds" ∷ "polypy_recycler_downtime_seconds" ∷ []

-- the names that a scrape may declare, in its order
abbrev pub all_names : List String
all_names =
    ("polypy_application_running" ∷ [])
    ++ registry_names
    ++ pool_names
    ++ connection_names
    ++ router_names
    ++ worker_names
    ++ worker_detail_names
    ++ lifecycle_names
    ++ recycler_names

all_names-Distinct : Distinct all_names
unfolding member
all_names-Distinct = unrepeated-Distinct all_names refl

application-Kept :
    (stats : AppStats)
    → Kept (names (application_metrics stats)) ("polypy_application_running" ∷ [])
unfolding application_metrics names
application-Kept stats = Kept-refl _

registry-Kept : (r : Option RegistryCounts) → Kept (names (registry_metrics r)) registry_names
unfolding registry_metrics names
registry-Kept none = Kept-nil _
registry-Kept (some r) = Kept-refl _

pool-Kept : (p : Option PoolCounts) → Kept (names (pool_metrics p)) pool_names
unfolding pool_metrics names
pool-Kept none = Kept-nil _
pool-Kept (some p) = Kept-refl _

connection-Kept :
    (rows : List ConnectionRow) → Kept (names (connection_metrics rows)) connection_names
unfolding connection_metrics names
connection-Kept [] = Kept-nil _
connection-Kept (row ∷ rows) = Kept-refl _

depth-Kept :
    (depths : List (Label × ℤ))
    → Kept (names (depth_metrics depths)) ("polypy_router_queue_depth" ∷ [])
unfolding names
depth-Kept [] = Kept-nil _
depth-Kept (d ∷ depths) = Kept-refl _

downtime-Kept :
    (avg : Number)
    → Kept (names (downtime_metrics avg)) ("polypy_recycler_avg_downtime_seconds" ∷ [])
unfolding names
downtime-Kept avg =
    if-elim (λ (l : List Metric). Kept (names l) ("polypy_recycler_avg_downtime_seconds" ∷ []))
      (is_positive avg) (λ _. Kept-refl _) (λ _. Kept-nil _)

router-Kept : (r : Option RouterCounts) → Kept (names (router_metrics r)) router_names
unfolding router_metrics names
router-Kept none = Kept-nil _
router-Kept (some r) = rw (names-append (depth_metrics r.queue_depths) _) (
    kept _
      (kept _ (kept _ (kept _ (kept _ (Kept-append (depth-Kept r.queue_depths) (Kept-refl _)))))))

worker-Kept : (w : Option WorkersCounts) → Kept (names (worker_metrics w)) worker_names
unfolding worker_metrics names
worker-Kept none = Kept-nil _
worker-Kept (some w) = Kept-refl _

worker_detail-Kept :
    (rows : List (ℕ × WorkerRow)) → Kept (names (worker_detail_metrics rows)) worker_detail_names
unfolding worker_detail_metrics names
worker_detail-Kept [] = Kept-nil _
worker_detail-Kept (row ∷ rows) = Kept-refl _

lifecycle-Kept : (l : Option LifecycleCounts) → Kept (names (lifecycle_metrics l)) lifecycle_names
unfolding lifecycle_metrics names
lifecycle-Kept none = Kept-nil _
lifecycle-Kept (some l) = Kept-refl _

recycler-Kept : (r : Option RecyclerCounts) → Kept (names (recycler_metrics r)) recycler_names
unfolding recycler_metrics names
recycler-Kept none = Kept-nil _
recycler-Kept (some r) = rw (names-append (downtime_metrics r.avg_downtime_ms) _) (
    kept _ (kept _ (kept _ (kept _ (Kept-append (downtime-Kept r.avg_downtime_ms) (Kept-refl _))))))

-- Whatever the statistics, the names that a scrape declares are some of the 35 names of `all_names`, in
-- that order, so that no name is declared twice in its registry.
pub collect_metrics-Distinct :
    (stats : AppStats)
    → Kept (names (collect_metrics stats)) all_names × Distinct (names (collect_metrics stats))
unfolding collect_metrics
collect_metrics-Distinct stats =
    let all =
      joined _ _
        (joined _ _
          (joined _ _
            (joined _ _
              (joined _ _
                (joined _ _
                  (joined _ _ (joined _ _ (application-Kept stats) (registry-Kept stats.registry))
                    (pool-Kept stats.pool))
                  (connection-Kept (rows_of stats.pool)))
                (router-Kept stats.router))
              (worker-Kept stats.workers))
            (worker_detail-Kept (workers_of stats.workers)))
          (lifecycle-Kept stats.lifecycle))
        (recycler-Kept stats.recycler) in
    (all, Distinct-Kept all all_names-Distinct)
