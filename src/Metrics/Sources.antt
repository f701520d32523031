-- ===== src/Metrics/Sources.antt =====
-- The metrics of the application, the registry, the pool and its connections
-- (src/metrics/prometheus.py).
use polypy.Prelude.{◌*◌, String, Option, none, some, List, [], ◌∷◌, map, ltb, if◌then◌else◌}
use polypy.Prelude.Int.{pos}
use polypy.Connection.{ConnectionStatus, disconnected, connecting, connected, draining, closed}
use polypy.Pool.{ConnectionRow}
use polypy.App.Stats.{Number, text, whole, RegistryCounts, PoolCounts, AppStats}
use polypy.Metrics.{Kind, gauge, counter, value, Setting, Metric, single, setting, flag}

unfoldable pub application_metrics : AppStats → List Metric
application_metrics stats =
    single gauge "polypy_application_running" (whole (flag stats.running)) ∷ []

unfoldable pub registry_metrics : Option RegistryCounts → List Metric
registry_metrics none = []
registry_metrics (some r) =
    record {
      kind = gauge;
      name = "polypy_registry_markets_total";
      label_names = "status" ∷ [];
      settings =
          setting (text "total" ∷ []) r.total_markets
          ∷ setting (text "pending" ∷ []) r.pending
          ∷ setting (text "subscribed" ∷ []) r.subscribed
          ∷ setting (text "expired" ∷ []) r.expired
          ∷ [];
    }
    ∷ []

unfoldable pub pool_metrics : Option PoolCounts → List Metric
pool_metrics none = []
pool_metrics (some p) =
    record {
      kind = gauge;
      name = "polypy_pool_connections";
      label_names = "type" ∷ [];
      settings =
          setting (text "total" ∷ []) p.connection_count
          ∷ setting (text "active" ∷ []) p.active_connections
          ∷ [];
    }
    ∷ single gauge "polypy_pool_capacity" (whole p.total_capacity)
    ∷ []

abbrev pub status_name : ConnectionStatus → String
status_name disconnected = "DISCONNECTED"
status_name connecting = "CONNECTING"
status_name connected = "CONNECTED"
status_name draining = "DRAINING"
status_name closed = "CLOSED"

-- a metric with a value for each connection
abbrev pub per_connection : Kind → String → (ConnectionRow → Number) → List ConnectionRow → Metric
per_connection kind name f rows = record {
  kind = kind;
  name = name;
  label_names = "connection_id" ∷ [];
  settings =
      map (λ row. record { labels = text row.connection_id ∷ []; field = value; number = f row })
        rows;
}

-- messages / age_seconds, of a connection that is not new; the age is in milliseconds
unfoldable pub message_rates : List ConnectionRow → List Setting
message_rates [] = []
message_rates (row ∷ rows) =
    let rates = message_rates rows in
    if ltb 0 row.age
    then record {
      labels = text row.connection_id ∷ [];
      field = value;
      number = record { num = pos (1000 * row.messages_received); den = row.age };
    }
      ∷ rates
    else rates

unfoldable pub market_settings : List ConnectionRow → List Setting
market_settings [] = []
market_settings (row ∷ rows) =
    setting (text row.connection_id ∷ text "total" ∷ []) row.total_markets
    ∷ setting (text row.connection_id ∷ text "subscribed" ∷ []) row.subscribed_markets
    ∷ setting (text row.connection_id ∷ text "expired" ∷ []) row.expired_markets
    ∷ market_settings rows

unfoldable pub connection_metrics : List ConnectionRow → List Metric
unfolding message_rates market_settings
connection_metrics [] = []
connection_metrics (row ∷ rows) =
    let all = row ∷ rows in
    per_connection counter "polypy_connection_messages_received_total"
      (λ r. whole r.messages_received) all
    ∷ per_connection counter "polypy_connection_bytes_received_total" (λ r. whole r.bytes_received)
        all
    ∷ per_connection counter "polypy_connection_parse_errors_total" (λ r. whole r.parse_errors) all
    ∷ per_connection counter "polypy_connection_reconnects_total" (λ r. whole r.reconnect_count) all
    ∷ record {
      kind = gauge;
      name = "polypy_connection_message_rate";
      label_names = "connection_id" ∷ [];
      settings = message_rates all;
    }
    ∷ record {
      kind = gauge;
      name = "polypy_connection_healthy";
      label_names = "connection_id" ∷ "status" ∷ [];
      settings =
          map
            (λ r.
              setting (text r.connection_id ∷ text (status_name r.status) ∷ []) (flag r.is_healthy))
            all;
    }
    ∷ record {
      kind = gauge;
      name = "polypy_connection_markets_total";
      label_names = "connection_id" ∷ "type" ∷ [];
      settings = market_settings all;
    }
    ∷ per_connection gauge "polypy_connection_pollution_ratio"
        (λ r. record { num = pos r.pollution_ratio.num; den = r.pollution_ratio.den }) all
    ∷ []
