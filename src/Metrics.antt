-- ===== src/Metrics.antt =====
-- The metrics of a scrape (src/metrics/prometheus.py). The package `prometheus_client` is not modelled: a
-- scrape is the metrics that the collector declares, in its order, each with the values that it
-- sets. A floating point number is kept as the quotient that it stands for. The fallbacks of the
-- source's `get(key, default)` do not occur, since `get_stats` gives every key of a dictionary or none.
pub mod Sources
pub mod Collector
pub mod Names
pub mod Totals
pub mod Tests
use polypy.Prelude.{
  ℕ, ◌*◌, String, Bool, true, false, Option, none, some, List, [], ◌∷◌, ◌++◌, length, map, ltb, eqb,
  if◌then◌else◌,
}
use polypy.Prelude.Int.{ℤ, pos, ltb_ℤ}
use polypy.Connection.{ConnectionStatus, disconnected, connecting, connected, draining, closed}
use polypy.Pool.{ConnectionRow}
use polypy.App.Stats.{
  Number, Label, text, numbered, whole, times, RegistryCounts, PoolCounts, RouterCounts, WorkerRow,
  WorkersCounts, LifecycleCounts, RecyclerCounts, AppStats,
}

pub data Kind : Type 0 where
  gauge counter summary : Kind

-- what is set: the value of a gauge or a counter, or one of the two numbers of a summary
pub data Field : Type 0 where
  value sum count : Field

-- one `set`, with the values of the labels
pub record Setting : Type 0 where
  pub labels : List Label
  pub field : Field
  pub number : Number

pub record Metric : Type 0 where
  pub kind : Kind
  pub name : String
  pub label_names : List String
  pub settings : List Setting

-- a metric without labels that is set once
abbrev pub single : Kind → String → Number → Metric
single kind name n = record {
  kind = kind;
  name = name;
  label_names = [];
  settings = record { labels = []; field = value; number = n } ∷ [];
}

abbrev pub setting : List Label → ℕ → Setting
setting labels n = record { labels = labels; field = value; number = whole n }

abbrev pub flag : Bool → ℕ
flag b = if b then 1 else 0

-- x > 0.0
abbrev pub is_positive : Number → Bool
is_positive x = ltb_ℤ (pos 0) x.num

-- x / k, and k * x
abbrev pub divide : Number → ℕ → Number
divide x k = record { num = x.num; den = x.den * k }

abbrev pub multiply : ℕ → Number → Number
multiply k x = record { num = times k x.num; den = x.den }

-- The sum and the count of a summary from an average and a count; `unit` of the average's unit are one
-- second. Nothing is set where there is nothing.
unfoldable pub summary_settings : List Label → ℕ → Number → ℕ → List Setting
unfolding times
summary_settings labels unit avg n =
    if eqb n 0
    then []
    else if is_positive avg
    then record { labels = labels; field = sum; number = multiply n (divide avg unit) }
      ∷ record { labels = labels; field = count; number = whole n }
      ∷ []
    else []
