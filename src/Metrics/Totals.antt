-- ===== src/Metrics/Totals.antt =====
-- What the metrics of a scrape say of the components (src/metrics/prometheus.py, src/app.py,
-- src/worker/manager.py).
use polypy.Prelude.{ℕ, ◌*◌, ◌≡◌, refl, Bool, some, List, [], ◌∷◌, eqb, if-elim}
use polypy.Prelude.Int.{pos}
use polypy.SortedDict.{SortedDict}
use polypy.Messages.{Floats}
use polypy.Worker.{WorkerStats}
use polypy.Worker.Manager
use polypy.Worker.Manager.{WorkerManager, put_worker}
use polypy.App.Stats.{Number, Components, times, workers_counts, get_stats}
use polypy.Metrics.Collector.{worker_detail_metrics, workers_of}
use polypy.Metrics.Names.{names, worker_detail_names}

-- two quotients of one number, for denominators that are not 0
infix 50 ◌≈◌
abbrev pub ◌≈◌ : Number → Number → Type 0
x ≈ y = times y.den x.num ≡ times x.den y.num

times_pos : (k n : ℕ) → times k (pos n) ≡ pos (k * n)
unfolding times
times_pos k n = refl

-- what is in the dictionary of the reports stays there
get_stats_fills :
    (reports : List (ℕ × WorkerStats)) (row : ℕ × WorkerStats) (rows : List (ℕ × WorkerStats))
    → (row' : ℕ × WorkerStats) × (rows' : List (ℕ × WorkerStats)) × (Manager.get_stats reports
          (row ∷ rows)
        ≡ row' ∷ rows')
unfolding Manager.get_stats put_worker
get_stats_fills [] row rows = (row, rows, refl)
get_stats_fills ((w, report) ∷ reports) (v, old) rows =
    if-elim
      (λ (d : List (ℕ × WorkerStats)).
        (row' : ℕ × WorkerStats) × (rows' : List (ℕ × WorkerStats)) × (Manager.get_stats reports d
          ≡ row' ∷ rows'))
      (eqb v w) (λ _. get_stats_fills reports (v, report) rows)
      (λ _. get_stats_fills reports (v, old) (put_worker w report rows))

module _ (S : SortedDict) (F : Floats) where
  all_details :
      (m : WorkerManager F) (reports : List (ℕ × WorkerStats)) (row : ℕ × WorkerStats)
      (rows : List (ℕ × WorkerStats))
      → Manager.get_stats reports [] ≡ row ∷ rows
      → names (worker_detail_metrics (workers_counts S F (m, reports)).worker_stats)
        ≡ worker_detail_names
  unfolding workers_counts
  all_details m reports row rows e = rw e (unfold worker_detail_metrics names in refl)

  -- One scrape takes the reports of the workers from their queue, and nothing keeps them: if no worker
  -- reports in between, the next scrape has none of the metrics of single workers, all of which
  -- the first had if there was a report.
  pub next_scrape_forgets :
      (now later : ℕ) (qsize : Bool) (a : Components S F) (m : WorkerManager F) (w : ℕ)
      (report : WorkerStats) (reports : List (ℕ × WorkerStats))
      → a.workers ≡ some (m, (w, report) ∷ reports)
      → let (a', first) = get_stats S F now qsize a in
        let (_, second) = get_stats S F later qsize a' in
        (names (worker_detail_metrics (workers_of first.workers)) ≡ worker_detail_names)
        × (worker_detail_metrics (workers_of second.workers) ≡ [])
  unfolding get_stats worker_detail_metrics
  next_scrape_forgets now later qsize a m w report reports there =
      let (row, rows, filled) = get_stats_fills reports (w, report) [] in
      rw there (all_details m ((w, report) ∷ reports) row rows filled, refl)
