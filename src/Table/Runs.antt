-- ===== src/Table/Runs.antt =====
-- `_fmt_bytes`, `_fmt` and `compare` of common/metrics_diff.py. A format of Python's is a parameter;
-- every metric that `measure` can leave out is none.
use spark_dev.Base.{ℕ, zero, suc, List, [], ◌∷◌, ◌++◌, map, some, none, Option}
use spark_dev.Base.Text.{Text, codes}
use spark_dev.IcebergMeta.{Size, human_from}
use spark_dev.MetricsDiff.Calls.{Metrics}
use spark_dev.Table.{row, separator, column_widths, widest, ljust}

-- `{size:.1f} {unit}`, `{v:,}`, `{v:.2f} s`, `{v:,.0f} ms`, `{v:.1f}×`, and `_fmt_bytes` of a float
pub record Formats (Float : Type 0) : Type 0 where
  pub size : Size → Text
  pub grouped : ℕ → Text
  pub seconds : Float → Text
  pub milliseconds : Float → Text
  pub ratio : Float → Text
  pub float_bytes : Float → Text

module _ {Float : Type 0} (f : Formats Float) where
  -- `_fmt_bytes`
  unfoldable pub format_bytes : ℕ → Text
  unfolding human_from
  format_bytes zero = codes "0 B"
  format_bytes (suc n) = f.size (human_from (suc n) 0 4)

  -- `_fmt`, for the format of a kind
  unfoldable pub format : {V : Type 0} → (V → Text) → Option V → Text
  format g none = codes "—"
  format g (some v) = g v

  abbrev metric_names : List Text
  metric_names =
      codes "Wall-clock runtime"
      ∷ codes "Tasks"
      ∷ codes "Shuffle read"
      ∷ codes "Shuffle write"
      ∷ codes "Spill (memory)"
      ∷ codes "Spill (disk)"
      ∷ codes "Task time — median"
      ∷ codes "Task time — max"
      ∷ codes "Skew (max ÷ median)"
      ∷ codes "Peak exec memory"
      ∷ []

  -- the cells of a row of `_ROWS`
  abbrev cells :
      {V : Type 0} → (V → Text) → (Metrics Float → Option V) → List (Metrics Float) → List Text
  unfolding format
  cells g field rs = map (λ r. format g (field r)) rs

  unfoldable pub metric_rows : ℕ → List ℕ → List (Metrics Float) → List Text
  unfolding row cells format_bytes
  metric_rows w ws rs =
      row w ws (codes "Wall-clock runtime") (cells f.seconds (λ r. some r.runtime_s) rs)
      ∷ row w ws (codes "Tasks") (cells f.grouped (λ r. r.num_tasks) rs)
      ∷ row w ws (codes "Shuffle read") (cells format_bytes (λ r. r.shuffle_read_bytes) rs)
      ∷ row w ws (codes "Shuffle write") (cells format_bytes (λ r. r.shuffle_write_bytes) rs)
      ∷ row w ws (codes "Spill (memory)") (cells format_bytes (λ r. r.spill_mem_bytes) rs)
      ∷ row w ws (codes "Spill (disk)") (cells format_bytes (λ r. r.spill_disk_bytes) rs)
      ∷ row w ws (codes "Task time — median") (cells f.milliseconds (λ r. r.task_time_median_ms) rs)
      ∷ row w ws (codes "Task time — max") (cells f.milliseconds (λ r. r.task_time_max_ms) rs)
      ∷ row w ws (codes "Skew (max ÷ median)") (cells f.ratio (λ r. r.skew_ratio) rs)
      ∷ row w ws (codes "Peak exec memory") (cells f.float_bytes (λ r. r.peak_mem_max_bytes) rs)
      ∷ []

  -- the lines on tags, which `measure` always sets
  unfoldable pub tag_lines : List (Metrics Float) → List Text
  unfolding ljust
  tag_lines [] = []
  tag_lines (r ∷ rs) = (codes "  " ++ ljust 28 r.label ++ codes " tag: " ++ r.tag) ∷ tag_lines rs

  unfoldable pub compare : List (Metrics Float) → List Text
  unfolding metric_rows separator widest tag_lines row
  compare [] = codes "compare(): nothing to show — pass a list of measure() results." ∷ []
  compare (r ∷ rs) =
      let labels = map (λ (m : Metrics Float). m.label) (r ∷ rs) in
      let ws = column_widths labels in
      let w = widest metric_names in
      (row w ws (codes "Metric") labels ∷ separator w ws ∷ metric_rows w ws (r ∷ rs))
      ++ (codes "\nFind each run in the Spark UI → Jobs tab → filter by tag:" ∷ tag_lines (r ∷ rs))

  -- `diff`
  abbrev pub diff : Metrics Float → Metrics Float → List Text
  unfolding compare
  diff before after = compare (before ∷ after ∷ [])
