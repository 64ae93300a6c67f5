-- ===== src/MetricsDiff/Measure.antt =====
-- `measure` of common/metrics_diff.py. Sleeps are in milliseconds.
pub mod Degrades
use spark_dev.Base.{
  ℕ, zero, suc, Bool, true, false, Option, none, some, List, [], ◌∷◌, if◌then◌else◌,
}
use spark_dev.Base.Text.{Text}
use spark_dev.Base.Effect.{Run, perform, attempt, pure, raise, catch, ◌>>=◌, ◌>>◌}
use spark_dev.MetricsDiff.Calls.{
  Floats, Call, applications, completed_stages, task_summary, add_tag, remove_tag, clear_tags,
  perf_counter, action, sleep, Summary, Answer, done, app_ids, stages, summary, instant, Metrics,
}
use spark_dev.MetricsDiff.Tag.{tag_safe}
use spark_dev.MetricsDiff.Stages.{Stage, stage_ids, new_stages, total_of, heaviest, or_zero}

module _ (F : Floats) where
  abbrev pub Measured : Type 0 → Type 0
  Measured A = Run Call (Answer F.Float) A

  abbrev first_app : Answer F.Float → Measured Text
  first_app (app_ids (a ∷ ids)) = pure a
  first_app (app_ids []) = raise
  first_app done = raise
  first_app (stages ss) = raise
  first_app (summary s) = raise
  first_app (instant t) = raise

  abbrev stages_of : Answer F.Float → Measured (List Stage)
  stages_of (stages ss) = pure ss
  stages_of (app_ids ids) = raise
  stages_of done = raise
  stages_of (summary s) = raise
  stages_of (instant t) = raise

  abbrev summary_of : Answer F.Float → Measured (Summary F.Float)
  summary_of (summary s) = pure s
  summary_of (app_ids ids) = raise
  summary_of done = raise
  summary_of (stages ss) = raise
  summary_of (instant t) = raise

  abbrev instant_of : Answer F.Float → Measured F.Float
  instant_of (instant t) = pure t
  instant_of (app_ids ids) = raise
  instant_of done = raise
  instant_of (stages ss) = raise
  instant_of (summary s) = raise

  abbrev or_raise : {A : Type 0} → Option A → Measured A
  or_raise none = raise
  or_raise (some a) = pure a

  unfoldable pub app_id : Measured Text
  app_id = do a ← perform applications; first_app a

  unfoldable pub completed : Text → Measured (List Stage)
  completed app = do a ← perform (completed_stages app); stages_of a

  -- the first `try`: `app_id` stays set when reading the stages raises
  unfoldable pub app_before : Measured (Option Text)
  unfolding app_id
  app_before = catch (do a ← app_id; pure (some a)) (pure none)

  unfoldable pub ids_before : Option Text → Measured (List ℕ)
  unfolding completed
  ids_before none = pure []
  ids_before (some app) = catch (do ss ← completed app; or_raise (stage_ids ss)) (pure [])

  unfoldable pub tag_jobs : Text → Measured Bool
  tag_jobs tag = catch (do perform (add_tag tag); pure true) (pure false)

  -- the `finally`; the argument is `hasattr(spark, "removeTag")`
  unfoldable pub untag_jobs : Bool → Text → Bool → Measured (Unit {0})
  untag_jobs has_remove tag true =
      catch (do perform (if has_remove then remove_tag tag else clear_tags); pure tt) (pure tt)
  untag_jobs has_remove tag false = pure tt

  -- the loop over `_SETTLE_RETRIES`, with the last list read
  unfoldable pub settle : Text → List ℕ → ℕ → List Stage → Measured (List Stage)
  unfolding completed
  settle app before zero last = pure last
  settle app before (suc n) last = do
    ss ← completed app
    new ← or_raise (new_stages before ss)
    elim new [ [] ↦ do perform (sleep 500); settle app before n [] | s ∷ ss' ↦ pure (s ∷ ss') ]

  abbrev with_times : Option (List F.Float) → Metrics F.Float → Metrics F.Float
  with_times (some (median ∷ p75 ∷ mx ∷ more)) m = record m {
    task_time_median_ms = some (F.round median 1);
    task_time_max_ms = some (F.round mx 1);
    skew_ratio = if F.is_zero median then none else some (F.round (F.divide mx median) 1);
  }
  with_times none m = m
  with_times (some []) m = m
  with_times (some (a ∷ [])) m = m
  with_times (some (a ∷ b ∷ [])) m = m

  abbrev last_of : F.Float → List F.Float → F.Float
  last_of a [] = a
  last_of a (b ∷ bs) = last_of b bs

  abbrev with_peak : Option (List F.Float) → Metrics F.Float → Metrics F.Float
  with_peak none m = m
  with_peak (some []) m = m
  with_peak (some (a ∷ xs)) m = record m { peak_mem_max_bytes = some (last_of a xs) }

  -- the sums over the new stages
  unfoldable pub with_totals : List Stage → Metrics F.Float → Metrics F.Float
  with_totals ss m = record m {
    num_tasks = some (total_of (λ s. s.num_tasks) ss);
    shuffle_read_bytes = some (total_of (λ s. s.shuffle_read_bytes) ss);
    shuffle_write_bytes = some (total_of (λ s. s.shuffle_write_bytes) ss);
    spill_mem_bytes = some (total_of (λ s. s.memory_bytes_spilled) ss);
    spill_disk_bytes = some (total_of (λ s. s.disk_bytes_spilled) ss);
  }

  -- the inner `try`, from the heavy stage
  unfoldable pub with_summary : Text → Stage → Metrics F.Float → Measured (Metrics F.Float)
  with_summary app heavy m =
      catch
        (do
          i ← or_raise heavy.stage_id
          a ← perform (task_summary app i (or_zero heavy.attempt_id))
          ts ← summary_of a
          pure (with_peak ts.peak_execution_memory (with_times ts.executor_run_time m)))
        (pure m)

  -- the outer `try`
  unfoldable pub with_stages : Text → List ℕ → Metrics F.Float → Measured (Metrics F.Float)
  unfolding settle with_totals with_summary
  with_stages app before m =
      catch
        (do
          new ← settle app before 6 []
          elim new [
            | [] ↦ pure m
            | s ∷ ss ↦ with_summary app (heaviest s ss) (with_totals (s ∷ ss) m)
          ])
        (pure m)

  abbrev wall_clock : Text → Text → F.Float → Metrics F.Float
  wall_clock label tag runtime = record {
    label = label;
    tag = tag;
    runtime_s = F.round runtime 2;
    num_tasks = none;
    shuffle_read_bytes = none;
    shuffle_write_bytes = none;
    spill_mem_bytes = none;
    spill_disk_bytes = none;
    task_time_median_ms = none;
    task_time_max_ms = none;
    skew_ratio = none;
    peak_mem_max_bytes = none;
  }

  abbrev add_stages : Option Text → List ℕ → Metrics F.Float → Measured (Metrics F.Float)
  add_stages none before m = pure m
  add_stages (some app) before m = with_stages app before m

  unfoldable pub measure : Bool → Text → Measured (Metrics F.Float)
  unfolding app_before ids_before tag_jobs untag_jobs with_stages tag_safe
  measure has_remove label = do
    app ← app_before
    before ← ids_before app
    tagged ← tag_jobs (tag_safe label)
    a ← perform perf_counter
    t0 ← instant_of a
    ran ← attempt action
    untag_jobs has_remove (tag_safe label) tagged
    or_raise ran
    b ← perform perf_counter
    t1 ← instant_of b
    add_stages app before (wall_clock label (tag_safe label) (F.minus t1 t0))
