-- ===== src/MetricsDiff/Measure/Degrades.antt =====
-- `measure` of common/metrics_diff.py against failures of the REST API and of the job tags.
use spark_dev.Base.{ℕ, ◌≡◌, Bool, true, false, Option, none, some, List, [], ◌∷◌}
use spark_dev.Base.Text.{Text}
use spark_dev.Base.Effect.{returns, Surroundings, Run, perform, ◌>>=◌, ◌>>◌}
use spark_dev.Base.Soft.{Soft, Soft-pure, Soft-bind, Soft-catch, Soft-answer, Soft-attempt}
use spark_dev.MetricsDiff.Tag.{tag_safe}
use spark_dev.MetricsDiff.Calls.{Floats, Call, perf_counter, action, Answer, instant, Metrics}
use spark_dev.MetricsDiff.Measure.{
  app_before, ids_before, tag_jobs, untag_jobs, with_stages, add_stages, measure, instant_of,
  or_raise, wall_clock,
}

-- The clock and the measured action do not raise; every other call may.
pub record Runs (F : Floats) (env : Surroundings Call (Answer F.Float)) : Type 0 where
  pub ticks : (h : List Call) → (t : F.Float) × (env (perf_counter ∷ h) ≡ some (instant t))
  pub acts : (h : List Call) → (a : Answer F.Float) × (env (action ∷ h) ≡ some a)

module _ (F : Floats) (env : Surroundings Call (Answer F.Float)) (runs : Runs F env) where
  app_before-Soft : Soft env (app_before F)
  unfolding app_before
  app_before-Soft = Soft-catch env _ _ (Soft-pure env none)

  ids_before-Soft : (app : Option Text) → Soft env (ids_before F app)
  unfolding ids_before
  ids_before-Soft none = Soft-pure env []
  ids_before-Soft (some app) = Soft-catch env _ _ (Soft-pure env [])

  untag_jobs-Soft :
      (has_remove : Bool) (tag : Text) (tagged : Bool)
      → Soft env (untag_jobs F has_remove tag tagged)
  unfolding untag_jobs
  untag_jobs-Soft has_remove tag true = Soft-catch env _ _ (Soft-pure env tt)
  untag_jobs-Soft has_remove tag false = Soft-pure env tt

  add_stages-Soft :
      (app : Option Text) (before : List ℕ) (m : Metrics F.Float)
      → Soft env (add_stages F app before m)
  unfolding with_stages
  add_stages-Soft none before m = Soft-pure env m
  add_stages-Soft (some app) before m = Soft-catch env _ _ (Soft-pure env m)

  -- the end of the code, from the second reading of the clock
  abbrev finish :
      Option Text
      → List ℕ
      → Text
      → F.Float
      → Answer F.Float
      → Run Call (Answer F.Float) (Metrics F.Float)
  finish app before label t0 b =
      instant_of F b
      >>= (λ t1. add_stages F app before (wall_clock F label (tag_safe label) (F.minus t1 t0)))

  finish-Soft :
      (app : Option Text) (before : List ℕ) (label : Text) (t0 : F.Float)
      → Soft env (perform perf_counter >>= finish app before label t0)
  finish-Soft app before label t0 =
      Soft-answer env instant perf_counter (finish app before label t0) runs.ticks (λ t1.
        Soft-bind env _ _ (Soft-pure env t1)
          (λ t. add_stages-Soft app before (wall_clock F label (tag_safe label) (F.minus t t0))))

  measure-Soft : (has_remove : Bool) (label : Text) → Soft env (measure F has_remove label)
  unfolding measure tag_jobs
  measure-Soft has_remove label = Soft-bind env _ _ app_before-Soft (λ app.
      Soft-bind env _ _ (ids_before-Soft app) (λ before.
        Soft-bind env _ _ (Soft-catch env _ _ (Soft-pure env false)) (λ tagged.
          Soft-answer env instant perf_counter _ runs.ticks (λ t.
            Soft-bind env _ _ (Soft-pure env t) (λ t0.
              Soft-attempt env action
                (λ ran.
                  untag_jobs F has_remove (tag_safe label) tagged
                  >> (or_raise F ran >> (perform perf_counter >>= finish app before label t0)))
                runs.acts
                (λ a. Soft-bind env _ _ (untag_jobs-Soft has_remove (tag_safe label) tagged) (λ _.
                  Soft-bind env _ _ (Soft-pure env a) (λ _. finish-Soft app before label t0))))))))

-- If the clock and the measured action do not raise, `measure` returns metrics, whichever of the
-- other calls raise: the REST calls, the job tags, or the sleeps.
pub measure_degrades :
    (F : Floats) (env : Surroundings Call (Answer F.Float)) (runs : Runs F env) (has_remove : Bool)
    (label : Text) (h : List Call)
    → (m : Metrics F.Float) × ((measure F has_remove label env h).0 ≡ returns m)
measure_degrades F env runs has_remove label h = (measure-Soft F env runs has_remove label).at h
