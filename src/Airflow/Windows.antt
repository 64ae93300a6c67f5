-- ===== src/Airflow/Windows.antt =====
-- af2_execution_model.py under airflow/dags: the window that a task takes from the clock, and the
-- one that it takes from its data interval.
use spark_dev.Base.{ℕ, ◌≡◌, ◌↔◌, refl, ap}

-- a datetime in UTC
pub record DateTime : Type 0 where
  pub date : ℕ
  pub hour : ℕ
  pub minute : ℕ
  pub second : ℕ
  pub microsecond : ℕ

pub record Window : Type 0 where
  pub win_start : DateTime
  pub win_end : DateTime

-- `now` is the answer of `datetime.now`.
unfoldable pub window_from_now : DateTime → Window
window_from_now now = record {
  win_start = record { date = now.date; hour = 0; minute = 0; second = 0; microsecond = 0 };
  win_end = record { date = now.date; hour = 23; minute = 59; second = 59; microsecond = 0 };
}

-- the interval of the run's context; the clock is only printed
unfoldable pub window_from_interval : DateTime → DateTime → DateTime → Window
window_from_interval di_start di_end now = record { win_start = di_start; win_end = di_end }

-- Two runs for one interval have the same window, whenever they run; two that take it from the
-- clock have the same window if and only if they run on the same day.
pub reproducible :
    (di_start di_end now later : DateTime)
    → (window_from_interval di_start di_end now ≡ window_from_interval di_start di_end later)
      × ((window_from_now now ≡ window_from_now later) ↔ (now.date ≡ later.date))
unfolding window_from_now window_from_interval
reproducible di_start di_end now later = (
  refl,
  (
    λ e. ap (λ (w : Window). w.win_start.date) e,
    λ e.
        ap
          (λ d. record {
            win_start = record { date = d; hour = 0; minute = 0; second = 0; microsecond = 0 };
            win_end = record { date = d; hour = 23; minute = 59; second = 59; microsecond = 0 };
          })
          e,
  ),
)
