-- ===== src/Airflow/Retries.antt =====
-- af4_retries_sla.py under airflow/dags: the retry policy, the two callbacks and the flaky task.
-- Airflow is not part of the repository; what it documents of retries is the relation `Attempts`.
use spark_dev.Base.{
  ℕ, suc, ◌≤◌, ◌<◌, Bool, true, false, not, ◌≡◌, ◌↔◌, refl, sym, ap, String, List, [], ◌∷◌, leb,
  arith,
}
use mathlib.Core.Bool.{true≢false}
use mathlib.Core.Path.{subst}
use spark_dev.Airflow.Graph.{State, success, failed}

-- what the callbacks print
pub data Alert : Type 0 where
  retrying : String → ℕ → Alert
  failed_after_retries : String → ℕ → Alert

unfoldable pub alert_on_retry : String → ℕ → Alert
alert_on_retry task_id try_number = retrying task_id try_number

unfoldable pub alert_on_failure : String → ℕ → Alert
alert_on_failure task_id try_number = failed_after_retries task_id try_number

-- The delays are in seconds.
pub record RetryPolicy : Type 0 where
  pub retries : ℕ
  pub retry_delay : ℕ
  pub retry_exponential_backoff : Bool
  pub max_retry_delay : ℕ
  pub on_retry_callback : String → ℕ → Alert
  pub on_failure_callback : String → ℕ → Alert

abbrev pub default_args : RetryPolicy
default_args = record {
  retries = 3;
  retry_delay = 1;
  retry_exponential_backoff = true;
  max_retry_delay = 10;
  on_retry_callback = alert_on_retry;
  on_failure_callback = alert_on_failure;
}

-- `flaky_extract` at an attempt: whether it returns
unfoldable pub flaky_extract : ℕ → Bool
flaky_extract attempt = not (leb attempt 2)

-- The attempts at a task from the n-th on, with the alerts and the state at the end: a task that
-- raises is tried again while retries are left.
pub data Attempts (policy : RetryPolicy) (task_id : String) (body : ℕ → Bool)
    : ℕ → List Alert → State → Type 0 where
  done : {n : ℕ} → body n ≡ true → Attempts policy task_id body n [] success
  again :
      {n : ℕ} {alerts : List Alert} {s : State}
      → body n ≡ false
      → n ≤ policy.retries
      → Attempts policy task_id body (suc n) alerts s
      → Attempts policy task_id body n (policy.on_retry_callback task_id n ∷ alerts) s
  given_up :
      {n : ℕ}
      → body n ≡ false
      → policy.retries < n
      → Attempts policy task_id body n (policy.on_failure_callback task_id n ∷ []) failed

abbrev FlakyAttempts : ℕ → List Alert → State → Type 0
FlakyAttempts = Attempts default_args "flaky_extract" flaky_extract

abbrev flaky_alerts : List Alert
flaky_alerts = alert_on_retry "flaky_extract" 1 ∷ alert_on_retry "flaky_extract" 2 ∷ []

from_third :
    {alerts : List Alert} {s : State} → FlakyAttempts 3 alerts s → (alerts ≡ []) × (s ≡ success)
unfolding flaky_extract
from_third (done e) = (refl, refl)
from_third (again e l a) = absurd (true≢false e)
from_third (given_up e l) = absurd (true≢false e)

from_second :
    {alerts : List Alert} {s : State}
    → FlakyAttempts 2 alerts s
    → (alerts ≡ alert_on_retry "flaky_extract" 2 ∷ []) × (s ≡ success)
unfolding flaky_extract
from_second (done e) = absurd (true≢false (sym e))
from_second (again e l a) =
    let (none_left, ends) = from_third a in
    (ap (λ rest. alert_on_retry "flaky_extract" 2 ∷ rest) none_left, ends)
from_second (given_up e l) = absurd (omega (arith, l))

from_first :
    {alerts : List Alert} {s : State}
    → FlakyAttempts 1 alerts s
    → (alerts ≡ alert_on_retry "flaky_extract" 1 ∷ alert_on_retry "flaky_extract" 2 ∷ [])
      × (s ≡ success)
unfolding flaky_extract
from_first (done e) = absurd (true≢false (sym e))
from_first (again e l a) =
    let (one_left, ends) = from_second a in
    (ap (λ rest. alert_on_retry "flaky_extract" 1 ∷ rest) one_left, ends)
from_first (given_up e l) = absurd (omega (arith, l))

pub flaky_attempts :
    FlakyAttempts 1
      (alert_on_retry "flaky_extract" 1 ∷ alert_on_retry "flaky_extract" 2 ∷ [])
      success
unfolding flaky_extract
flaky_attempts = again refl (omega arith) (again refl (omega arith) (done refl))

-- With the retry policy of the file, the attempts at `flaky_extract` end, and in one way only: with
-- success after two alerts of a retry and no alert of a failure.
pub flaky_extract_recovers :
    (alerts : List Alert) (s : State)
    → Attempts default_args "flaky_extract" flaky_extract 1 alerts s ↔ (
        (alerts ≡ alert_on_retry "flaky_extract" 1 ∷ alert_on_retry "flaky_extract" 2 ∷ [])
        × (s ≡ success))
flaky_extract_recovers alerts s = (λ a. from_first a, back)
  where
    back :
        (alerts ≡ alert_on_retry "flaky_extract" 1 ∷ alert_on_retry "flaky_extract" 2 ∷ [])
          × (s ≡ success)
        → FlakyAttempts 1 alerts s
    back (a, e) =
        subst (λ l. FlakyAttempts 1 l s) (sym a)
          (subst (λ t. FlakyAttempts 1 flaky_alerts t) (sym e) flaky_attempts)
