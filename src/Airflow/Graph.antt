-- ===== src/Airflow/Graph.antt =====
-- The graphs of tasks that the files of airflow/dags declare: `DAG(…)`, `trigger_rule` and `>>`.
-- Airflow is not part of the repository. What the code relies on is the parameter `decide`, which
-- says from a task's trigger rule and the states of its upstream tasks whether the task runs, with
-- the documented meaning of the rules in use (`IsAirflow`).
pub mod Runs
use spark_dev.Base.{
  ℕ, Bool, true, false, ◌≡◌, ◌≢◌, ◌↔◌, Option, String, List, [], ◌∷◌, map, All, In, if◌then◌else◌,
  str_eq,
}
use spark_dev.Base.Text.{Text}

pub data Rule : Type 0 where
  all_success : Rule
  all_done : Rule
  none_failed_min_one_success : Rule

-- how a task ended
pub data State : Type 0 where
  success : State
  failed : State
  skipped : State
  upstream_failed : State

pub data Decision : Type 0 where
  run : Decision
  end_as : State → Decision

pub data Schedule : Type 0 where
  unscheduled : Schedule
  daily : Schedule
  on_asset : String → Schedule

-- the arguments of `with DAG(…)`, but for the documentation
pub record Dag : Type 0 where
  pub dag_id : String
  pub start_date : ℕ × ℕ × ℕ
  pub schedule : Schedule
  pub catchup : Bool
  pub tags : List String

-- a task; an operator's `bash_command`, if it has one
pub record Task : Type 0 where
  pub task_id : String
  pub trigger_rule : Rule
  pub bash_command : Option Text

pub record Graph : Type 0 where
  pub tasks : List Task
  pub edges : List (String × String)

-- `a >> b >> …`
abbrev pub chain_from : String → List String → List (String × String)
chain_from a [] = []
chain_from a (b ∷ rest) = (a, b) ∷ chain_from b rest

-- `a >> [b, …]`
abbrev pub fan_out : String → List String → List (String × String)
fan_out a [] = []
fan_out a (b ∷ rest) = (a, b) ∷ fan_out a rest

-- `[a, …] >> b`
abbrev pub fan_in : List String → String → List (String × String)
fan_in [] b = []
fan_in (a ∷ rest) b = (a, b) ∷ fan_in rest b

-- the tasks right before a task
unfoldable pub upstream : String → List (String × String) → List String
upstream t [] = []
upstream t ((a, b) ∷ edges) = if str_eq b t then a ∷ upstream t edges else upstream t edges

-- the tasks right after a task
unfoldable pub downstream : String → List (String × String) → List String
downstream t [] = []
downstream t ((a, b) ∷ edges) = if str_eq a t then b ∷ downstream t edges else downstream t edges

abbrev pub IsClear : State → Type 0
IsClear s = (s ≢ failed) × (s ≢ upstream_failed)

-- The documented meaning of the trigger rules.
pub record IsAirflow (decide : Rule → List State → Decision) : Type 0 where
  pub runs_all_success :
      (states : List State) → (decide all_success states ≡ run) ↔ All (λ s. s ≡ success) states
  pub runs_all_done : (states : List State) → decide all_done states ≡ run
  pub runs_min_one :
      (states : List State)
      → (decide none_failed_min_one_success states ≡ run) ↔ (All IsClear states × In success states)
  -- a task that does not run does not succeed
  pub ends_without_success :
      (rule : Rule) (states : List State) → decide rule states ≢ end_as success

abbrev pub state_of : Bool → State
state_of true = success
state_of false = failed

abbrev pub settle : Decision → Bool → State
settle run ok = state_of ok
settle (end_as s) ok = s

-- The states in which the tasks of a graph end, where `ok` says of a task whether it succeeds when
-- it runs, and `skips` whether an upstream branch or gate skips it.
abbrev pub IsRun :
    (Rule → List State → Decision)
    → (String → Bool)
    → (String → Bool)
    → Graph
    → (String → State)
    → Type 0
IsRun decide skips ok g final =
    All
      (λ (t : Task). final t.task_id ≡ (
        if skips t.task_id
        then skipped
        else settle (decide t.trigger_rule (map final (upstream t.task_id g.edges)))
            (ok t.task_id)))
      g.tasks

abbrev pub none_skipped : String → Bool
none_skipped t = false
