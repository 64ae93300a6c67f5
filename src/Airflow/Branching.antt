-- ===== src/Airflow/Branching.antt =====
-- af6_trigger_rules_branching.py under airflow/dags: the branch, its two arms, the join and the
-- gate.
use spark_dev.Base.{
  ℕ, ◌+◌, ◌%◌, ◌==◌, Bool, true, false, not, ◌≡◌, ◌≢◌, inl, inr, refl, sym, ap, ◌∙◌, String, List,
  [], ◌∷◌, any, if◌then◌else◌, str_eq, arith,
}
use spark_dev.Base.Text.{Text}
use spark_dev.Airflow.Graph.{
  Rule, all_success, none_failed_min_one_success, IsClear, State, success, skipped, Decision, run,
  upstream, downstream, IsAirflow, settle, IsRun,
}
use spark_dev.Airflow.Dags.Promotion.{first_success, next_success}
use spark_dev.Airflow.Dags.{af6_graph}

-- `sum(ord(c) for c in ds)`
unfoldable pub sum_ord : Text → ℕ
sum_ord [] = 0
sum_ord (c ∷ ds) = c + sum_ord ds

unfoldable pub row_count_for_interval : Text → ℕ
row_count_for_interval ds = 100 + sum_ord ds % 7

unfoldable pub pick_branch : Text → String
pick_branch ds =
    if row_count_for_interval ds % 2 == 0 then "run_full_refresh" else "run_incremental"

unfoldable pub gate : Text → Bool
gate ds = row_count_for_interval ds % 2 == 0

-- Airflow's documented skips: a branch skips the tasks right after it other than the one that it
-- names, and a short circuit skips those after it when it returns False.
unfoldable pub skips : Text → String → Bool
unfolding downstream
skips ds t =
    if any (str_eq t) (downstream "pick_branch" af6_graph.edges)
    then not (str_eq t (pick_branch ds))
    else if any (str_eq t) (downstream "gate" af6_graph.edges)
    then not (gate ds)
    else false

-- the bodies of the tasks only compute, print and return
abbrev pub no_body_raises : String → Bool
no_body_raises t = true

pub success-IsClear : IsClear success
success-IsClear = (λ e. ground arith, λ e. ground arith)

pub skipped-IsClear : IsClear skipped
skipped-IsClear = (λ e. ground arith, λ e. ground arith)

pub skipped≢success : skipped ≢ success
skipped≢success e = ground arith

module _ (decide : Rule → List State → Decision) (laws : IsAirflow decide) where
  -- Each arm alone lets the join run, and the default rule would not.
  abbrev Joins : State → State → Type 0
  Joins full incr =
      (settle (decide none_failed_min_one_success (full ∷ incr ∷ [])) true ≡ success)
      × (decide all_success (full ∷ incr ∷ []) ≢ run)

  full-Joins : Joins success skipped
  full-Joins = (
    ap (λ d. settle d true)
        ((laws.runs_min_one (success ∷ skipped ∷ [])).1
          ((success-IsClear, (skipped-IsClear, tt)), inl refl)),
    λ d. skipped≢success ((laws.runs_all_success (success ∷ skipped ∷ [])).0 d).1.0,
  )

  incr-Joins : Joins skipped success
  incr-Joins = (
    ap (λ d. settle d true)
        ((laws.runs_min_one (skipped ∷ success ∷ [])).1
          ((skipped-IsClear, (success-IsClear, tt)), inr (inl refl))),
    λ d. skipped≢success ((laws.runs_all_success (skipped ∷ success ∷ [])).0 d).0,
  )

  -- A task with the default rule and a body that does not raise succeeds when it is the first, or
  -- follows a task that succeeded.
  starts : (s : State) → s ≡ settle (decide all_success []) true → s ≡ success
  starts s h = (first_success decide laws s true h).1 refl

  follows :
      (before s : State)
      → before ≡ success
      → s ≡ settle (decide all_success (before ∷ [])) true
      → s ≡ success
  follows before s e h = (next_success decide laws before s true h).1 (e, refl)

  joined :
      (full incr join a b : State)
      → full ≡ a
      → incr ≡ b
      → Joins a b
      → join ≡ settle (decide none_failed_min_one_success (full ∷ incr ∷ [])) true
      → (join ≡ success) × (decide all_success (full ∷ incr ∷ []) ≢ run)
  joined full incr join a b f i (runs, no_run) j = (cc, λ d. no_run cc)

  -- One arm runs, the other is skipped; the join runs, which the default rule would not allow; the
  -- task behind the gate ends like the full refresh.
  abbrev pub OneArmRuns : Bool → (String → State) → Type 0
  OneArmRuns even final =
      (final "run_full_refresh" ≡ (if even then success else skipped))
      × (final "run_incremental" ≡ (if even then skipped else success))
      × (final "join_after_branch" ≡ success)
      × (decide all_success (final "run_full_refresh" ∷ final "run_incremental" ∷ []) ≢ run)
      × (final "after_gate" ≡ final "run_full_refresh")

  -- In a run of af6_trigger_rules_branching for any date, one arm of the branch succeeds and the
  -- other is skipped, the full refresh on an even row count; the join succeeds, where the default
  -- rule would not run it; and the task behind the gate ends as the full refresh does.
  pub one_arm_runs :
      (ds : Text) (final : String → State)
      → IsRun decide (skips ds) no_body_raises af6_graph final
      → OneArmRuns (row_count_for_interval ds % 2 == 0) final
  unfolding upstream downstream skips pick_branch gate
  one_arm_runs ds final h = ends (row_count_for_interval ds % 2 == 0) h
    where
      ends :
          (even : Bool)
          → IsRun decide
              (λ t.
                if any (str_eq t) ("run_full_refresh" ∷ "run_incremental" ∷ [])
                then not (str_eq t (if even then "run_full_refresh" else "run_incremental"))
                else if any (str_eq t) ("after_gate" ∷ [])
                then not even
                else false)
              no_body_raises
              af6_graph
              final
          → OneArmRuns even final
      ends true (p, (f, (i, (j, (g, (a, _)))))) =
          let full =
            follows (final "pick_branch") (final "run_full_refresh")
              (starts (final "pick_branch") p) f in
          let (join, no_run) =
            joined (final "run_full_refresh") (final "run_incremental") (final "join_after_branch")
              success skipped full i full-Joins j in
          (
            full,
            i,
            join,
            no_run,
            follows (final "gate") (final "after_gate") (starts (final "gate") g) a ∙ sym full,
          )
      ends false (p, (f, (i, (j, (g, (a, _)))))) =
          let incr =
            follows (final "pick_branch") (final "run_incremental") (starts (final "pick_branch") p)
              i in
          let (join, no_run) =
            joined (final "run_full_refresh") (final "run_incremental") (final "join_after_branch")
              skipped success f incr incr-Joins j in
          (f, incr, join, no_run, a ∙ sym f)
