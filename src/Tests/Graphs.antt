-- ===== src/Tests/Graphs.antt =====
-- The graphs of the DAGs under airflow/dags, over a scheduler for their rules.
use mathlib.Core.Bool.{true≢false}
use spark_dev.Base.{
  sym, ◌≢◌, ◌≡◌, ◌↔◌, ◌%◌, ◌==◌, refl, ◌⊎◌, inl, inr, true, false, Bool, not, String, List, [], ◌∷◌,
  ◌&&◌, In, All, any, if◌then◌else◌, str_eq, arith,
}
use spark_dev.Base.Text.{Text, codes}
use spark_dev.Airflow.Graph.{
  Rule, all_success, all_done, none_failed_min_one_success, State, success, failed, skipped,
  upstream_failed, Decision, run, end_as, IsAirflow, IsClear, IsRun, none_skipped, state_of,
  upstream, downstream,
}
use spark_dev.Airflow.Dags.{af6_graph}
use spark_dev.Airflow.Dags.Pipelines.{af10_graph, cap1_graph}
use spark_dev.Airflow.Dags.Promotion.{af10_cleanup_last, cap1_gated}
use spark_dev.Airflow.Branching.{
  row_count_for_interval, pick_branch, gate, skips, no_body_raises, success-IsClear,
  skipped-IsClear, skipped≢success, sum_ord, OneArmRuns, one_arm_runs,
}

abbrev root : Text
root = codes "/repo"

abbrev march_2 : Text
march_2 = codes "2025-03-02"

-- a scheduler: the first task upstream that stands in the way decides
abbrev after_all : List State → Decision
after_all [] = run
after_all (success ∷ states) = after_all states
after_all (failed ∷ states) = end_as upstream_failed
after_all (skipped ∷ states) = end_as skipped
after_all (upstream_failed ∷ states) = end_as upstream_failed

abbrev after_one : Bool → List State → Decision
after_one true [] = run
after_one false [] = end_as skipped
after_one seen (success ∷ states) = after_one true states
after_one seen (failed ∷ states) = end_as upstream_failed
after_one seen (skipped ∷ states) = after_one seen states
after_one seen (upstream_failed ∷ states) = end_as upstream_failed

abbrev decide : Rule → List State → Decision
decide all_success states = after_all states
decide all_done states = run
decide none_failed_min_one_success states = after_one false states

after_all_iff : (states : List State) → (after_all states ≡ run) ↔ All (λ s. s ≡ success) states
after_all_iff [] = (λ _. tt, λ _. refl)
after_all_iff (success ∷ states) =
    (λ h. (refl, (after_all_iff states).0 h), λ h. (after_all_iff states).1 h.1)
after_all_iff (failed ∷ states) = (λ h. ground arith, λ h. ground arith)
after_all_iff (skipped ∷ states) = (λ h. ground arith, λ h. ground arith)
after_all_iff (upstream_failed ∷ states) = (λ h. ground arith, λ h. ground arith)

after_one_iff :
    (seen : Bool) (states : List State)
    → (after_one seen states ≡ run) ↔ (All IsClear states × ((seen ≡ true) ⊎ In success states))
after_one_iff true [] = (λ _. (tt, inl refl), λ _. refl)
after_one_iff false [] = (λ h. ground arith, λ h. ground arith)
after_one_iff true (success ∷ states) = (
  λ h. ((success-IsClear, ((after_one_iff true states).0 h).0), inl refl),
  λ h. (after_one_iff true states).1 (h.0.1, inl refl),
)
after_one_iff false (success ∷ states) = (
  λ h. ((success-IsClear, ((after_one_iff true states).0 h).0), inr (inl refl)),
  λ h. (after_one_iff true states).1 (h.0.1, inl refl),
)
after_one_iff true (failed ∷ states) = (λ h. ground arith, λ h. absurd (h.0.0.0 refl))
after_one_iff false (failed ∷ states) = (λ h. ground arith, λ h. absurd (h.0.0.0 refl))
after_one_iff true (skipped ∷ states) = (
  λ h. ((skipped-IsClear, ((after_one_iff true states).0 h).0), inl refl),
  λ h. (after_one_iff true states).1 (h.0.1, inl refl),
)
after_one_iff false (skipped ∷ states) = (
  λ h.
      let (clear, one) = (after_one_iff false states).0 h in
      (
        (skipped-IsClear, clear),
        elim one [ inl e ↦ absurd (true≢false (sym e)) | inr m ↦ inr (inr m) ],
      ),
  λ h. (after_one_iff false states).1 (
    h.0.1,
    elim h.1 [
      | inl e ↦ absurd (true≢false (sym e))
      | inr (inl e) ↦ absurd (skipped≢success (sym e))
      | inr (inr m) ↦ inr m
    ],
  ),
)
after_one_iff true (upstream_failed ∷ states) = (λ h. ground arith, λ h. absurd (h.0.0.1 refl))
after_one_iff false (upstream_failed ∷ states) = (λ h. ground arith, λ h. absurd (h.0.0.1 refl))

after_all_ends : (states : List State) → after_all states ≢ end_as success
after_all_ends [] h = ground arith
after_all_ends (success ∷ states) h = after_all_ends states h
after_all_ends (failed ∷ states) h = ground arith
after_all_ends (skipped ∷ states) h = ground arith
after_all_ends (upstream_failed ∷ states) h = ground arith

after_one_ends : (seen : Bool) (states : List State) → after_one seen states ≢ end_as success
after_one_ends true [] h = ground arith
after_one_ends false [] h = ground arith
after_one_ends true (success ∷ states) h = after_one_ends true states h
after_one_ends false (success ∷ states) h = after_one_ends true states h
after_one_ends true (failed ∷ states) h = ground arith
after_one_ends false (failed ∷ states) h = ground arith
after_one_ends true (skipped ∷ states) h = after_one_ends true states h
after_one_ends false (skipped ∷ states) h = after_one_ends false states h
after_one_ends true (upstream_failed ∷ states) h = ground arith
after_one_ends false (upstream_failed ∷ states) h = ground arith

ends_otherwise : (rule : Rule) (states : List State) → decide rule states ≢ end_as success
ends_otherwise all_success states h = after_all_ends states h
ends_otherwise all_done states h = ground arith
ends_otherwise none_failed_min_one_success states h = after_one_ends false states h

decide-IsAirflow : IsAirflow decide
decide-IsAirflow = record {
  runs_all_success = after_all_iff;
  runs_all_done = λ states. refl;
  runs_min_one = λ states. (
    λ h.
        let (clear, one) = (after_one_iff false states).0 h in
        (clear, elim one [ inl e ↦ absurd (true≢false (sym e)) | inr m ↦ m ]),
    λ h. (after_one_iff false states).1 (h.0, inr h.1),
  );
  ends_without_success = λ rule states. ends_otherwise rule states;
}

-- a run of cap1_e2e_pipeline whose quality gate fails
abbrev gate_fails : String → Bool
gate_fails t = not (str_eq t "ge_gate")

abbrev final_states : String → State
final_states t = if str_eq t "ge_gate" then failed else success

gate_fails-IsRun : IsRun decide none_skipped gate_fails (cap1_graph root) final_states
unfolding upstream
gate_fails-IsRun = (refl, (refl, (refl, (refl, (refl, (refl, tt))))))

cap1_gated_example :
    ((final_states "ge_gate" ≡ success)
      ↔ ((gate_fails "cdc_ingest" && gate_fails "spark_transform" && gate_fails "ge_gate") ≡ true))
    × ((final_states "dbt_test" ≡ success)
        ↔ ((gate_fails "dbt_marts" && gate_fails "dbt_test") ≡ true))
    × (final_states "cleanup" ≡ state_of (gate_fails "cleanup"))
cap1_gated_example =
    cap1_gated decide decide-IsAirflow gate_fails final_states root gate_fails-IsRun

-- a date with an odd row count
abbrev arm_states : String → State
arm_states t = if any (str_eq t) ("run_full_refresh" ∷ "after_gate" ∷ []) then skipped else success

march_2-IsRun : IsRun decide (skips march_2) no_body_raises af6_graph arm_states
unfolding upstream downstream skips pick_branch gate row_count_for_interval sum_ord
march_2-IsRun = (refl, (refl, (refl, (refl, (refl, (refl, tt))))))

one_arm_runs_example :
    OneArmRuns decide decide-IsAirflow (row_count_for_interval march_2 % 2 == 0) arm_states
one_arm_runs_example = one_arm_runs decide decide-IsAirflow march_2 arm_states march_2-IsRun

-- a run of af10_dbt_spark_e2e whose dbt tests fail
abbrev tests_fail : String → Bool
tests_fail t = not (str_eq t "dbt_test")

abbrev af10_states : String → State
af10_states t =
    if str_eq t "dbt_build"
    then success
    else if str_eq t "dbt_test"
    then failed
    else upstream_failed

tests_fail-IsRun : IsRun decide none_skipped tests_fail (af10_graph root) af10_states
unfolding upstream
tests_fail-IsRun = (refl, (refl, (refl, (refl, tt))))

af10_cleanup_last_example : (af10_states "cleanup" ≡ success) ↔ (
    (tests_fail "dbt_build"
      && tests_fail "dbt_test"
      && tests_fail "ge_quality_gate"
      && tests_fail "cleanup")
    ≡ true)
af10_cleanup_last_example =
    af10_cleanup_last decide decide-IsAirflow tests_fail af10_states root tests_fail-IsRun
