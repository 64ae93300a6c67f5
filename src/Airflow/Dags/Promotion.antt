-- ===== src/Airflow/Dags/Promotion.antt =====
-- How the runs of af10_dbt_spark_e2e.py and cap1_e2e_pipeline.py under airflow/dags end: which tasks
-- stand between a failure and the tasks after it.
use spark_dev.Base.{
  Bool, true, false, ◌&&◌, ◌≡◌, ◌≢◌, ◌↔◌, ◌∙◌, sym, ap, String, List, [], ◌∷◌, arith,
}
use spark_dev.Base.Text.{Text}
use spark_dev.Airflow.Graph.{
  Rule, all_success, State, success, Decision, run, end_as, upstream, IsAirflow, state_of, settle,
  IsRun, none_skipped,
}
use spark_dev.Airflow.Dags.Pipelines.{af10_graph, cap1_graph}

settle_success :
    (d : Decision) (ok : Bool)
    → d ≢ end_as success
    → (settle d ok ≡ success) ↔ ((d ≡ run) × (ok ≡ true))
settle_success run true h = ground arith
settle_success run false h = ground arith
settle_success (end_as s) ok h = (λ e. absurd (h (ap end_as e)), λ p. absurd (ends p.0))
  where
    ends : end_as s ≢ run
    ends e = ground arith

module _ (decide : Rule → List State → Decision) (laws : IsAirflow decide) where
  -- A first task succeeds if its command does.
  pub first_success :
      (ends : State) (ok : Bool)
      → ends ≡ settle (decide all_success []) ok
      → (ends ≡ success) ↔ (ok ≡ true)
  first_success ends ok h =
      let (to, from) =
        settle_success (decide all_success []) ok (laws.ends_without_success all_success []) in
      (λ e. (to (sym h ∙ e)).1, λ e. h ∙ from ((laws.runs_all_success []).1 tt, e))

  -- A task that follows one other succeeds if that one and its command do.
  pub next_success :
      (before ends : State) (ok : Bool)
      → ends ≡ settle (decide all_success (before ∷ [])) ok
      → (ends ≡ success) ↔ ((before ≡ success) × (ok ≡ true))
  next_success before ends ok h =
      let (to, from) =
        settle_success (decide all_success (before ∷ [])) ok
          (laws.ends_without_success all_success (before ∷ [])) in
      let (all, runs) = laws.runs_all_success (before ∷ []) in
      (λ e. ((all (to (sym h ∙ e)).0).0, (to (sym h ∙ e)).1), λ p. h ∙ from (runs (p.0, tt), p.1))

  module _ (ok : String → Bool) (final : String → State) (repo : Text) where
    -- In a run of af10_dbt_spark_e2e in which nothing is skipped, the cleanup succeeds if and only if
    -- the build, the tests, the quality gate and the cleanup itself all succeed.
    pub af10_cleanup_last :
        IsRun decide none_skipped ok (af10_graph repo) final
        → (final "cleanup" ≡ success)
          ↔ ((ok "dbt_build" && ok "dbt_test" && ok "ge_quality_gate" && ok "cleanup") ≡ true)
    unfolding upstream
    af10_cleanup_last h =
        let build = first_success (final "dbt_build") (ok "dbt_build") h.0 in
        let test = next_success (final "dbt_build") (final "dbt_test") (ok "dbt_test") h.1.0 in
        let gate =
          next_success (final "dbt_test") (final "ge_quality_gate") (ok "ge_quality_gate")
            h.1.1.0 in
        let last =
          next_success (final "ge_quality_gate") (final "cleanup") (ok "cleanup") h.1.1.1.0 in
        ground (arith, build, test, gate, last)

    -- In a run of cap1_e2e_pipeline in which nothing is skipped, the quality gate succeeds if and only
    -- if all of its lineage does, so do the dbt tests of theirs, whatever happens in the other one,
    -- and the cleanup always runs: it ends as its own command does.
    pub cap1_gated :
        IsRun decide none_skipped ok (cap1_graph repo) final
        → ((final "ge_gate" ≡ success)
            ↔ ((ok "cdc_ingest" && ok "spark_transform" && ok "ge_gate") ≡ true))
          × ((final "dbt_test" ≡ success) ↔ ((ok "dbt_marts" && ok "dbt_test") ≡ true))
          × (final "cleanup" ≡ state_of (ok "cleanup"))
    unfolding upstream
    cap1_gated h =
        let ingest = first_success (final "cdc_ingest") (ok "cdc_ingest") h.0 in
        let transform =
          next_success (final "cdc_ingest") (final "spark_transform") (ok "spark_transform")
            h.1.0 in
        let gate =
          next_success (final "spark_transform") (final "ge_gate") (ok "ge_gate") h.1.1.0 in
        let marts = first_success (final "dbt_marts") (ok "dbt_marts") h.1.1.1.0 in
        let test =
          next_success (final "dbt_marts") (final "dbt_test") (ok "dbt_test") h.1.1.1.1.0 in
        (
          ground (arith, ingest, transform, gate),
          ground (arith, marts, test),
          h.1.1.1.1.1.0
              ∙ ap (λ d. settle d (ok "cleanup"))
                  (laws.runs_all_done (final "ge_gate" ∷ final "dbt_test" ∷ [])),
        )
