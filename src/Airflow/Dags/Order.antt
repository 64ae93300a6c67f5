-- ===== src/Airflow/Dags/Order.antt =====
-- The graphs of airflow/dags have no cycle.
use spark_dev.Base.{refl, List, [], ◌∷◌, All}
use spark_dev.Base.Text.{Text}
use spark_dev.Airflow.Graph.{Graph, upstream}
use spark_dev.Airflow.Graph.Runs.{IsOrdered}
use spark_dev.Airflow.Dags.{
  af1_graph, af2_graph, af3_graph, af4_graph, af5_graph, af6_graph, af7_graph, af8_graph,
}
use spark_dev.Airflow.Dags.Pipelines.{af10_graph, cap1_graph}

abbrev pub all_graphs : Text → List Graph
all_graphs repo =
    af1_graph
    ∷ af2_graph
    ∷ af3_graph
    ∷ af4_graph
    ∷ af5_graph
    ∷ af6_graph
    ∷ af7_graph
    ∷ af8_graph
    ∷ af10_graph repo
    ∷ cap1_graph repo
    ∷ []

-- Each of the ten graphs lists every task after those upstream of it, so it has no cycle.
pub all_graphs-IsOrdered : (repo : Text) → All IsOrdered (all_graphs repo)
unfolding upstream
all_graphs-IsOrdered repo =
    (refl, (refl, (refl, (refl, (refl, (refl, (refl, (refl, (refl, (refl, tt))))))))))
