-- ===== src/Airflow/Mapping.antt =====
-- af7_dynamic_mapping.py under airflow/dags: the mapped task and the sum over its results.
-- The parameter `repo` is the absolute path of the repository.
use spark_dev.Base.{ℕ, ◌+◌, ◌*◌, ◌≡◌, refl, some, List, [], ◌∷◌, ◌++◌, map, length, In, arith}
use spark_dev.Base.Text.{Text, codes}
use spark_dev.Airflow.Files.{Files, ◌/◌, write, run_each, join_inj}
use spark_dev.Airflow.Files.Writes.{run_each_holds}
use mathlib.Core.List.{append_cancel_right}

-- the dict that `process` writes and returns
pub record Processed : Type 0 where
  pub table : Text
  pub rows : ℕ

abbrev pub list_tables : List Text
list_tables = codes "orders" ∷ codes "customers" ∷ codes "events" ∷ codes "payments" ∷ []

unfoldable pub result : Text → Processed
result table = record { table = table; rows = length table * 10 }

module _ (repo : Text) where
  abbrev out_af7 : Text
  out_af7 = repo / codes ".tmp" / codes "af7"

  unfoldable pub marker : Text → Text
  marker table = out_af7 / (table ++ codes ".json")

  -- `process`: the files that it leaves; it returns `result table`
  unfoldable pub process : Text → Files Processed → Files Processed
  process table = write (marker table) (result table ∷ [])

-- `total` of `summarize`
unfoldable pub total : List Processed → ℕ
total [] = 0
total (r ∷ results) = r.rows + total results

-- the number of characters of all the names
abbrev characters : List Text → ℕ
characters [] = 0
characters (t ∷ tables) = length t + characters tables

marker_inj : (repo a b : Text) → marker repo a ≡ marker repo b → a ≡ b
unfolding marker
marker_inj repo a b h =
    append_cancel_right a b (codes ".json")
      (join_inj (out_af7 repo) (a ++ codes ".json") (b ++ codes ".json") h)

total-result : (tables : List Text) → total (map result tables) ≡ 10 * characters tables
unfolding total result
total-result [] = refl
total-result (t ∷ tables) = omega (arith, total-result tables)

-- However the instances of `process` for some tables are ordered and repeated, the marker of each
-- of the tables holds the table's result, and the total over the results is ten for each character
-- of the names.
pub mapped_results :
    (repo : Text) (tables runs : List Text) (files : Files Processed)
    → ((t : Text) → In t tables → In t runs)
    → ((t : Text)
        → In t tables
        → run_each (process repo) runs files (marker repo t) ≡ some (result t ∷ []))
      × (total (map result tables) ≡ 10 * characters tables)
unfolding process
mapped_results repo tables runs files all = (
  λ t m. run_each_holds (marker repo) (λ x. result x ∷ []) (marker_inj repo) runs files t (all t m),
  total-result tables,
)
