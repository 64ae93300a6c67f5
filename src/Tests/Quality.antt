-- ===== src/Tests/Quality.antt =====
-- The quality gate and the mart of capstone/cap1_pipeline.py, with a validator that runs.
use spark_dev.Base.{ℕ, ◌≡◌, ◌↔◌, Option, none, some, String, List, [], ◌∷◌, All, arith}
use spark_dev.Base.Int.{ℤ, pos}
use spark_dev.Capstone.Merge.{Row}
use spark_dev.Capstone.Merge.Lookup.{IsKeyed, count_id}
use spark_dev.Capstone.Quality.{decimal, text, IsBetween, IsInSet, cap1_statuses, cell_of, quality}
use spark_dev.Capstone.Quality.Gate.{quality_verdict}
use spark_dev.Capstone.Mart.{transform}
use spark_dev.Capstone.Mart.Groups.{row_for, rows_of, summary, transform_groups}
use spark_dev.Tests.Validator.{meets, meets-IsValidator}

abbrev row : ℕ → Option ℤ → String → Row
row id amount status = record {
  id = some id;
  customer = none;
  amount = amount;
  status = some status;
  updated = none;
}

-- an amount too large, and an amount that is null
abbrev rows : List Row
rows = row 1 (some (pos 200000000)) "PAID" ∷ row 500 none "NEW" ∷ row 3 (some (pos 5550)) "NEW" ∷ []

rows-IsKeyed : IsKeyed rows
unfolding count_id
rows-IsKeyed k = ground arith

quality_verdict_example : (quality meets rows ≡ 0) ↔ (
    All (λ (r : Row). IsBetween (pos 0) (pos 100000000) (cell_of decimal r.amount)) rows
    × All (λ (r : Row). IsInSet cap1_statuses (cell_of text r.status)) rows)
quality_verdict_example =
    quality_verdict meets meets-IsValidator rows rows-IsKeyed
      (λ e. ground arith, (λ e. ground arith, (λ e. ground arith, tt)))

transform_groups_example :
    row_for (some "NEW") (transform rows) ≡ summary (some "NEW") (rows_of (some "NEW") rows)
transform_groups_example = transform_groups (some "NEW") rows
