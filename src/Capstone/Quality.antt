-- ===== src/Capstone/Quality.antt =====
-- The quality gates: `quality` of capstone/cap1_pipeline.py, and
-- dbt/quality/great_expectations/validate_table.py.
-- Great Expectations is not part of the repository: whether a table meets an expectation is the
-- parameter `meets`, with the documented meaning of the four that are used (`IsValidator`): all but
-- the first let nulls pass. A table of pandas is the cells of each column; amounts are in
-- hundredths.
use spark_dev.Base.{
  ℕ, Bool, true, false, ◌≡◌, ◌≢◌, ◌↔◌, ◌⊎◌, Option, none, some, String, List, [], ◌∷◌, map, all,
  All, In, if◌then◌else◌, str_eq,
}
use spark_dev.Base.Int.{ℤ, pos, ◌≤ℤ◌}
use spark_dev.Capstone.Merge.{Row}
pub mod Gate

pub data Cell : Type 0 where
  null : Cell
  whole : ℕ → Cell
  decimal : ℤ → Cell
  text : String → Cell

abbrev pub Table : Type 0
Table = String → List Cell

pub data Expectation : Type 0 where
  not_be_null : String → Expectation
  be_unique : String → Expectation
  be_between : String → ℤ → ℤ → Expectation
  be_in_set : String → List String → Expectation

-- no cell that is not null stands twice
abbrev pub IsUnique : List Cell → Type 0
IsUnique [] = Unit
IsUnique (null ∷ cells) = IsUnique cells
IsUnique (cell ∷ cells) = ¬ (In cell cells) × IsUnique cells

abbrev pub IsBetween : ℤ → ℤ → Cell → Type 0
IsBetween low high null = Unit
IsBetween low high (whole n) = ⊥
IsBetween low high (decimal n) = (low ≤ℤ n) × (n ≤ℤ high)
IsBetween low high (text s) = ⊥

abbrev pub IsInSet : List String → Cell → Type 0
IsInSet values null = Unit
IsInSet values (whole n) = ⊥
IsInSet values (decimal n) = ⊥
IsInSet values (text s) = In s values

pub record IsValidator (meets : Expectation → Table → Bool) : Type 0 where
  pub null_law :
      (c : String) (t : Table) → (meets (not_be_null c) t ≡ true) ↔ All (λ cell. cell ≢ null) (t c)
  pub unique_law : (c : String) (t : Table) → (meets (be_unique c) t ≡ true) ↔ IsUnique (t c)
  pub between_law :
      (c : String) (low high : ℤ) (t : Table)
      → (meets (be_between c low high) t ≡ true) ↔ All (IsBetween low high) (t c)
  pub in_set_law :
      (c : String) (values : List String) (t : Table)
      → (meets (be_in_set c values) t ≡ true) ↔ All (IsInSet values) (t c)

-- the suite of `quality`
abbrev pub cap1_statuses : List String
cap1_statuses = "NEW" ∷ "PAID" ∷ "completed" ∷ "refunded" ∷ "pending" ∷ []

abbrev pub cap1_suite : List Expectation
cap1_suite =
    not_be_null "id"
    ∷ be_unique "id"
    ∷ be_between "amount" (pos 0) (pos 100000000)
    ∷ be_in_set "status" cap1_statuses
    ∷ []

-- the suite of validate_table.py
abbrev pub orders_suite : List Expectation
orders_suite =
    not_be_null "order_id"
    ∷ be_unique "order_id"
    ∷ be_between "amount" (pos 0) (pos 10000000)
    ∷ be_in_set "status" ("completed" ∷ "refunded" ∷ "pending" ∷ [])
    ∷ []

abbrev pub cell_of : {A : Type 0} → (A → Cell) → Option A → Cell
cell_of f none = null
cell_of f (some a) = f a

-- `spark.table(MIRROR).toPandas()`
unfoldable pub mirror_table : List Row → Table
mirror_table rows c =
    if str_eq c "id"
    then map (λ (r : Row). cell_of whole r.id) rows
    else if str_eq c "customer"
    then map (λ (r : Row). cell_of text r.customer) rows
    else if str_eq c "amount"
    then map (λ (r : Row). cell_of decimal r.amount) rows
    else if str_eq c "status"
    then map (λ (r : Row). cell_of text r.status) rows
    else if str_eq c "updated"
    then map (λ (r : Row). cell_of whole r.updated) rows
    else []

module _ (meets : Expectation → Table → Bool) where
  -- `batch.validate(suite).success`
  unfoldable pub validate : List Expectation → Table → Bool
  validate suite t = all (λ e. meets e t) suite

  -- the exit status of `quality`
  unfoldable pub quality : List Row → ℕ
  unfolding validate mirror_table
  quality rows = if validate cap1_suite (mirror_table rows) then 0 else 1

  -- the exit status of validate_table.py
  unfoldable pub validate_table : Table → ℕ
  unfolding validate
  validate_table t = if validate orders_suite t then 0 else 1
