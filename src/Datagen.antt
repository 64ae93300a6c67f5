-- ===== src/Datagen.antt =====
-- common/datagen.py: the generators of skewed and even keys. A DataFrame is the list of its rows, in
-- the order of `row_id`; partitioning, which changes no row, is left out. Spark's `hash` and `rand`
-- are parameters.
pub mod Joins
use spark_dev.Base.{
  ℕ, zero, suc, ◌+◌, ◌-◌, ◌%◌, Bool, true, false, Option, none, some, List, [], ◌∷◌, ◌++◌, map,
  if◌then◌else◌, ltb, String,
}
use spark_dev.Base.Text.{Text, codes}
use spark_dev.Base.Int.{ℤ, pos, negsuc}

-- `F.pmod(x, F.lit(n))`: no value for n = 0
unfoldable pub pmod : ℤ → ℕ → Option ℤ
pmod x zero = none
pmod (pos m) (suc n) = some (pos (m % suc n))
pmod (negsuc m) (suc n) = some (pos (n - m % suc n))

-- `spark.range(0, n)`
unfoldable pub ids_from : ℕ → ℕ → List ℕ
ids_from i zero = []
ids_from i (suc n) = i ∷ ids_from (suc i) n

abbrev pub range : ℕ → List ℕ
range n = ids_from 0 n

pub record FactRow (Amount : Type 0) : Type 0 where
  pub row_id : ℕ
  pub key : Option ℤ
  pub amount : Amount

abbrev pub plus_one : Option ℤ → Option ℤ
plus_one none = none
plus_one (some (pos n)) = some (pos (suc n))
plus_one (some (negsuc zero)) = some (pos 0)
plus_one (some (negsuc (suc n))) = some (negsuc n)

-- `F.col < F.lit(n)` in a `F.when`, where NULL is not true
abbrev pub below : Option ℤ → ℕ → Bool
below none n = false
below (some (pos m)) n = ltb m n
below (some (negsuc m)) n = true

-- `hash` is Spark's hash of a long, `amount seed i` is `F.rand(seed) * 100.0` on row i
module _ {Amount : Type 0} (hash : ℕ → ℤ) (amount : ℕ → ℕ → Amount) where
  unfoldable pub uniform_row : ℕ → ℕ → FactRow Amount
  unfolding pmod
  uniform_row n_keys i = record { row_id = i; key = pmod (pos i) n_keys; amount = amount 17 i }

  unfoldable pub uniform_keys : ℕ → ℕ → List (FactRow Amount)
  unfolding uniform_row ids_from
  uniform_keys n_rows n_keys = map (uniform_row n_keys) (range n_rows)

  abbrev pub cold_key : ℕ → ℕ → Option ℤ
  cold_key n_cold_keys i = plus_one (pmod (pos i) n_cold_keys)

  unfoldable pub skewed_key : ℕ → ℕ → ℤ → ℕ → Option ℤ
  unfolding pmod
  skewed_key hot_pct n_cold_keys hot_key i =
      if below (pmod (hash i) 100) hot_pct then some hot_key else cold_key n_cold_keys i

  unfoldable pub skewed_row : ℕ → ℕ → ℤ → ℕ → FactRow Amount
  unfolding skewed_key
  skewed_row hot_pct n_cold_keys hot_key i = record {
    row_id = i;
    key = skewed_key hot_pct n_cold_keys hot_key i;
    amount = amount 23 i;
  }

  -- The fraction's type is a parameter: `between` is the guard `0.0 < f < 1.0`, `percent` is
  -- `int(round(f * 100))`. No rows stand for the ValueError.
  unfoldable pub skewed_keys :
      {Fraction : Type 0}
      → (Fraction → Bool)
      → (Fraction → ℕ)
      → ℕ
      → Fraction
      → ℕ
      → ℤ
      → Option (List (FactRow Amount))
  unfolding skewed_row ids_from
  skewed_keys between percent n_rows hot_key_fraction n_cold_keys hot_key =
      if between hot_key_fraction
      then some (map (skewed_row (percent hot_key_fraction) n_cold_keys hot_key) (range n_rows))
      else none

  -- `n_distinct or n_rows`
  abbrev distinct_or : Option ℕ → ℕ → ℕ
  distinct_or none n_rows = n_rows
  distinct_or (some zero) n_rows = n_rows
  distinct_or (some (suc n)) n_rows = suc n

  unfoldable pub high_cardinality_row : ℕ → ℕ → FactRow Amount
  unfolding pmod
  high_cardinality_row n_distinct i = record {
    row_id = i;
    key = pmod (hash i) n_distinct;
    amount = amount 29 i;
  }

  unfoldable pub high_cardinality_keys : ℕ → Option ℕ → List (FactRow Amount)
  unfolding high_cardinality_row ids_from
  high_cardinality_keys n_rows n_distinct =
      map (high_cardinality_row (distinct_or n_distinct n_rows)) (range n_rows)

-- the columns c0, c1, … of a row, by the seeds of their `F.rand`
unfoldable pub wide_columns : {Amount : Type 0} → (ℕ → ℕ → Amount) → ℕ → ℕ → ℕ → List Amount
wide_columns amount i c zero = []
wide_columns amount i c (suc n) = amount (1000 + c) i ∷ wide_columns amount i (suc c) n

unfoldable pub wide_rows : {Amount : Type 0} → (ℕ → ℕ → Amount) → ℕ → ℕ → List (ℕ × List Amount)
unfolding wide_columns ids_from
wide_rows amount n_rows n_cols = map (λ i. (i, wide_columns amount i 0 n_cols)) (range n_rows)

pub data Tier : Type 0 where
  bronze silver gold : Tier

-- `F.element_at`, whose positions start at 1
abbrev pub tier_at : ℕ → Option Tier
tier_at (suc zero) = some bronze
tier_at (suc (suc zero)) = some silver
tier_at (suc (suc (suc zero))) = some gold
tier_at zero = none
tier_at (suc (suc (suc (suc n)))) = none

pub record DimensionRow : Type 0 where
  pub key : ℤ
  pub key_label : Text
  pub tier : Option Tier

unfoldable pub dimension_row : (ℕ → Text) → ℕ → DimensionRow
dimension_row digits i = record {
  key = pos i;
  key_label = codes "key_" ++ digits i;
  tier = tier_at (i % 3 + 1);
}

-- `digits` is the cast of a long to a string
unfoldable pub key_dimension : (ℕ → Text) → ℕ → List DimensionRow
unfolding dimension_row ids_from
key_dimension digits n_keys = map (dimension_row digits) (range n_keys)
