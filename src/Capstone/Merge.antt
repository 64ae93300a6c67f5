-- ===== src/Capstone/Merge.antt =====
-- `ingest` of capstone/cap1_pipeline.py: the `MERGE INTO` the Iceberg mirror.
pub mod Lookup
pub mod Kept
pub mod Inserted
pub mod Upsert
pub mod Again
use spark_dev.Base.{
  ℕ, zero, suc, String, ◌≡◌, Bool, true, false, Option, none, some, List, [], ◌∷◌, ◌++◌, ◌==◌,
  str_eq, if◌then◌else◌, filter, any,
}
use mathlib.Core.Option
use spark_dev.Base.Int.{ℤ}
use spark_dev.Capstone.Events.{Change}

-- a row of the mirror
pub record Row : Type 0 where
  pub id : Option ℕ
  pub customer : Option String
  pub amount : Option ℤ
  pub status : Option String
  pub updated : Option ℕ

-- `t.id = s.id`, which a null on either side makes unknown
abbrev pub sql_eq : Option ℕ → Option ℕ → Bool
sql_eq none b = false
sql_eq (some a) none = false
sql_eq (some a) (some b) = a == b

unfoldable pub matching : Option ℕ → List Change → List Change
matching k s = filter (λ c. sql_eq k c.id) s

-- `WHEN MATCHED AND s.op = 'd' THEN DELETE WHEN MATCHED THEN UPDATE SET …`
unfoldable pub matched : Row → Change → Option Row
matched t s =
    if str_eq s.op "d"
    then none
    else some (record t {
      customer = s.customer;
      amount = s.amount;
      status = s.status;
      updated = s.updated;
    })

-- `WHEN NOT MATCHED AND s.op <> 'd' THEN INSERT …`
unfoldable pub not_matched : Change → Option Row
not_matched s =
    if str_eq s.op "d"
    then none
    else some (record {
      id = s.id;
      customer = s.customer;
      amount = s.amount;
      status = s.status;
      updated = s.updated;
    })

abbrev pub cons_option {ℓ} : {A : Type ℓ} → Option A → List A → List A
cons_option none xs = xs
cons_option (some x) xs = x ∷ xs

-- One target row, with the source rows that match it. A row that two source rows match is Spark's
-- error MERGE_CARDINALITY_VIOLATION, here `none`.
unfoldable pub merge_row : Row → List Change → Option (List Row) → Option (List Row)
unfolding matched
merge_row t [] rest = Option.map (λ rows. t ∷ rows) rest
merge_row t (c ∷ []) rest = Option.map (cons_option (matched t c)) rest
merge_row t (c ∷ d ∷ cs) rest = none

-- The target rows, updated or gone.
unfoldable pub merge_matched : List Row → List Change → Option (List Row)
unfolding matching merge_row
merge_matched [] s = some []
merge_matched (t ∷ ts) s = merge_row t (matching t.id s) (merge_matched ts s)

unfoldable pub merge_inserted : List Row → List Change → List Row
unfolding not_matched
merge_inserted ts [] = []
merge_inserted ts (c ∷ s) =
    if any (λ t. sql_eq t.id c.id) ts
    then merge_inserted ts s
    else cons_option (not_matched c) (merge_inserted ts s)

-- The whole statement: the new contents of the table, or the error.
unfoldable pub merge : List Row → List Change → Option (List Row)
unfolding merge_matched merge_inserted
merge ts s = Option.map (λ rows. rows ++ merge_inserted ts s) (merge_matched ts s)
