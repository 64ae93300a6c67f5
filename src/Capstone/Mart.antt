-- ===== src/Capstone/Mart.antt =====
-- `transform` of capstone/cap1_pipeline.py: the mart of orders and amounts by status.
-- Amounts are in hundredths, so that rounding a sum to two places leaves it as it is.
use spark_dev.Base.{
  ℕ, suc, Bool, true, false, Option, none, some, String, List, [], ◌∷◌, str_eq, if◌then◌else◌,
}
use spark_dev.Base.Int.{ℤ, ◌+ℤ◌}
use spark_dev.Capstone.Merge.{Row}
pub mod Groups

pub record MartRow : Type 0 where
  pub status : Option String
  pub orders : ℕ
  pub total_amount : Option ℤ

-- `GROUP BY` puts the nulls into one group
unfoldable pub same_group : Option String → Option String → Bool
same_group none none = true
same_group none (some t) = false
same_group (some s) none = false
same_group (some s) (some t) = str_eq s t

-- `sum` leaves out the nulls, and is null when there is nothing else
unfoldable pub add_amount : Option ℤ → Option ℤ → Option ℤ
add_amount none a = a
add_amount (some t) none = some t
add_amount (some t) (some a) = some (t +ℤ a)

unfoldable pub with_row : MartRow → Row → MartRow
with_row m r = record {
  status = m.status;
  orders = suc m.orders;
  total_amount = add_amount m.total_amount r.amount;
}

-- a row added to its group, which may be new
unfoldable pub add_row : List MartRow → Row → List MartRow
add_row [] r = record { status = r.status; orders = 1; total_amount = r.amount } ∷ []
add_row (m ∷ ms) r = if same_group m.status r.status then with_row m r ∷ ms else m ∷ add_row ms r

unfoldable pub group_rows : List MartRow → List Row → List MartRow
group_rows ms [] = ms
group_rows ms (r ∷ rows) = group_rows (add_row ms r) rows

-- the rows of the mart; SQL leaves their order open
unfoldable pub transform : List Row → List MartRow
transform rows = group_rows [] rows
