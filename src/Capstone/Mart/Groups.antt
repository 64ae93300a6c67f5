-- ===== src/Capstone/Mart/Groups.antt =====
-- What the mart of capstone/cap1_pipeline.py says of a status.
use spark_dev.Base.{
  ℕ, suc, ◌+◌, ◌≡◌, ◌↔◌, refl, ap, ◌∙◌, true, Option, none, some, String, List, [], ◌∷◌, filter,
  length, eq_iff, if◌then◌else◌, All, arith,
}
use spark_dev.Base.Int.{ℤ}
use spark_dev.Capstone.Merge.{Row}
use spark_dev.Capstone.Mart.{
  MartRow, same_group, add_amount, with_row, add_row, group_rows, transform,
}

-- the row of a status in the mart
abbrev pub row_for : Option String → List MartRow → Option MartRow
row_for s [] = none
row_for s (m ∷ ms) = if same_group m.status s then some m else row_for s ms

-- the rows of a status in the mirror
abbrev pub rows_of : Option String → List Row → List Row
rows_of s rows = filter (λ r. same_group r.status s) rows

-- the sum of the amounts that are not null
abbrev pub amounts : Option ℤ → List Row → Option ℤ
amounts t [] = t
amounts t (r ∷ rows) = amounts (add_amount t r.amount) rows

-- The row that a status should have, from its rows in the mirror.
abbrev pub summary : Option String → List Row → Option MartRow
summary s [] = none
summary s (r ∷ rows) =
    some record { status = s; orders = length (r ∷ rows); total_amount = amounts r.amount rows }

-- a group, which may be new, with one row more, and with several
abbrev with_one : Option MartRow → Row → Option MartRow
with_one none r = some record { status = r.status; orders = 1; total_amount = r.amount }
with_one (some m) r = some (with_row m r)

abbrev with_all : Option MartRow → List Row → Option MartRow
with_all o [] = o
with_all o (r ∷ rows) = with_all (with_one o r) rows

same_group_iff : (s t : Option String) → (same_group s t ≡ true) ↔ (s ≡ t)
unfolding same_group
same_group_iff none none = (λ _. refl, λ _. refl)
same_group_iff none (some t) = (λ e. ground arith, λ e. ground arith)
same_group_iff (some s) none = (λ e. ground arith, λ e. ground arith)
same_group_iff (some s) (some t) = (
  λ e. ap some ((eq_iff s t).0 e),
  λ e. (eq_iff s t).1 (ap (λ o. elim o [ Option.none ↦ s | Option.some x ↦ x ]) e),
)

row_for-add_row :
    (s : Option String) (ms : List MartRow) (r : Row)
    → row_for s (add_row ms r)
      ≡ (if same_group r.status s then with_one (row_for s ms) r else row_for s ms)
unfolding add_row with_row
row_for-add_row s [] r = refl
row_for-add_row s (m ∷ ms) r = ground (
  arith,
  row_for-add_row s ms r,
  same_group_iff m.status r.status,
  same_group_iff r.status s,
  same_group_iff m.status s,
)

row_for-group_rows :
    (s : Option String) (ms : List MartRow) (rows : List Row)
    → row_for s (group_rows ms rows) ≡ with_all (row_for s ms) (rows_of s rows)
unfolding group_rows
row_for-group_rows s ms [] = refl
row_for-group_rows s ms (r ∷ rows) =
    ground (arith, row_for-group_rows s (add_row ms r) rows, row_for-add_row s ms r)

abbrev row_of : Option String → Option ℤ → ℕ → Option MartRow
row_of s total n = some record { status = s; orders = n; total_amount = total }

with_all-some :
    (m : MartRow) (rows : List Row)
    → with_all (some m) rows
      ≡ some record {
        status = m.status;
        orders = m.orders + length rows;
        total_amount = amounts m.total_amount rows;
      }
unfolding with_row
with_all-some m [] = ap (row_of m.status m.total_amount) (omega arith)
with_all-some m (r ∷ rows) =
    with_all-some (with_row m r) rows
    ∙ ap (row_of m.status (amounts m.total_amount (r ∷ rows))) (omega arith)

rows_of_same : (s : Option String) (rows : List Row) → All (λ r. r.status ≡ s) (rows_of s rows)
rows_of_same s [] = tt
rows_of_same s (r ∷ rows) = ground (arith, rows_of_same s rows, same_group_iff r.status s)

-- The mart has a row for a status if and only if the mirror has one; the row counts the status'
-- rows and adds up their amounts.
pub transform_groups :
    (s : Option String) (rows : List Row) → row_for s (transform rows) ≡ summary s (rows_of s rows)
unfolding transform
transform_groups s rows = row_for-group_rows s [] rows ∙ ends (rows_of s rows) (rows_of_same s rows)
  where
    ends : (rs : List Row) → All (λ r. r.status ≡ s) rs → with_all none rs ≡ summary s rs
    ends [] h = refl
    ends (r ∷ rs) h =
        with_all-some record { status = r.status; orders = 1; total_amount = r.amount } rs
        ∙ ap (row_of r.status (amounts r.amount rs)) (omega arith)
        ∙ ap (λ x. row_of x (amounts r.amount rs) (suc (length rs))) h.0
