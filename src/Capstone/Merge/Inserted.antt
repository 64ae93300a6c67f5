-- ===== src/Capstone/Merge/Inserted.antt =====
-- The rows that the MERGE of capstone/cap1_pipeline.py inserts, for a source table that has at most
-- one row for an id.
use spark_dev.Base.{
  ℕ, suc, ◌≤◌, ◌≡◌, refl, true, Option, none, some, List, [], ◌∷◌, if◌then◌else◌, length, head?,
  arith,
}
use spark_dev.Base.Dict.{or_else}
use spark_dev.Capstone.Events.{Change}
use spark_dev.Capstone.Merge.{Row, sql_eq, cons_option, matching, not_matched, merge_inserted}
use spark_dev.Capstone.Merge.Lookup.{row_at, count_id, row_at_absent, any-row_at}

not_matched-id : (c : Change) (r : Row) → not_matched c ≡ some r → r.id ≡ c.id
unfolding not_matched
not_matched-id c r e = ground arith

-- The inserted rows of an id that the target has: none.
pub count_id-merge_inserted_old :
    (k : ℕ) (ts : List Row) (s : List Change) (t : Row)
    → row_at k ts ≡ some t
    → count_id k (merge_inserted ts s) ≡ 0
unfolding merge_inserted not_matched count_id
count_id-merge_inserted_old k ts [] t h = refl
count_id-merge_inserted_old k ts (c ∷ s) t h =
    let ih = count_id-merge_inserted_old k ts s t h in ground (arith, ih, any-row_at k ts)

matching-cons :
    (k : Option ℕ) (c : Change) (s : List Change)
    → matching k (c ∷ s) ≡ (if sql_eq k c.id then c ∷ matching k s else matching k s)
unfolding matching
matching-cons k c s = refl

count_id-not_matched :
    (k : ℕ) (c : Change) (rs : List Row)
    → count_id k (cons_option (not_matched c) rs)
      ≤ (if sql_eq (some k) c.id then suc (count_id k rs) else count_id k rs)
unfolding not_matched count_id
count_id-not_matched k c rs = ground arith

pub count_id-merge_inserted :
    (k : ℕ) (ts : List Row) (s : List Change)
    → count_id k (merge_inserted ts s) ≤ length (matching (some k) s)
unfolding merge_inserted
count_id-merge_inserted k ts [] = unfold count_id in omega arith
count_id-merge_inserted k ts (c ∷ s) = ground (
  arith,
  count_id-not_matched k c (merge_inserted ts s),
  count_id-merge_inserted k ts s,
  matching-cons (some k) c s,
)

unfoldable pub inserted_option : Option Change → Option Row
inserted_option none = none
inserted_option (some c) = not_matched c

row_at-not_matched :
    (k : ℕ) (c : Change) (rs : List Row)
    → row_at k (cons_option (not_matched c) rs)
      ≡ (if sql_eq (some k) c.id then or_else (not_matched c) (row_at k rs) else row_at k rs)
unfolding not_matched row_at
row_at-not_matched k c rs = ground arith

sql_eq-some : (k : ℕ) (o : Option ℕ) → sql_eq (some k) o ≡ true → o ≡ some k
sql_eq-some k o h = ground arith

pub row_at-merge_inserted :
    (k : ℕ) (ts : List Row) (s : List Change)
    → row_at k ts ≡ none
    → length (matching (some k) s) ≤ 1
    → row_at k (merge_inserted ts s) ≡ inserted_option (head? (matching (some k) s))
unfolding merge_inserted inserted_option
row_at-merge_inserted k ts [] h d = unfold row_at matching in refl
row_at-merge_inserted k ts (c ∷ s) h d = ground (
  arith,
  row_at-not_matched k c (merge_inserted ts s),
  row_at-merge_inserted k ts s h,
  matching-cons (some k) c s,
  count_id-merge_inserted k ts s,
  row_at_absent k (merge_inserted ts s),
  sql_eq-some k c.id,
  any-row_at k ts,
)
