-- ===== src/Capstone/Merge/Kept.antt =====
-- The rows of the mirror that the MERGE of capstone/cap1_pipeline.py keeps or changes, for a source
-- table that has at most one row for an id.
use spark_dev.Base.{
  ℕ, suc, ◌≤◌, ◌≡◌, refl, Option, none, some, List, [], ◌∷◌, if◌then◌else◌, length, head?, arith,
}
use spark_dev.Base.Dict.{or_else}
use spark_dev.Capstone.Events.{Change}
use spark_dev.Capstone.Merge.{Row, sql_eq, cons_option, matching, matched, merge_row, merge_matched}
use spark_dev.Capstone.Merge.Lookup.{row_at, count_id, row_at_absent}

-- At most one row of the source has a given id.
abbrev pub IsDistinct : List Change → Type 0
IsDistinct s = (k : ℕ) → length (matching (some k) s) ≤ 1

unfoldable pub kept_row : Row → List Change → Option Row
kept_row t s = elim (head? (matching t.id s)) [ none ↦ some t | some c ↦ matched t c ]

unfoldable pub kept : List Row → List Change → List Row
kept [] s = []
kept (t ∷ ts) s = cons_option (kept_row t s) (kept ts s)

matching_null : (s : List Change) → matching none s ≡ []
unfolding matching
matching_null [] = refl
matching_null (c ∷ s) = matching_null s

merge_row-kept :
    (t : Row) (m : List Change) (rest : List Row)
    → length m ≤ 1
    → merge_row t m (some rest)
      ≡ some (cons_option (elim (head? m) [ none ↦ some t | some c ↦ matched t c ]) rest)
unfolding merge_row
merge_row-kept t [] rest h = refl
merge_row-kept t (c ∷ []) rest h = refl
merge_row-kept t (c ∷ d ∷ m) rest h = absurd (omega arith)

matching-length : (k : Option ℕ) (s : List Change) → IsDistinct s → length (matching k s) ≤ 1
matching-length none s h = rw (matching_null s) (omega arith)
matching-length (some k) s h = h k

pub merge_matched-kept :
    (ts : List Row) (s : List Change) → IsDistinct s → merge_matched ts s ≡ some (kept ts s)
unfolding kept kept_row merge_matched
merge_matched-kept [] s h = refl
merge_matched-kept (t ∷ ts) s h =
    rw (merge_matched-kept ts s h)
      (merge_row-kept t (matching t.id s) (kept ts s) (matching-length t.id s h))

kept_row-id : (t r : Row) (s : List Change) → kept_row t s ≡ some r → r.id ≡ t.id
unfolding kept_row matched
kept_row-id t r s e = ground arith

row_at-cons_option :
    (k : ℕ) (t : Row) (o : Option Row) (rs : List Row)
    → ((r : Row) → o ≡ some r → r.id ≡ t.id)
    → row_at k (cons_option o rs)
      ≡ (if sql_eq (some k) t.id then or_else o (row_at k rs) else row_at k rs)
unfolding row_at
row_at-cons_option k t none rs h = ground arith
row_at-cons_option k t (some r) rs h = rw (h r refl) (ground arith)

count_id-cons_option :
    (k : ℕ) (t : Row) (o : Option Row) (rs : List Row)
    → ((r : Row) → o ≡ some r → r.id ≡ t.id)
    → count_id k (cons_option o rs)
      ≤ (if sql_eq (some k) t.id then suc (count_id k rs) else count_id k rs)
unfolding count_id
count_id-cons_option k t none rs h = ground arith
count_id-cons_option k t (some r) rs h = rw (h r refl) (omega arith)

count_id-cons :
    (k : ℕ) (t : Row) (ts : List Row)
    → count_id k (t ∷ ts) ≡ (if sql_eq (some k) t.id then suc (count_id k ts) else count_id k ts)
unfolding count_id
count_id-cons k t ts = refl

pub count_id-kept :
    (k : ℕ) (ts : List Row) (s : List Change) → count_id k (kept ts s) ≤ count_id k ts
unfolding kept
count_id-kept k [] s = omega arith
count_id-kept k (t ∷ ts) s = ground (
  arith,
  count_id-cons_option k t (kept_row t s) (kept ts s) (λ r. kept_row-id t r s),
  count_id-kept k ts s,
  count_id-cons k t ts,
)

row_at-cons :
    (k : ℕ) (t : Row) (ts : List Row)
    → row_at k (t ∷ ts) ≡ (if sql_eq (some k) t.id then some t else row_at k ts)
unfolding row_at
row_at-cons k t ts = refl

unfoldable pub kept_option : Option Row → List Change → Option Row
kept_option none s = none
kept_option (some t) s = kept_row t s

pub row_at-kept :
    (k : ℕ) (ts : List Row) (s : List Change)
    → count_id k ts ≤ 1
    → row_at k (kept ts s) ≡ kept_option (row_at k ts) s
unfolding kept kept_option
row_at-kept k [] s h = unfold row_at in refl
row_at-kept k (t ∷ ts) s h = ground (
  arith,
  row_at-cons_option k t (kept_row t s) (kept ts s) (λ r. kept_row-id t r s),
  row_at-cons k t ts,
  count_id-cons k t ts,
  row_at-kept k ts s,
  row_at_absent k (kept ts s),
  count_id-kept k ts s,
)
