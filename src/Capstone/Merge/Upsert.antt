-- ===== src/Capstone/Merge/Upsert.antt =====
-- What the MERGE of capstone/cap1_pipeline.py does to each id, for a source table that has at most
-- one row for an id.
use spark_dev.Base.{
  ℕ, ◌≡◌, refl, ap, Option, none, some, List, [], ◌++◌, head?, arith, Option-cases, inl, inr,
}
use spark_dev.Base.Dict.{or_else}
use spark_dev.Capstone.Events.{Change}
use spark_dev.Capstone.Merge.{Row, matching, matched, not_matched, merge_inserted, merge}
use spark_dev.Capstone.Merge.Lookup.{
  row_at, row_at-id, IsKeyed, row_at-append, count_id-append, row_at_absent, count_id_absent,
}
use spark_dev.Capstone.Merge.Kept.{
  IsDistinct, kept_row, kept, merge_matched-kept, count_id-kept, kept_option, row_at-kept,
}
use spark_dev.Capstone.Merge.Inserted.{
  count_id-merge_inserted_old, count_id-merge_inserted, inserted_option, row_at-merge_inserted,
}

-- The specification: what becomes of the row of an id, by the source row of that id.
unfoldable pub upsert : Option Row → Option Change → Option Row
upsert none none = none
upsert none (some c) = not_matched c
upsert (some t) none = some t
upsert (some t) (some c) = matched t c

upsert_new : (o : Option Change) → or_else (kept_option none []) (inserted_option o) ≡ upsert none o
unfolding kept_option inserted_option upsert
upsert_new none = refl
upsert_new (some c) = refl

kept_by : Row → Option Change → Option Row
kept_by t o = elim o [ none ↦ some t | some c ↦ matched t c ]

kept_row-by :
    (k : ℕ) (t : Row) (s : List Change)
    → t.id ≡ some k
    → kept_row t s ≡ kept_by t (head? (matching (some k) s))
unfolding kept_row kept_by
kept_row-by k t s e = ap (λ i. kept_by t (head? (matching i s))) e

upsert_old : (t : Row) (o : Option Change) → or_else (kept_by t o) none ≡ upsert (some t) o
unfolding upsert kept_by
upsert_old t none = refl
upsert_old t (some c) = ground arith

module _ (ts : List Row) (s : List Change) (keyed : IsKeyed ts) (distinct : IsDistinct s) where
  merged : List Row
  merged = kept ts s ++ merge_inserted ts s

  merge-eq : merge ts s ≡ some merged
  unfolding merge merged
  merge-eq = rw (merge_matched-kept ts s distinct)

  merged-IsKeyed : IsKeyed merged
  unfolding merged
  merged-IsKeyed k =
      let total = count_id-append k (kept ts s) (merge_inserted ts s) in
      let old = count_id-kept k ts s in
      let new = count_id-merge_inserted k ts s in
      elim (Option-cases (row_at k ts)) [
        | inl e ↦ omega (arith, total, old, new, distinct k, count_id_absent k ts e)
        | inr (t, e) ↦ omega (arith, total, old, keyed k, count_id-merge_inserted_old k ts s t e)
      ]

  row_at-merged : (k : ℕ) → row_at k merged ≡ upsert (row_at k ts) (head? (matching (some k) s))
  unfolding merged kept_option
  row_at-merged k =
      rw (row_at-append k (kept ts s) (merge_inserted ts s), row_at-kept k ts s (keyed k))
        (elim (Option-cases (row_at k ts)) [
          | inl e ↦
              rw (e, row_at-merge_inserted k ts s e (distinct k))
                (upsert_new (head? (matching (some k) s)))
          | inr (t, e) ↦
              rw
                (
                  e,
                  row_at_absent k (merge_inserted ts s) (count_id-merge_inserted_old k ts s t e),
                  kept_row-by k t s (row_at-id k ts t e),
                )
                (upsert_old t (head? (matching (some k) s)))
        ])

-- If no id occurs twice in the mirror or in the source table, the MERGE does not raise, no id
-- occurs twice in its result, and the row of each id becomes what `upsert` makes of the old row and
-- the source row of that id.
pub merge_upserts :
    (ts : List Row) (s : List Change)
    → IsKeyed ts
    → IsDistinct s
    → (rows : List Row) × (merge ts s ≡ some rows)
      × IsKeyed rows
      × ((k : ℕ) → row_at k rows ≡ upsert (row_at k ts) (head? (matching (some k) s)))
merge_upserts ts s keyed distinct = (
  merged ts s keyed distinct,
  merge-eq ts s keyed distinct,
  merged-IsKeyed ts s keyed distinct,
  row_at-merged ts s keyed distinct,
)
