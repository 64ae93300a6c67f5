-- ===== src/Capstone/Merge/Again.antt =====
-- A retry of the MERGE of capstone/cap1_pipeline.py with the same source table.
use spark_dev.Base.{ℕ, ◌≡◌, refl, ap, sym, ◌∙◌, Option, none, some, List, head?, arith}
use spark_dev.Capstone.Events.{Change}
use spark_dev.Capstone.Merge.{Row, matching, matched, not_matched, merge}
use spark_dev.Capstone.Merge.Lookup.{row_at, IsKeyed}
use spark_dev.Capstone.Merge.Upsert.{upsert, merge_upserts}
use spark_dev.Capstone.Merge.Kept.{IsDistinct}

upsert_twice : (o : Option Row) (c : Option Change) → upsert (upsert o c) c ≡ upsert o c
unfolding upsert matched not_matched
upsert_twice none none = refl
upsert_twice none (some c) = ground arith
upsert_twice (some t) none = refl
upsert_twice (some t) (some c) = ground arith

-- If no id occurs twice in the mirror or in the source table, running the MERGE a second time on
-- what the first one left does not raise and leaves the row of every id as it is.
pub merge_retry :
    (ts : List Row) (s : List Change)
    → IsKeyed ts
    → IsDistinct s
    → (rows again : List Row) × (merge ts s ≡ some rows)
      × (merge rows s ≡ some again)
      × ((k : ℕ) → row_at k again ≡ row_at k rows)
merge_retry ts s keyed distinct =
    let (rows, e, keyed', at) = merge_upserts ts s keyed distinct in
    let (again, e', _, at') = merge_upserts rows s keyed' distinct in
    (
      rows,
      again,
      e,
      e',
      λ k.
          at' k
          ∙ (ap (λ o. upsert o (head? (matching (some k) s))) (at k)
              ∙ (upsert_twice (row_at k ts) (head? (matching (some k) s)) ∙ sym (at k))),
    )
