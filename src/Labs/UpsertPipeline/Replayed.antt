-- ===== src/Labs/UpsertPipeline/Replayed.antt =====
-- The MERGE of debezium/cdc_to_iceberg/cdc7_upsert_pipeline.ipynb, run once and again.
use spark_dev.Base.{ℕ, ◌≡◌, ap, ◌∙◌, Option, none, some, List, [], arith}
use spark_dev.Capstone.Events.{Change}
use spark_dev.Capstone.Latest.{Ranking, latest}
use spark_dev.Capstone.Latest.Pick.{latest-IsDistinct}
use spark_dev.Capstone.Merge.{Row}
use spark_dev.Capstone.Merge.Lookup.{count_id, IsKeyed}
use spark_dev.Capstone.Merge.Again.{merge_retry}
use spark_dev.Labs.UpsertPipeline.{lab_latest, lab_merge, first_merge, replayed, statuses}

no_rows-IsKeyed : IsKeyed []
unfolding count_id
no_rows-IsKeyed k = omega arith

-- For any changes, both merges go through, and the replay leaves the status of every id.
pub replayed_same :
    (r : Ranking) (changes : List Change)
    → (mirror again : List Row) × (first_merge r changes ≡ some mirror)
      × (replayed r changes ≡ some again)
      × ((k : ℕ) → statuses again k ≡ statuses mirror k)
unfolding first_merge replayed lab_merge lab_latest statuses
replayed_same r changes =
    let (mirror, again, e, e', same) =
      merge_retry [] (latest r changes) no_rows-IsKeyed (latest-IsDistinct r changes) in
    (
      mirror,
      again,
      e,
      ap (λ o. elim o [ Option.none ↦ none | Option.some m ↦ lab_merge m (latest r changes) ]) e
          ∙ e',
      λ k. ap (λ o. elim o [ Option.none ↦ none | Option.some row ↦ some row.status ]) (same k),
    )
