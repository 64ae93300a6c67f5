-- ===== src/Labs/UpsertPipeline.antt =====
-- debezium/cdc_to_iceberg/cdc7_upsert_pipeline.ipynb: the change events of a table, merged into an
-- Iceberg mirror, and the merge run again. The schemas and the statements are those of
-- capstone/cap1_pipeline.py, so their definitions are shared.
use spark_dev.Base.{ℕ, ◌≡◌, refl, sym, ap, ◌∙◌, Option, none, some, String, List, [], ◌∷◌, map, In}
use spark_dev.Capstone.Events.{Envelope, Change, read_changes, changes_of}
use spark_dev.Capstone.Latest.{Ranking, latest}
use spark_dev.Capstone.Merge.{Row, merge}
use spark_dev.Capstone.Merge.Lookup.{row_at}
pub mod Replayed

-- `changes`, from the Kafka values
unfoldable pub lab_changes : (Option String → Option Envelope) → List (Option String) → List Change
unfolding read_changes
lab_changes from_json values = read_changes from_json values

-- `latest`, the view `cdc7_changes`
unfoldable pub lab_latest : Ranking → List Change → List Change
unfolding latest
lab_latest r changes = latest r changes

-- the MERGE into the mirror
unfoldable pub lab_merge : List Row → List Change → Option (List Row)
unfolding merge
lab_merge mirror changes = merge mirror changes

-- the mirror that was created empty, after the first MERGE
unfoldable pub first_merge : Ranking → List Change → Option (List Row)
unfolding lab_latest lab_merge
first_merge r changes = lab_merge [] (lab_latest r changes)

-- the mirror after the replay
unfoldable pub replayed : Ranking → List Change → Option (List Row)
unfolding first_merge
replayed r changes = elim (first_merge r changes) [
  | none ↦ none
  | some mirror ↦ lab_merge mirror (lab_latest r changes)
]

-- `{r["id"]: r["status"] for r in …}`, as a function of the id
unfoldable pub statuses : List Row → ℕ → Option (Option String)
unfolding row_at
statuses rows k = elim (row_at k rows) [ none ↦ none | some r ↦ some r.status ]
