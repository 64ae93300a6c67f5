-- ===== src/Capstone/Stages.antt =====
-- capstone/cap1_pipeline.py: the wait of `ingest` for the snapshot, its live changes, the statements
-- of `cleanup`, and the dispatch of the stages. `unicode` is what Python knows of characters.
use spark_dev.Base.{
  ℕ, zero, suc, ◌+◌, true, false, none, some, String, List, [], ◌∷◌, ◌++◌, leb, if◌then◌else◌, ◌≡◌,
}
use spark_dev.Base.Text.{Text, codes}
use spark_dev.Base.Dict.{Dict, lookup}
use spark_dev.Base.Effect.{Surroundings, perform, pure, catch, ◌>>=◌, ◌>>◌}
use spark_dev.Base.Soft.{Soft, Soft-pure, Soft-perform, Soft-bind, Soft-catch, Soft-if}
use spark_dev.Kafka.Calls as Kafka
use spark_dev.Kafka.Lag.{topic_end_offsets}
use spark_dev.Cdc.Calls.{Cdc}
use spark_dev.Cdc.Slot.{Unicode, topic_name}
use spark_dev.Cdc.Postgres.{pg_exec}
use spark_dev.Cdc.Teardown.{teardown}

abbrev pub connector_name : Text
connector_name = codes "cap1-orders"

abbrev pub source_table : Text
source_table = codes "cap1_orders"

abbrev pub topic : Text
topic = topic_name source_table (codes "public")

abbrev pub mirror : Text
mirror = codes "iceberg_catalog.default.cap1_orders_mirror"

abbrev pub mart : Text
mart = codes "iceberg_catalog.default.cap1_orders_by_status"

-- `sum(off.values())`
unfoldable pub sum_offsets : List (ℕ × ℕ) → ℕ
sum_offsets [] = 0
sum_offsets ((p, n) ∷ off) = n + sum_offsets off

-- `try: off = topic_end_offsets(TOPIC) except Exception: off = {}`
unfoldable pub offsets_or_empty : Kafka.Kafka (List (ℕ × ℕ))
offsets_or_empty = catch (topic_end_offsets topic) (pure [])

-- the `for` loop that waits for the 12 rows of the snapshot, with so many turns left
unfoldable pub await_snapshot : ℕ → Kafka.Kafka (Unit {0})
unfolding offsets_or_empty sum_offsets
await_snapshot zero = pure tt
await_snapshot (suc n) = do
  off ← offsets_or_empty
  (if leb 12 (sum_offsets off) then pure tt else (do perform (Kafka.sleep 2000); await_snapshot n))

-- the changes after the snapshot: an update, a deletion, an insertion
unfoldable pub live_changes : Cdc (Unit {0})
unfolding pg_exec
live_changes = do
  pg_exec
      (codes "UPDATE public."
        ++ source_table
        ++ codes " SET status='PAID', amount=777.0 WHERE id=1")
      [] false
  pg_exec (codes "DELETE FROM public." ++ source_table ++ codes " WHERE id=2") [] false
  pg_exec
      (codes "INSERT INTO public."
        ++ source_table
        ++ codes "(id,customer,amount,status) VALUES (500,'capstone',55.5,'NEW')")
      [] false
  pure tt

-- the statements that `cleanup` gives to Spark, before it tears the source down
abbrev pub cleanup_statements : List Text
cleanup_statements =
    (codes "DROP TABLE IF EXISTS " ++ mart) ∷ (codes "DROP TABLE IF EXISTS " ++ mirror) ∷ []

-- `cdc.teardown(NAME, TABLE)`
unfoldable pub cleanup_source : Unicode → Cdc (Unit {0})
unfolding teardown
cleanup_source unicode = teardown unicode connector_name (some source_table) none true

pub data Stage : Type 0 where
  ingest : Stage
  transform : Stage
  quality : Stage
  cleanup : Stage

abbrev pub stages : Dict Stage
stages =
    ("ingest", ingest) ∷ ("transform", transform) ∷ ("quality", quality) ∷ ("cleanup", cleanup) ∷ []

-- what the script does with its arguments: a stage that it runs, or the exit status
pub data Command : Type 0 where
  run_stage : Stage → Command
  exit : ℕ → Command

abbrev stage_name : List String → String
stage_name [] = ""
stage_name (script ∷ []) = ""
stage_name (script ∷ stage ∷ rest) = stage

unfoldable pub main : List String → Command
unfolding lookup
main argv = elim (lookup (stage_name argv) stages) [ none ↦ exit 2 | some s ↦ run_stage s ]

-- The wait returns, whatever Kafka answers, if time.sleep does.
pub await_snapshot-Soft :
    (env : Surroundings Kafka.Call Kafka.Answer)
    → ((d : ℕ) (h : List Kafka.Call) → (a : Kafka.Answer) × (env (Kafka.sleep d ∷ h) ≡ some a))
    → (n : ℕ) → Soft env (await_snapshot n)
unfolding await_snapshot offsets_or_empty
await_snapshot-Soft env sleeps zero = Soft-pure env tt
await_snapshot-Soft env sleeps (suc n) =
    let again = await_snapshot-Soft env sleeps n in
    Soft-bind env offsets_or_empty _ (Soft-catch env _ _ (Soft-pure env [])) (λ off.
      Soft-if env (leb 12 (sum_offsets off)) _ _ (Soft-pure env tt) (
        Soft-bind env (perform (Kafka.sleep 2000)) _ (Soft-perform env _ (sleeps 2000))
          (λ _. again)))
