-- ===== src/Kafka/Lag.antt =====
-- `topic_end_offsets` and `consumer_group_lag` of common/kafka_helpers.py.
pub mod Metric
use spark_dev.Base.{
  ℕ, ◌-◌, Bool, true, false, Option, none, some, List, [], ◌∷◌, ◌==◌, if◌then◌else◌,
}
use spark_dev.Base.Text.{Text}
use spark_dev.Base.Effect.{Outcome, returns, raises, perform, pure, raise, finally, ◌>>=◌, ◌>>◌}
use spark_dev.Kafka.Calls.{
  Call, admin_open, admin_close, list_offsets, consumer_open, consumer_close, partitions_for_topic,
  assign, end_offsets, Answer, done, partitions, offsets, committed_offsets, Kafka,
}

-- a dict keyed by partitions
unfoldable pub offset_at : ℕ → List (ℕ × ℕ) → Option ℕ
offset_at p [] = none
offset_at p ((q, n) ∷ os) = if q == p then some n else offset_at p os

-- `… or set()`; an answer of another kind does not come
abbrev parts_of : Answer → Kafka (List ℕ)
parts_of (partitions none) = pure []
parts_of (partitions (some ps)) = pure ps
parts_of done = raise
parts_of (offsets os) = raise
parts_of (committed_offsets os) = raise

abbrev offsets_of : Answer → Kafka (List (ℕ × ℕ))
offsets_of (offsets os) = pure os
offsets_of done = raise
offsets_of (partitions ps) = raise
offsets_of (committed_offsets os) = raise

abbrev committed_of : Answer → Kafka (List (ℕ × ℕ))
committed_of (committed_offsets os) = pure os
committed_of done = raise
committed_of (partitions ps) = raise
committed_of (offsets os) = raise

unfoldable pub topic_end_offsets : Text → Kafka (List (ℕ × ℕ))
topic_end_offsets topic = do
  perform consumer_open
  finally
      (do
        p ← perform (partitions_for_topic topic)
        parts ← parts_of p
        perform (assign topic parts)
        e ← perform (end_offsets topic parts)
        offsets_of e)
      consumer_close

-- the dict of a partition
pub record PartitionLag : Type 0 where
  pub committed : ℕ
  pub end : ℕ
  pub lag : ℕ

abbrev pub or_zero : Option ℕ → ℕ
or_zero none = 0
or_zero (some n) = n

-- one round of the loop: `end[tp]` raises without an offset, and `max(0, e - com)` is `e - position` on ℕ
unfoldable pub partition_lag : List (ℕ × ℕ) → List (ℕ × ℕ) → ℕ → Option PartitionLag
unfolding offset_at
partition_lag end committed p = elim (offset_at p end) [
  | none ↦ none
  | some e ↦
      let position = or_zero (offset_at p committed) in
      some (record { committed = position; end = e; lag = e - position })
]

unfoldable pub lags : List (ℕ × ℕ) → List (ℕ × ℕ) → List ℕ → Outcome (List (ℕ × PartitionLag))
unfolding partition_lag
lags end committed [] = returns []
lags end committed (p ∷ ps) =
    let rest = lags end committed ps in
    elim (partition_lag end committed p) [
      | none ↦ raises
      | some l ↦ elim rest [ returns ls ↦ returns ((p, l) ∷ ls) | raises ↦ raises ]
    ]

abbrev lift : {A : Type 0} → Outcome A → Kafka A
lift r env h = (r, h)

unfoldable pub consumer_group_lag : Text → Text → Kafka (List (ℕ × PartitionLag))
unfolding lags
consumer_group_lag group_id topic = do
  perform admin_open
  perform consumer_open
  finally
      (finally
        (do
          p ← perform (partitions_for_topic topic)
          parts ← parts_of p
          perform (assign topic parts)
          e ← perform (end_offsets topic parts)
          end ← offsets_of e
          c ← perform (list_offsets group_id)
          committed ← committed_of c
          lift (lags end committed parts))
        consumer_close)
      admin_close
