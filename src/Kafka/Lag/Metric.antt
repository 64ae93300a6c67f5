-- ===== src/Kafka/Lag/Metric.antt =====
-- What `consumer_group_lag` of common/kafka_helpers.py reports of each partition.
use spark_dev.Base.{ℕ, max, ◌+◌, ◌-◌, ◌≡◌, refl, ◌⊎◌, inl, inr, Option, none, some, List, [], ◌∷◌}
use native.Mathlib.Omega.{arith}
use spark_dev.Base.Effect.{Outcome, returns, raises}
use spark_dev.Kafka.Lag.{offset_at, PartitionLag, or_zero, partition_lag, lags}

abbrev Measure : List (ℕ × ℕ) → List (ℕ × ℕ) → ℕ → PartitionLag → Type 0
Measure end committed p l =
    (offset_at p end ≡ some l.end)
    × (l.committed ≡ or_zero (offset_at p committed))
    × (l.lag + l.committed ≡ max l.end l.committed)

-- one report per partition, in order, with the offset of its end, its committed offset or 0, and how
-- far the end is ahead
abbrev pub Measured : List (ℕ × ℕ) → List (ℕ × ℕ) → List ℕ → List (ℕ × PartitionLag) → Type 0
Measured end committed [] [] = Unit
Measured end committed [] (l ∷ ls) = ⊥
Measured end committed (p ∷ ps) [] = ⊥
Measured end committed (p ∷ ps) ((q, l) ∷ ls) =
    ((q ≡ p) × Measure end committed p l) × Measured end committed ps ls

-- a partition without an end offset
abbrev pub Unknown : List (ℕ × ℕ) → List ℕ → Type 0
Unknown end [] = ⊥
Unknown end (p ∷ ps) = (offset_at p end ≡ none) ⊎ Unknown end ps

abbrev pub Reports :
    List (ℕ × ℕ) → List (ℕ × ℕ) → List ℕ → Outcome (List (ℕ × PartitionLag)) → Type 0
Reports end committed ps (returns ls) = Measured end committed ps ls
Reports end committed ps raises = Unknown end ps

abbrev One : List (ℕ × ℕ) → List (ℕ × ℕ) → ℕ → Option PartitionLag → Type 0
One end committed p none = offset_at p end ≡ none
One end committed p (some l) = Measure end committed p l

partition_lag_lem :
    (end committed : List (ℕ × ℕ)) (p : ℕ) → One end committed p (partition_lag end committed p)
unfolding partition_lag
partition_lag_lem end committed p = one (offset_at p end) refl
  where
    one :
        (o : Option ℕ)
        → offset_at p end ≡ o
        → One end committed p (elim o [
          | none ↦ none
          | some e ↦
              let position = or_zero (offset_at p committed) in
              some (record { committed = position; end = e; lag = e - position })
        ])
    one none e = e
    one (some x) e = (e, refl, omega arith)

Reports-more :
    (end committed : List (ℕ × ℕ)) (p : ℕ) (ps : List ℕ) (o : Option PartitionLag)
    (rest : Outcome (List (ℕ × PartitionLag)))
    → One end committed p o
    → Reports end committed ps rest
    → Reports end committed (p ∷ ps) (elim o [
      | none ↦ raises
      | some l ↦ elim rest [ returns ls ↦ returns ((p, l) ∷ ls) | raises ↦ raises ]
    ])
Reports-more end committed p ps none rest e r = inl e
Reports-more end committed p ps (some l) raises e r = inr r
Reports-more end committed p ps (some l) (returns ls) e r = ((refl, e), r)

-- The loop of `consumer_group_lag` returns one report for each partition, in order, with its end
-- offset, its committed offset or 0, and a lag that makes up the committed offset to the larger of
-- the two; it raises only when some partition has no end offset.
pub lags_measure :
    (end committed : List (ℕ × ℕ)) (ps : List ℕ) → Reports end committed ps (lags end committed ps)
unfolding lags
lags_measure end committed [] = tt
lags_measure end committed (p ∷ ps) =
    Reports-more end committed p ps (partition_lag end committed p) (lags end committed ps)
      (partition_lag_lem end committed p) (lags_measure end committed ps)
