-- ===== src/Labs/Backpressure.antt =====
-- kafka/backpressure/str3_backpressure.ipynb: a backlog that a stream drains in one batch, or in
-- batches of a bounded size.
-- Spark is the parameter `batches`: the batches in which a run with `availableNow` reads a backlog,
-- for a value of `maxOffsetsPerTrigger` or none. `IsBatched` has what it documents of them. `parse` is
-- the reading of a value by the schema.
use spark_dev.Base.{
  ◌≡◌, ◌≤◌, All, ℕ, zero, suc, ◌+◌, ◌*◌, ◌%◌, Bool, true, false, Option, none, some, String, List,
  [], ◌∷◌, ◌++◌, map, filter, length, take, range_from, ltb,
}
use spark_dev.Base.Text.{Text, codes}
use spark_dev.Labs.Checkpoints.{drop}
pub mod Batches

-- the columns of `schema`
pub record Row : Type 0 where
  pub order_id : Option ℕ
  pub amount : Option String
  pub payload : Option Text

abbrev pub n_events : ℕ
n_events = 5000

-- the dict of an event; the amount is in tenths
pub record Event : Type 0 where
  pub order_id : ℕ
  pub amount : ℕ
  pub payload : Text

abbrev pub xs : ℕ → Text
xs zero = []
xs (suc n) = codes "x" ++ xs n

-- `decimal` writes a number.
unfoldable pub event : (ℕ → Text) → ℕ → Event
event decimal i = record {
  order_id = i;
  amount = i % 1000 * 15;
  payload = codes "order-" ++ decimal i ++ codes "-" ++ xs 100;
}

unfoldable pub backlog : (ℕ → Text) → List Event
backlog decimal = map (event decimal) (range_from 0 n_events)

abbrev pub join : {V : Type 0} → List (List V) → List V
join [] = []
join (b ∷ bs) = b ++ join bs

-- The batches have the whole backlog, in order, and at most as many values as the cap.
pub record IsBatched {V : Type 0} (batches : Option ℕ → List V → List (List V)) : Type 0 where
  pub whole : (cap : Option ℕ) (values : List V) → join (batches cap values) ≡ values
  pub bounded :
      (cap : ℕ) (values : List V) → All (λ b. length b ≤ suc cap) (batches (some (suc cap)) values)

-- What `run_stream` leaves: the rows that it appended to the sink, and the number of rows of each
-- batch.
pub record Query : Type 0 where
  pub sink : List Row
  pub progress : List ℕ

unfoldable pub run_stream :
    {V : Type 0}
    → (Option ℕ → List V → List (List V))
    → (V → Row)
    → Option ℕ
    → List V
    → List Row
    → Query
run_stream batches parse max_offsets values sink = record {
  sink = sink ++ map parse (join (batches max_offsets values));
  progress = map length (batches max_offsets values);
}

-- `batch_shape`: the batches with rows, numbered from a number on
unfoldable pub shape_from : ℕ → List ℕ → List (ℕ × ℕ)
shape_from id [] = []
shape_from id (zero ∷ progress) = shape_from (suc id) progress
shape_from id (suc n ∷ progress) = (id, suc n) ∷ shape_from (suc id) progress

unfoldable pub batch_shape : Query → List (ℕ × ℕ)
batch_shape q = shape_from 0 q.progress

-- the sum of `summarize`
unfoldable pub shape_rows : List (ℕ × ℕ) → ℕ
shape_rows [] = 0
shape_rows ((id, n) ∷ shape) = n + shape_rows shape
