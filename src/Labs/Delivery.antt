-- ===== src/Labs/Delivery.antt =====
-- kafka/delivery_semantics/kaf5_delivery.ipynb: a topic with charges sent twice, the count of the
-- times each id is seen, and the revenue with and without deduplication.
-- What a consumer of Kafka reads, the ids of the charges in order for an isolation level, is the
-- parameter `records`. A charge is of one whole unit.
use spark_dev.Base.{
  range_from, ℕ, zero, suc, ◌+◌, ◌==◌, ltb, Bool, true, false, String, List, [], ◌∷◌, ◌++◌, map,
  filter, length, if◌then◌else◌,
}
pub mod Replays
pub mod Sent

pub data Isolation : Type 0 where
  read_uncommitted : Isolation
  read_committed : Isolation

abbrev pub Counter : Type 0
Counter = List (ℕ × ℕ)

-- `counts[i] += 1`
unfoldable pub bump : ℕ → Counter → Counter
bump i [] = (i, 1) ∷ []
bump i ((j, c) ∷ counts) = if i == j then (j, suc c) ∷ counts else (j, c) ∷ bump i counts

-- the `for msg in c` loop
unfoldable pub count_from : Counter → List ℕ → Counter
count_from counts [] = counts
count_from counts (i ∷ ids) = count_from (bump i counts) ids

unfoldable pub consume_id_counts : (Isolation → List ℕ) → Isolation → Counter
consume_id_counts records isolation_level = count_from [] (records isolation_level)

abbrev pub n_events : ℕ
n_events = 1000

abbrev pub resent : ℕ
resent = 200

-- the ids on the topic, when the naive producer has sent some again
unfoldable pub sent : List ℕ
sent = range_from 0 n_events ++ range_from 0 resent

unfoldable pub dupes : Counter → Counter
dupes counts = filter (λ e. ltb 1 e.1) counts

-- `sum(counts.values())`
unfoldable pub seen : Counter → ℕ
seen [] = 0
seen ((i, c) ∷ counts) = c + seen counts

-- each record counted, at one unit
unfoldable pub naive_revenue : Counter → ℕ
naive_revenue counts = seen counts

-- `set(counts.keys())`; the keys of a dict differ from each other
unfoldable pub deduped_ids : Counter → List ℕ
deduped_ids counts = map (λ e. e.0) counts

unfoldable pub deduped_revenue : Counter → ℕ
deduped_revenue counts = length (deduped_ids counts)

-- a line of the last table
pub record Line : Type 0 where
  pub state : String
  pub records : ℕ
  pub distinct_ids : ℕ
  pub dup_ids : ℕ
  pub revenue : ℕ

unfoldable pub rows : Counter → List Line
rows counts =
    record {
      state = "at-least-once (naive resend)";
      records = seen counts;
      distinct_ids = length counts;
      dup_ids = length (dupes counts);
      revenue = naive_revenue counts;
    }
    ∷ record {
      state = "deduped sink (id MERGE)";
      records = seen counts;
      distinct_ids = length (deduped_ids counts);
      dup_ids = 0;
      revenue = deduped_revenue counts;
    }
    ∷ []
