-- ===== src/Labs/Retention.antt =====
-- kafka/retention/kaf4_retention.ipynb: a compacted topic of states, and the latest value of each
-- key. `decimal` writes a number; whole versions stand for the float `v`.
use spark_dev.Base.{
  ℕ, ◌*◌, ◌/◌, ◌%◌, ◌≡◌, refl, sym, ◌∙◌, Option, none, some, String, List, [], ◌∷◌, ◌++◌, map,
  length, leb, range_from, if◌then◌else◌,
}
use spark_dev.Base.Dict.{Dict, lookup, update, last_lookup, or_else, lookup-update}

-- the dict that a state record carries
pub record Value : Type 0 where
  pub key : String
  pub version : ℕ
  pub v : ℕ

abbrev pub n_keys : ℕ
n_keys = 5

abbrev pub n_versions : ℕ
n_versions = 10

-- `user` writes a user's number into a key, `f"user-{…}"`.
module _ (user : ℕ → String) where
  unfoldable pub state_key : ℕ → String
  state_key i = user (i % n_keys)

  unfoldable pub state_value : ℕ → Value
  state_value i = record { key = user (i % n_keys); version = i / n_keys; v = i }

  -- the records of the topic, as `produce_events` sends them
  unfoldable pub produced : Dict Value
  produced = map (λ i. (state_key i, state_value i)) (range_from 0 (n_keys * n_versions))

module _ {R : Type 0} where
  -- the loop of `read_all`, which stops when it has `max_records`
  unfoldable pub read_loop : ℕ → List R → List R → List R
  read_loop max_records out [] = out
  read_loop max_records out (msg ∷ records) =
      let out' = out ++ (msg ∷ []) in
      let rest = read_loop max_records out' records in
      if leb max_records (length out') then out' else rest

  unfoldable pub read_all : ℕ → List R → List R
  read_all max_records records = read_loop max_records [] records

-- `for k, v in records: latest_per_key[k] = v`
unfoldable pub latest_per_key : {V : Type 0} → Dict V → Dict V
unfolding update
latest_per_key records = update [] records

or_else-none : {V : Type 0} (o : Option V) → or_else o none ≡ o
or_else-none none = refl
or_else-none (some a) = refl

-- The latest value of a key is the last one that was read.
pub latest_per_key_lem :
    {V : Type 0} (k : String) (records : Dict V)
    → lookup k (latest_per_key records) ≡ last_lookup k records
unfolding latest_per_key lookup
latest_per_key_lem k records = lookup-update k [] records ∙ or_else-none (last_lookup k records)

-- What Kafka documents of compaction: the last record of each key stays.
abbrev pub IsCompacted : {V : Type 0} → Dict V → Dict V → Type 0
IsCompacted log compacted = (k : String) → last_lookup k compacted ≡ last_lookup k log

-- Compaction leaves the latest value of every key.
pub latest_per_key-IsCompacted :
    {V : Type 0} (log compacted : Dict V) (k : String)
    → IsCompacted log compacted
    → lookup k (latest_per_key compacted) ≡ lookup k (latest_per_key log)
latest_per_key-IsCompacted log compacted k h =
    latest_per_key_lem k compacted ∙ h k ∙ sym (latest_per_key_lem k log)
