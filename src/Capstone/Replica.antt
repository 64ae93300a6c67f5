-- ===== src/Capstone/Replica.antt =====
-- The contract of `ingest` of capstone/cap1_pipeline.py: the mirror is a copy of the source table.
-- The source's history, what Debezium publishes for it, and the table that the history leaves.
pub mod Copy
use spark_dev.Base.{
  ℕ, ◌<◌, String, ◌≡◌, ◌⊎◌, Option, none, some, List, [], ◌∷◌, ◌==◌, if◌then◌else◌, All, In,
}
use mathlib.Core.Option
use spark_dev.Base.Int.{ℤ}
use spark_dev.Capstone.Events.{After, Source, Envelope, Change, field, changes_of}
use spark_dev.Capstone.Latest.{Ranking, latest}
use spark_dev.Capstone.Merge.{Row, merge}

-- the columns of a row besides its key
pub record Image : Type 0 where
  pub customer : Option String
  pub amount : Option ℤ
  pub status : Option String
  pub updated : Option ℕ

-- a snapshot read, an insert, an update, a delete
pub data Kind : Type 0 where
  read create update delete : Kind

pub record Entry : Type 0 where
  pub kind : Kind
  pub id : ℕ
  pub lsn : ℕ
  pub image : Image

abbrev pub op_code : Kind → String
op_code read = "r"
op_code create = "c"
op_code update = "u"
op_code delete = "d"

-- what a change leaves of its row
abbrev pub left_of : Kind → Image → Option Image
left_of delete i = none
left_of read i = some i
left_of create i = some i
left_of update i = some i

abbrev pub left_by : Entry → Option Image
left_by e = left_of e.kind e.image

-- The source table after a history, as a map from ids.
unfoldable pub replay : (ℕ → Option Image) → List Entry → ℕ → Option Image
replay t [] k = t k
replay t (e ∷ h) k = replay (λ j. if e.id == j then left_by e else t j) h k

abbrev pub empty_table : ℕ → Option Image
empty_table k = none

-- Changes of one row have growing LSNs; rows of one snapshot may share an LSN.
abbrev pub IsOrdered : List Entry → Type 0
IsOrdered [] = Unit
IsOrdered (e ∷ h) = All (λ (f : Entry). e.id ≡ f.id → e.lsn < f.lsn) h × IsOrdered h

abbrev pub after_image : ℕ → Image → After
after_image k i = record {
  id = some k;
  customer = i.customer;
  amount = i.amount;
  status = i.status;
  updated = i.updated;
}

-- The row in an envelope: a delete has only a key, in the image before.
abbrev pub ShowsRow : Kind → ℕ → Image → Envelope → Type 0
ShowsRow delete k i v = (v.after ≡ none) × (field v.before (λ b. b.id) ≡ some k)
ShowsRow read k i v = v.after ≡ some (after_image k i)
ShowsRow create k i v = v.after ≡ some (after_image k i)
ShowsRow update k i v = v.after ≡ some (after_image k i)

-- The envelope that Debezium publishes for an entry.
pub record Publishes (e : Entry) (v : Envelope) : Type 0 where
  pub op : v.op ≡ some (op_code e.kind)
  pub lsn : field v.source (λ s. s.lsn) ≡ some e.lsn
  pub row : ShowsRow e.kind e.id e.image v

-- A topic carries a history if every entry is published at least once, and nothing else is there
-- but tombstones. Envelopes may come repeatedly and in any order.
pub record Carries (h : List Entry) (vs : List Envelope) : Type 0 where
  pub complete : (e : Entry) → In e h → (v : Envelope) × In v vs × Publishes e v
  pub sound : (v : Envelope) → In v vs → (v.op ≡ none) ⊎ ((e : Entry) × In e h × Publishes e v)

abbrev pub image_of : Row → Image
image_of r = record {
  customer = r.customer;
  amount = r.amount;
  status = r.status;
  updated = r.updated;
}

-- `ingest` from the envelopes to the new mirror: `changes`, `latest`, and the MERGE into the table
-- that was created empty.
unfoldable pub ingest : Ranking → List Envelope → Option (List Row)
unfolding changes_of latest merge
ingest r vs = merge [] (latest r (changes_of vs))
