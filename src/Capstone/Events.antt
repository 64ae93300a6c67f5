-- ===== src/Capstone/Events.antt =====
-- `ingest` of capstone/cap1_pipeline.py, from the Kafka values to the table of changes: the
-- schemas `_AFTER` and `_ENV`, and the projections `evt` and `changes`.
-- Every column is nullable. Ids and log positions (LSNs) are only compared, so they are naturals;
-- an amount is the source's NUMERIC(10,2), in hundredths.
use spark_dev.Base.{ℕ, String, Option, none, some, List, [], ◌∷◌, map}
use spark_dev.Base.Int.{ℤ}
use spark_dev.Base.Dict.{or_else}

pub record After : Type 0 where
  pub id : Option ℕ
  pub customer : Option String
  pub amount : Option ℤ
  pub status : Option String
  pub updated : Option ℕ

pub record Source : Type 0 where
  pub lsn : Option ℕ
  pub ts_ms : Option ℕ

pub record Envelope : Type 0 where
  pub before : Option After
  pub after : Option After
  pub op : Option String
  pub ts_ms : Option ℕ
  pub source : Option Source

-- a row of `changes`; `op` is not null there
pub record Change : Type 0 where
  pub op : String
  pub lsn : Option ℕ
  pub id : Option ℕ
  pub customer : Option String
  pub amount : Option ℤ
  pub status : Option String
  pub updated : Option ℕ

-- a field of a struct that may be null
abbrev pub field : {A B : Type 0} → Option A → (A → Option B) → Option B
field none f = none
field (some a) f = f a

abbrev null_envelope : Envelope
null_envelope = record { before = none; after = none; op = none; ts_ms = none; source = none }

-- `select("e.*")`: every column of a null struct is null
unfoldable pub expand : Option Envelope → Envelope
expand none = null_envelope
expand (some e) = e

-- `select("op", "source.lsn", coalesce("after.id", "before.id"), …)`
unfoldable pub project : String → Envelope → Change
project op e = record {
  op = op;
  lsn = field e.source (λ s. s.lsn);
  id = or_else (field e.after (λ a. a.id)) (field e.before (λ b. b.id));
  customer = field e.after (λ a. a.customer);
  amount = field e.after (λ a. a.amount);
  status = field e.after (λ a. a.status);
  updated = field e.after (λ a. a.updated);
}

-- `filter(op IS NOT NULL)` and then the projection, of one envelope
unfoldable pub change_of : Envelope → List Change
unfolding project
change_of e = elim e.op [ none ↦ [] | some op ↦ project op e ∷ [] ]

unfoldable pub changes_of : List Envelope → List Change
changes_of [] = []
changes_of (e ∷ es) = elim (change_of e) [ [] ↦ changes_of es | c ∷ _ ↦ c ∷ changes_of es ]

-- `from_json(CAST(value AS STRING), _ENV)` is Spark's, and the parameter `from_json`: it gives
-- null for a value that is null or does not parse.
unfoldable pub read_changes : (Option String → Option Envelope) → List (Option String) → List Change
unfolding expand changes_of
read_changes from_json values = changes_of (map (λ v. expand (from_json v)) values)
