-- ===== src/Capstone/Latest.antt =====
-- `ingest` of capstone/cap1_pipeline.py: the window `w` and `latest`, the row with
-- `row_number() = 1` of each partition by id, newest LSN first and nulls last.
pub mod Keys
pub mod Pick
use spark_dev.Base.{
  ℕ, ◌≤◌, ◌≡◌, ◌↔◌, Bool, true, false, not, Option, none, some, List, [], ◌∷◌, ◌==◌, if◌then◌else◌,
  filter, head?, All, In, length,
}
use spark_dev.Capstone.Events.{Change}

-- `a` stands no earlier than `b` in the order `lsn DESC NULLS LAST`
abbrev pub NoNewer : Option ℕ → Option ℕ → Type 0
NoNewer none b = Unit
NoNewer (some a) none = ⊥
NoNewer (some a) (some b) = a ≤ b

abbrev pub Descends : List Change → Type 0
Descends [] = Unit
Descends (c ∷ cs) = All (λ (d : Change). NoNewer d.lsn c.lsn) cs × Descends cs

-- Spark's sort inside a partition: the same rows, newest first. Among equal LSNs the order is
-- Spark's choice.
pub record Ranking : Type 0 where
  pub order : List Change → List Change
  pub keeps : (c : Change) (cs : List Change) → In c (order cs) ↔ In c cs
  pub descends : (cs : List Change) → Descends (order cs)

-- `partitionBy("id")` puts the rows with a null id together
unfoldable pub same_key : Option ℕ → Option ℕ → Bool
same_key none none = true
same_key none (some b) = false
same_key (some a) none = false
same_key (some a) (some b) = a == b

unfoldable pub partition_keys : List Change → List (Option ℕ)
partition_keys [] = []
partition_keys (c ∷ cs) = c.id ∷ filter (λ k. not (same_key c.id k)) (partition_keys cs)

unfoldable pub partition : Option ℕ → List Change → List Change
partition k cs = filter (λ c. same_key k c.id) cs

-- the row with `row_number() = 1` of each partition
unfoldable pub first_rows : Ranking → List (Option ℕ) → List Change → List Change
first_rows r [] cs = []
first_rows r (k ∷ ks) cs = elim (head? (r.order (partition k cs))) [
  | none ↦ first_rows r ks cs
  | some c ↦ c ∷ first_rows r ks cs
]

unfoldable pub latest : Ranking → List Change → List Change
unfolding partition_keys first_rows
latest r cs = first_rows r (partition_keys cs) cs
