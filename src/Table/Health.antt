-- ===== src/Table/Health.antt =====
-- `compare_health` of common/iceberg_meta.py.
use spark_dev.Base.{
  ◌≡◌, ◌≤◌, refl, length, All, All-mono, arith, String, ℕ, List, [], ◌∷◌, map, some, Option,
}
use spark_dev.Base.Text.{Text, codes}
use spark_dev.IcebergMeta.{Size, human, Health}
use spark_dev.Table.{Fits, row_aligned, row, separator, column_widths, widest}

-- `text_of` is the label's code points, `size_text` and `grouped` the formats of a size and of `{v:,}`
module _ (text_of : String → Text) (size_text : Option Size → Text) (grouped : ℕ → Text) where
  abbrev pub health_names : List Text
  health_names =
      codes "Data files"
      ∷ codes "Total size"
      ∷ codes "Avg file size"
      ∷ codes "Snapshots"
      ∷ codes "Manifests"
      ∷ []

  -- a row of `_ROWS` over all results
  abbrev counted : (Health → ℕ) → List Health → List Text
  counted f rs = map (λ r. grouped (f r)) rs

  abbrev sized : (Health → ℕ) → List Health → List Text
  sized f rs = map (λ r. size_text (human (some (f r)))) rs

  unfoldable pub health_lines : List Health → List Text
  unfolding row separator widest human
  health_lines rs =
      let labels = map (λ (r : Health). text_of r.label) rs in
      let ws = column_widths labels in
      let w = widest health_names in
      row w ws (codes "Metric") labels
      ∷ separator w ws
      ∷ row w ws (codes "Data files") (counted (λ r. r.data_files) rs)
      ∷ row w ws (codes "Total size") (sized (λ r. r.total_bytes) rs)
      ∷ row w ws (codes "Avg file size") (sized (λ r. r.avg_file_bytes) rs)
      ∷ row w ws (codes "Snapshots") (counted (λ r. r.snapshot_count) rs)
      ∷ row w ws (codes "Manifests") (counted (λ r. r.manifest_count) rs)
      ∷ []

  -- the printed lines
  unfoldable pub compare_health : List Health → List Text
  unfolding health_lines
  compare_health [] = codes "compare_health(): pass a list of table_health() dicts." ∷ []
  compare_health (r ∷ rs) = health_lines (r ∷ rs)

Fits-labels : (t : Health → Text) (rs : List Health) → Fits (column_widths (map t rs)) (map t rs)
Fits-labels t [] = tt
Fits-labels t (r ∷ rs) = (omega arith, Fits-labels t rs)

Fits-cells :
    (t g : Health → Text) (rs : List Health)
    → All (λ r. length (g r) ≤ 12) rs
    → Fits (column_widths (map t rs)) (map g rs)
Fits-cells t g [] h = tt
Fits-cells t g (r ∷ rs) h = (omega (arith, h.0), Fits-cells t g rs h.1)

-- the numbers of a result are written in at most twelve characters
abbrev pub IsShort : (Option Size → Text) → (ℕ → Text) → Health → Type 0
IsShort size_text grouped r =
    (length (grouped r.data_files) ≤ 12)
    × (length (size_text (human (some r.total_bytes))) ≤ 12)
    × (length (size_text (human (some r.avg_file_bytes))) ≤ 12)
    × (length (grouped r.snapshot_count) ≤ 12)
    × (length (grouped r.manifest_count) ≤ 12)

-- If every number is written in at most twelve characters, all lines of the table that
-- `compare_health` prints for at least one result are as long as its line of dashes.
pub health_aligned :
    (text_of : String → Text) (size_text : Option Size → Text) (grouped : ℕ → Text) (r : Health)
    (rs : List Health)
    → All (IsShort size_text grouped) (r ∷ rs)
    → All
        (λ line.
          length line
          ≡ length (
              separator
                (widest (health_names text_of size_text grouped))
                (column_widths (map (λ (x : Health). text_of x.label) (r ∷ rs)))))
        (compare_health text_of size_text grouped (r ∷ rs))
unfolding compare_health widest
health_aligned text_of size_text grouped r rs h = (
  line (codes "Metric") t (omega arith) (Fits-labels t (r ∷ rs)),
  (
    refl,
    (
      line (codes "Data files") _ (omega arith) (short (λ x. grouped x.data_files) (λ x q. q.0)),
      (
        line (codes "Total size") _ (omega arith)
            (short (λ x. size_text (human (some x.total_bytes))) (λ x q. q.1)),
        (
          line (codes "Avg file size") _ (omega arith)
              (short (λ x. size_text (human (some x.avg_file_bytes))) (λ x q. q.2)),
          (
            line (codes "Snapshots") _ (omega arith)
                (short (λ x. grouped x.snapshot_count) (λ x q. q.3)),
            (
              line (codes "Manifests") _ (omega arith)
                  (short (λ x. grouped x.manifest_count) (λ x q. q.4)),
              tt,
            ),
          ),
        ),
      ),
    ),
  ),
)
  where
    t : Health → Text
    t x = text_of x.label

    width : ℕ
    width = widest (health_names text_of size_text grouped)

    columns : List ℕ
    columns = column_widths (map t (r ∷ rs))

    line :
        (name : Text) (g : Health → Text)
        → length name ≤ 13
        → Fits columns (map g (r ∷ rs))
        → length (row width columns name (map g (r ∷ rs))) ≡ length (separator width columns)
    line name g n f = row_aligned width columns name (map g (r ∷ rs)) n f

    short :
        (g : Health → Text)
        → ((x : Health) → IsShort size_text grouped x → length (g x) ≤ 12)
        → Fits columns (map g (r ∷ rs))
    short g f = Fits-cells t g (r ∷ rs) (All-mono _ _ f (r ∷ rs) h)
