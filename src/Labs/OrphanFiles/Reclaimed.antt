-- ===== src/Labs/OrphanFiles/Reclaimed.antt =====
-- The removal of the orphans in lak4_orphan_files.ipynb leaves the table's files.
use spark_dev.Base.{ℕ, ◌≡◌, refl, ap, List, [], ◌∷◌, ◌++◌, map, filter, if◌then◌else◌}
use spark_dev.Base.Sorted.{is_in}
use spark_dev.Labs.OrphanFiles.{Disk, paths, stays}

-- a file after the loop that backdates
abbrev stamped : ℕ → List ℕ → ℕ × ℕ → ℕ × ℕ
stamped old fs f = if is_in f.0 fs then (f.0, old) else f

module _ (referenced : List ℕ) (older old : ℕ) (fs : List ℕ) where
  abbrev left : Disk → List ℕ
  left disk = paths (filter (stays referenced older) (map (stamped old fs) disk))

paths-append : (a b : Disk) → paths (a ++ b) ≡ paths a ++ paths b
paths-append [] b = refl
paths-append (f ∷ a) b = ap (λ l. f.0 ∷ l) (paths-append a b)
