-- ===== src/Labs/OrphanFiles.antt =====
-- iceberg/orphan_files/lak4_orphan_files.ipynb: files in a table's directory that no snapshot
-- references, and their removal.
-- A path is a number, since paths are only compared. Iceberg's `remove_orphan_files` is the parameter
-- `remove_orphans`, of the directory, the referenced files and `older_than`; instants are in seconds.
use spark_dev.Base.{
  ℕ, ◌+◌, ◌-◌, ◌*◌, ◌≤◌, ◌<◌, ◌≡◌, Bool, true, false, not, ◌||◌, List, [], ◌∷◌, ◌++◌, map, filter,
  ◌==◌, ltb, length, if◌then◌else◌,
}
use spark_dev.Base.Sorted.{sorted, is_in}
pub mod Reclaimed

-- the Parquet files of the data directory, each with its path and the time of its last change
abbrev pub Disk : Type 0
Disk = List (ℕ × ℕ)

abbrev pub paths : Disk → List ℕ
paths disk = map (λ f. f.0) disk

unfoldable pub disk_files : Disk → List ℕ
disk_files disk = sorted (paths disk)

-- `[f for f in disk_files() if f not in real_files]`
unfoldable pub orphans : Disk → List ℕ → List ℕ
unfolding disk_files
orphans disk real_files = filter (λ f. not (is_in f real_files)) (disk_files disk)

-- `os.utime(f, (old, old))`
unfoldable pub utime : ℕ → ℕ → Disk → Disk
utime f old disk = map (λ e. if e.0 == f then (f, old) else e) disk

-- the loop that backdates the orphans
unfoldable pub backdate : ℕ → List ℕ → Disk → Disk
unfolding utime
backdate old [] disk = disk
backdate old (f ∷ fs) disk = backdate old fs (utime f old disk)

abbrev pub day : ℕ
day = 86400

-- What Iceberg documents of the procedure: it removes the files that no snapshot references and that
-- were last changed before `older_than`, and those only.
abbrev pub stays : List ℕ → ℕ → ℕ × ℕ → Bool
stays referenced older_than f = is_in f.0 referenced || not (ltb f.1 older_than)

abbrev pub RemovesOrphans : (Disk → List ℕ → ℕ → Disk) → Type 0
RemovesOrphans remove_orphans =
    (disk : Disk) (referenced : List ℕ) (older_than : ℕ)
    → remove_orphans disk referenced older_than ≡ filter (stays referenced older_than) disk

-- From the directory of the table, with what the write past the table adds, to the directory after
-- the removal. `now` and `later` are the two readings of the clock.
unfoldable pub reclaim : (Disk → List ℕ → ℕ → Disk) → List ℕ → ℕ → ℕ → Disk → Disk → Disk
unfolding disk_files orphans backdate
reclaim remove_orphans referenced now later clean added =
    let real_files = disk_files clean in
    let found = orphans (clean ++ added) real_files in
    remove_orphans (backdate (now - 3 * day) found (clean ++ added)) referenced (later - 2 * day)
