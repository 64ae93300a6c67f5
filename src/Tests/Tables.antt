-- ===== src/Tests/Tables.antt =====
-- The notebooks on tables of Iceberg.
use spark_dev.Base.{ℕ, List, [], ◌∷◌, filter}
use spark_dev.Labs.OrphanFiles.{Disk, stays}

abbrev remove_orphans : Disk → List ℕ → ℕ → Disk
remove_orphans disk referenced older_than = filter (stays referenced older_than) disk

-- two files of the table, and one that was written past it
abbrev clean : Disk
clean = (5, 1000000) ∷ (2, 1000000) ∷ []

abbrev added : Disk
added = (7, 1000010) ∷ []
