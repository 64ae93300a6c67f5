-- ===== src/IcebergMeta.antt =====
-- `_human` and `table_health` of common/iceberg_meta.py. `float(n)` is n, which is exact below 2^53,
-- and so are the quotients by 1024, which `:.1f` rounds to the nearest tenth, a tie to the even one.
use spark_dev.Base.{
  ℕ, zero, suc, ◌+◌, ◌*◌, ◌/◌, ◌%◌, ◌^◌, ◌≤◌, ◌<◌, ◌≡◌, ◌⊎◌, Option, none, some, ltb, if◌then◌else◌,
  String, str_eq, arith,
}
use spark_dev.Base.Effect.{Run, perform, pure, ◌>>=◌}

-- the number that is printed, in tenths, and its unit: B, KB, MB, GB and TB from 0
pub record Size : Type 0 where
  pub tenths : ℕ
  pub unit : ℕ

-- n / d to the nearest integer, a tie to the even one
unfoldable pub rounded : ℕ → ℕ → ℕ
rounded n d =
    let q = n / d in
    let twice = 2 * (n % d) in if ltb twice d then q else if ltb d twice then q + 1 else q + q % 2

-- `f"{size:.1f}"` of the size `n / 1024 ** unit`, in tenths
unfoldable pub printed : ℕ → ℕ → Size
unfolding rounded
printed n unit = record { tenths = rounded (10 * n) (1024 ^ unit); unit = unit }

-- the loop over the units, with the unit and how many follow it
unfoldable pub human_from : ℕ → ℕ → ℕ → Size
unfolding printed
human_from n unit zero = printed n unit
human_from n unit (suc more) =
    let rest = human_from n (suc unit) more in
    if ltb n (1024 ^ suc unit) then printed n unit else rest

-- none is "—"
unfoldable pub human : Option ℕ → Option Size
unfolding human_from
human none = none
human (some n) = some (human_from n 0 4)

-- the three metadata tables of a table
pub data Metadata : Type 0 where
  files snapshots manifests : String → Metadata

-- `COUNT(*)` and `COALESCE(SUM(file_size_in_bytes), 0)` of a metadata table
abbrev pub Counts : Type 0
Counts = ℕ × ℕ

pub record Health : Type 0 where
  pub label : String
  pub data_files : ℕ
  pub total_bytes : ℕ
  pub avg_file_bytes : ℕ
  pub snapshot_count : ℕ
  pub manifest_count : ℕ

abbrev label_or : Option String → String → String
label_or none table = table
label_or (some l) table = if str_eq l "" then table else l

-- `(total // data_files) if data_files else 0`
unfoldable pub average : ℕ → ℕ → ℕ
average total zero = 0
average total (suc n) = total / suc n

unfoldable pub table_health : String → Option String → Run Metadata Counts Health
unfolding average
table_health table label = do
  f ← perform (files table)
  s ← perform (snapshots table)
  m ← perform (manifests table)
  pure (record {
    label = label_or label table;
    data_files = f.0;
    total_bytes = f.1;
    avg_file_bytes = average f.1 f.0;
    snapshot_count = s.0;
    manifest_count = m.0;
  })

-- q is at most one half away from n / d.
abbrev pub IsNearest : ℕ → ℕ → ℕ → Type 0
IsNearest n d q = (2 * (q * d) ≤ 2 * n + d) × (2 * n ≤ 2 * (q * d) + d)

-- What `_human` prints of n bytes, where `float(n)` is n: the unit is at most TB. The quotient of n
-- by the unit is below 1024 unless the unit is TB, and at least 1 unless the unit is B. The printed
-- number is the nearest tenth to that quotient; so it is at most 1024.0 unless the unit is TB, and at
-- least 1.0 unless the unit is B.
pub human_from_lem :
    (n : ℕ)
    → (let s = human_from n 0 4 in
        (s.unit ≤ 4)
        × ((n < 1024 ^ suc s.unit) ⊎ (s.unit ≡ 4))
        × ((1024 ^ s.unit ≤ n) ⊎ (s.unit ≡ 0))
        × IsNearest (10 * n) (1024 ^ s.unit) s.tenths
        × ((s.tenths ≤ 10240) ⊎ (s.unit ≡ 4))
        × ((10 ≤ s.tenths) ⊎ (s.unit ≡ 0)))
unfolding human_from printed rounded
human_from_lem n = ground arith
