-- ===== src/Airflow/Partitions/Replay.antt =====
-- Runs of a task again, and for many dates: the tasks of af1_idempotency.py and
-- af3_catchup_backfill.py under airflow/dags.
use spark_dev.Base.{
  ℕ, zero, suc, ◌+◌, ◌*◌, ◌≡◌, ◌⊎◌, inl, inr, refl, sym, ap, ◌∙◌, Option, none, some, List, [], ◌∷◌,
  ◌++◌, if◌then◌else◌, length, arith,
}
use spark_dev.Base.Text.{Text, codes, text_eq, text_eq-cases, text_eq_refl, text_eq_other}
use spark_dev.Base.Int.{ℤ}
use spark_dev.Base.Dict.{or_else}
use spark_dev.Airflow.Files.{
  Files, ◌/◌, line_count, lines_or_none, line_count-write, line_count-append, append-length,
  join_inj, join_left_inj, write, run_each, write_same, write_other,
}
use spark_dev.Airflow.Partitions.{
  Metric, partition_path, rows_for_interval, append_partition, overwrite_partition, data_path,
  data_lines, TaskRun, write_partition, replay, out_af3,
}
use mathlib.Core.List.{append_cancel_left}
use mathlib.Core.Path.{fun_ext, ap₂}
use mathlib.Core.Option.{some-injective, none-ne-some}

-- a task that runs n times
abbrev pub times {ℓ} : {A : Type ℓ} → ℕ → (A → A) → A → A
times zero f a = a
times (suc n) f a = f (times n f a)

module _ (repo : Text) (hash : Text → ℤ) where
  abbrev broken_path : Text → Text
  broken_path = partition_path repo (codes "append_broken")

  abbrev fixed_path : Text → Text
  fixed_path = partition_path repo (codes "overwrite_fixed")

  appended_lines :
      (ds : Text) (k : ℕ) (files : Files Metric)
      → length (lines_or_none (times k (append_partition repo hash ds) files (broken_path ds)))
        ≡ length (lines_or_none (files (broken_path ds))) + 3 * k
  unfolding append_partition rows_for_interval
  appended_lines ds zero files = omega arith
  appended_lines ds (suc k) files = omega (
    arith,
    appended_lines ds k files,
    append-length (broken_path ds) (rows_for_interval hash ds)
        (times k (append_partition repo hash ds) files),
  )

  -- However often the two tasks of a date run again, `overwrite_partition` leaves 3 lines in the
  -- file of the date, and `append_partition` adds 3 lines each time to those that were there.
  pub reruns_count :
      (ds : Text) (k : ℕ) (files : Files Metric)
      → (line_count (fixed_path ds) (times (suc k) (overwrite_partition repo hash ds) files)
          ≡ some 3)
        × (line_count (broken_path ds) (times (suc k) (append_partition repo hash ds) files)
            ≡ some (length (lines_or_none (files (broken_path ds))) + 3 * suc k))
  unfolding overwrite_partition append_partition rows_for_interval
  reruns_count ds k files =
      let rows = rows_for_interval hash ds in
      (
        line_count-write (fixed_path ds) rows (times k (overwrite_partition repo hash ds) files),
        line_count-append (broken_path ds) rows (times k (append_partition repo hash ds) files)
            ∙ ap some (omega (arith, appended_lines ds k files)),
      )

-- One date has one file.
pub data_path_inj : (repo a b : Text) → data_path repo a ≡ data_path repo b → a ≡ b
unfolding data_path
data_path_inj repo a b h = append_cancel_left (codes "dt=") a b (
    join_inj (out_af3 repo) (codes "dt=" ++ a) (codes "dt=" ++ b) (
      join_left_inj (out_af3 repo / (codes "dt=" ++ a)) (out_af3 repo / (codes "dt=" ++ b))
        (codes "data.txt") h))

-- the hash of a date in the process of the last run for it
unfoldable pub last_hash : Text → List TaskRun → Option ℤ
last_hash ds [] = none
last_hash ds (r ∷ runs) =
    or_else (last_hash ds runs) (if text_eq r.ds ds then some (r.hash r.ds) else none)

module _ (repo : Text) (shown : ℕ → Text) where
  -- What a file holds after the runs: what the last run for its date writes, or what it held before.
  abbrev IsReplayed : List TaskRun → Files Text → Text → Type 0
  IsReplayed runs files q =
      ((ds : Text) × (v : ℤ) × (data_path repo ds ≡ q)
        × (last_hash ds runs ≡ some v)
        × (replay repo shown runs files q ≡ some (data_lines shown ds v)))
      ⊎ (((ds : Text) → data_path repo ds ≡ q → last_hash ds runs ≡ none)
          × (replay repo shown runs files q ≡ files q))

  replay-IsReplayed :
      (runs : List TaskRun) (files : Files Text) (q : Text) → IsReplayed runs files q
  unfolding replay run_each write_partition last_hash
  replay-IsReplayed [] files q = inr (λ ds e. refl, refl)
  replay-IsReplayed (r ∷ runs) files q =
      elim (replay-IsReplayed runs (write_partition repo shown r files) q) [
        | inl (ds, v, e, l, w) ↦ inl (ds, v, e, ap (λ o. or_else o (here r ds)) l, w)
        | inr (out, w) ↦ elim (text_eq-cases (data_path repo r.ds) q) [
          | inl e ↦ inl (
            r.ds,
            r.hash r.ds,
            e,
            ap (λ o. or_else o (here r r.ds)) (out r.ds e)
                ∙ ap (λ b. if b then some (r.hash r.ds) else none) (text_eq_refl r.ds),
            w ∙ written r e,
          )
          | inr (ne, _) ↦ inr (
            λ ds e.
                ap (λ o. or_else o (here r ds)) (out ds e)
                ∙ ap (λ b. if b then some (r.hash r.ds) else none)
                    (text_eq_other r.ds ds (λ same. ne (ap (data_path repo) same ∙ e))),
            w ∙ write_other (data_path repo r.ds) q (data_lines shown r.ds (r.hash r.ds)) files ne,
          )
        ]
      ]
    where
      here : TaskRun → Text → Option ℤ
      here r ds = if text_eq r.ds ds then some (r.hash r.ds) else none

      written :
          (r : TaskRun)
          → data_path repo r.ds ≡ q
          → write_partition repo shown r files q ≡ some (data_lines shown r.ds (r.hash r.ds))
      written r e =
          let lines = data_lines shown r.ds (r.hash r.ds) in
          ap (write (data_path repo r.ds) lines files) (sym e)
          ∙ write_same (data_path repo r.ds) lines files

  -- Two sequences of runs leave the same files, in whatever order and however often they run each
  -- date, if for each date the last run of the one and the last run of the other are in processes
  -- that give the date the same hash, or neither has a run for it.
  pub replay_converges :
      (xs ys : List TaskRun) (files : Files Text)
      → ((ds : Text) → last_hash ds xs ≡ last_hash ds ys)
      → replay repo shown xs files ≡ replay repo shown ys files
  replay_converges xs ys files same =
      fun_ext (λ q. agree q (replay-IsReplayed xs files q) (replay-IsReplayed ys files q))
    where
      agree :
          (q : Text)
          → IsReplayed xs files q
          → IsReplayed ys files q
          → replay repo shown xs files q ≡ replay repo shown ys files q
      agree q (inl (a, v, e, l, w)) (inl (b, v', e', l', w')) =
          let one = data_path_inj repo a b (e ∙ sym e') in
          let value =
            some-injective v v' (sym l ∙ (same a ∙ (ap (λ d. last_hash d ys) one ∙ l'))) in
          w ∙ (ap some (ap₂ (data_lines shown) one value) ∙ sym w')
      agree q (inl (a, v, e, l, w)) (inr (out, w')) =
          absurd (none-ne-some v (sym (out a e) ∙ (sym (same a) ∙ l)))
      agree q (inr (out, w)) (inl (b, v, e, l, w')) =
          absurd (none-ne-some v (sym (out b e) ∙ (same b ∙ l)))
      agree q (inr (_, w)) (inr (_, w')) = w ∙ sym w'
