-- ===== src/Airflow/Files.antt =====
-- The files that the tasks of airflow/dags write and read: `os.path.join` and `open`.
-- A file is the list of its lines. Directories are left out: the code makes each one before it
-- writes a file there.
pub mod Writes
use spark_dev.Base.{
  ℕ, Bool, true, false, length-append, ◌∙◌, ap, ◌+◌, ◌≡◌, ◌≢◌, refl, sym, ap, Option, none, some,
  List, [], ◌∷◌, ◌++◌, length, if◌then◌else◌, arith,
}
use spark_dev.Base.Text.{Text, codes, text_eq, text_eq-cases, text_eq_other, text_eq_refl}
use mathlib.Core.Path.{fun_ext}
use mathlib.Core.List.{append_cancel_left, append_cancel_right}

abbrev pub Files : Type 0 → Type 0
Files L = Text → Option (List L)

infixr 60 ◌/◌
-- `os.path.join(dir, name)`, for a `dir` that does not end in a slash and a `name` that does not
-- begin with one
abbrev pub ◌/◌ : Text → Text → Text
dir / name = dir ++ (codes "/" ++ name)

abbrev pub lines_or_none : {L : Type 0} → Option (List L) → List L
lines_or_none none = []
lines_or_none (some lines) = lines

module _ {L : Type 0} where
  abbrev count_of : Option (List L) → Option ℕ
  count_of none = none
  count_of (some lines) = some (length lines)

  -- `with open(path, "w") as f` and the writes of the lines
  unfoldable pub write : Text → List L → Files L → Files L
  write path lines files q = if text_eq path q then some lines else files q

  -- `with open(path, "a") as f` and the writes of the lines
  unfoldable pub append : Text → List L → Files L → Files L
  append path lines files q =
      if text_eq path q then some (lines_or_none (files path) ++ lines) else files q

  -- `os.path.exists(path)`
  unfoldable pub exists : Text → Files L → Bool
  exists path files = elim (files path) [ none ↦ false | some _ ↦ true ]

  -- `sum(1 for _ in open(path))`, which raises for a file that does not exist
  unfoldable pub line_count : Text → Files L → Option ℕ
  line_count path files = count_of (files path)

  -- a task that runs for each of the keys, in order
  unfoldable pub run_each : {K : Type 0} → (K → Files L → Files L) → List K → Files L → Files L
  run_each f [] files = files
  run_each f (k ∷ keys) files = run_each f keys (f k files)

  pub write_same :
      (path : Text) (lines : List L) (files : Files L) → write path lines files path ≡ some lines
  unfolding write
  write_same path lines files = ground (arith, text_eq_refl path)

  pub write_other :
      (path q : Text) (lines : List L) (files : Files L)
      → path ≢ q
      → write path lines files q ≡ files q
  unfolding write
  write_other path q lines files ne = ground (arith, text_eq_other path q ne)

  pub write_again :
      (path : Text) (first second : List L) (files : Files L)
      → write path second (write path first files) ≡ write path second files
  unfolding write
  write_again path first second files = fun_ext (λ q. ground arith)

  pub append_same :
      (path : Text) (lines : List L) (files : Files L)
      → append path lines files path ≡ some (lines_or_none (files path) ++ lines)
  unfolding append
  append_same path lines files = ground (arith, text_eq_refl path)

  pub append_other :
      (path q : Text) (lines : List L) (files : Files L)
      → path ≢ q
      → append path lines files q ≡ files q
  unfolding append
  append_other path q lines files ne = ground (arith, text_eq_other path q ne)

  pub append-length :
      (path : Text) (lines : List L) (files : Files L)
      → length (lines_or_none (append path lines files path))
        ≡ length (lines_or_none (files path)) + length lines
  append-length path lines files =
      ap (λ o. length (lines_or_none o)) (append_same path lines files)
      ∙ length-append (lines_or_none (files path)) lines

  pub line_count-write :
      (path : Text) (lines : List L) (files : Files L)
      → line_count path (write path lines files) ≡ some (length lines)
  unfolding line_count
  line_count-write path lines files = ap count_of (write_same path lines files)

  pub line_count-append :
      (path : Text) (lines : List L) (files : Files L)
      → line_count path (append path lines files)
        ≡ some (length (lines_or_none (files path)) + length lines)
  unfolding line_count
  line_count-append path lines files =
      ap count_of (append_same path lines files)
      ∙ ap some (length-append (lines_or_none (files path)) lines)

-- Two names in one directory are the names of one file only if they are the same.
pub join_inj : (dir a b : Text) → dir / a ≡ dir / b → a ≡ b
join_inj dir a b h =
    append_cancel_left (codes "/") a b (append_cancel_left dir (codes "/" ++ a) (codes "/" ++ b) h)

pub join_left_inj : (a b name : Text) → a / name ≡ b / name → a ≡ b
join_left_inj a b name = append_cancel_right a b (codes "/" ++ name)
