-- ===== src/Labs/Experiments.antt =====
-- The cells of the Spark notebooks that measure an action under a profile: the settings of the
-- session, and each measurement with the settings that it was made under.
-- What `apply_profile` sets is `settings_of` of common/profiles.py; the notebooks' overrides are
-- texts, and the names of both profiles are in PROFILES. `spark.conf` keeps what was set last.
pub mod Settled
pub mod Notebooks
pub mod Measured
use mathlib.Core.Option.{some-injective}
use spark_dev.Base.{
  ◌≡◌, refl, sym, ap, ◌∙◌, ◌⊎◌, inl, inr, Bool, true, false, if◌then◌else◌, none, some, Option,
  String, List, [], ◌∷◌, ◌++◌, arith, str_eq, Option-cases,
}
use spark_dev.Base.Dict.{Dict, lookup, update, last_lookup, or_else, lookup-update}
use spark_dev.Spark.Profiles.{constrained, tuned, profiles, settings_of, stringified}
use spark_dev.Spark.Profiles.Applied.{last_lookup-settings_of}

pub data Cell : Type 0 where
  -- `apply_profile(spark, name, **overrides)`
  apply_profile : String → Dict String → Cell
  -- `spark.conf.set(key, value)`
  conf_set : String → String → Cell
  -- `measure(spark, label, …)`
  measure : String → Cell

pub record Lab : Type 0 where
  pub conf : Dict String
  -- the labels of the measurements, newest first, with the settings under which they were made
  pub measured : List (String × Dict String)

-- the cells of a notebook in order; a profile that is not in PROFILES raises
unfoldable pub run : List Cell → Lab → Option Lab
run [] lab = some lab
run (apply_profile name overrides ∷ cells) lab = elim (lookup name profiles) [
  | none ↦ none
  | some profile ↦
      run cells (record lab { conf = update lab.conf (settings_of (λ v. v) profile overrides) })
]
run (conf_set key value ∷ cells) lab =
    run cells (record lab { conf = update lab.conf ((key, value) ∷ []) })
run (measure label ∷ cells) lab =
    run cells (record lab { measured = (label, lab.conf) ∷ lab.measured })
