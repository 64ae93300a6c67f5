-- ===== src/Tests/Sessions.antt =====
-- The Spark session and its settings.
use spark_dev.Base.{ℕ, true, ◌≡◌, ◌⊎◌, refl, none, some, List, [], ◌∷◌}
use spark_dev.Base.Effect.{returns, Surroundings}
use spark_dev.Spark.Calls.{
  Call, create_remote, get_remote, get_local, conf_set, conf_get, count_one, set_instantiated,
  Answer, done, session, value,
}
use spark_dev.Spark.Session.{remote_or_default, get_spark}
use spark_dev.Spark.Session.Recovered.{Rebuilt, tuned, get_spark_recovers}
use spark_dev.Labs.Experiments.{Lab}
use spark_dev.Labs.Experiments.Notebooks.{
  prefer_sort_merge, data_skew, shuffle, disk_spill, join_strategies, internals,
}
use spark_dev.Labs.Experiments.Measured.{
  Measures, Salted, Sweep, Spill, Joins, Codegen, comparisons_controlled,
}

-- session 1 is dead, and the builder makes session 2
abbrev restarted : Surroundings Call Answer
restarted [] = none
restarted (count_one s ∷ h) = none
restarted (create_remote r ∷ h) = some (session 2)
restarted (get_remote r ∷ h) = some (session 1)
restarted (get_local ∷ h) = some (session 1)
restarted (conf_set s k v ∷ h) = some done
restarted (conf_get s k ∷ h) = some (value "")
restarted (set_instantiated s ∷ h) = some done

abbrev recovered : List Call
recovered = tuned restarted 2 (create_remote "sc://localhost:15002" ∷ count_one 1 ∷ [])

recovered_run : get_spark none true 1 restarted [] ≡ (returns 2, recovered)
unfolding get_spark
recovered_run = refl

get_spark_recovers_example :
    ((◌≡◌ {A = ℕ} 2 1) × ((a : Answer) × (restarted (count_one 1 ∷ []) ≡ some a)))
    ⊎ ((restarted (count_one 1 ∷ []) ≡ none)
        × Rebuilt restarted (remote_or_default none) (count_one 1 ∷ []) 2 recovered)
get_spark_recovers_example = get_spark_recovers restarted none 1 [] 2 recovered recovered_run

-- a session in which an earlier notebook set one key
abbrev lab : Lab
lab = record { conf = (prefer_sort_merge, "false") ∷ []; measured = [] }

comparisons_controlled_example :
    Measures data_skew Salted lab
    × Measures shuffle Sweep lab
    × Measures disk_spill Spill lab
    × Measures join_strategies Joins lab
    × Measures internals Codegen lab
comparisons_controlled_example = comparisons_controlled lab
