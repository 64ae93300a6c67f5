-- ===== src/Labs/Experiments/Notebooks.antt =====
-- What each of the Spark notebooks does to the session's settings and measures, up to its last cell.
use spark_dev.Base.{String, List, [], ◌∷◌, ◌++◌}
use spark_dev.Base.Dict.{Dict}
use spark_dev.Labs.Experiments.{Cell, apply_profile, conf_set, measure}

abbrev pub partitions_key : String
partitions_key = "spark.sql.shuffle.partitions"

abbrev shuffle_partitions : String → Dict String
shuffle_partitions n = (partitions_key, n) ∷ []

-- what both notebooks on skew give with the tuned profile, to let AQE split partitions at this scale
abbrev pub skew_overrides : Dict String
skew_overrides =
    ("spark.sql.autoBroadcastJoinThreshold", "-1")
    ∷ ("spark.sql.adaptive.skewJoin.skewedPartitionThresholdInBytes", "1m")
    ∷ ("spark.sql.adaptive.skewJoin.skewedPartitionFactor", "2")
    ∷ []

-- spark/skew/spk1_data_skew.ipynb
abbrev skewed_join : List Cell
skewed_join = apply_profile "constrained" [] ∷ measure "skewed (AQE off, SMJ)" ∷ []

abbrev salted_join : List Cell
salted_join = measure "salted" ∷ []

abbrev aqe_join : List Cell
aqe_join = apply_profile "tuned" skew_overrides ∷ measure "AQE skew-join" ∷ []

abbrev broadcast_join : List Cell
broadcast_join = apply_profile "tuned" [] ∷ measure "broadcast" ∷ []

abbrev pub data_skew : List Cell
data_skew = skewed_join ++ salted_join ++ aqe_join ++ broadcast_join

-- spark/executor_oom/spk2_executor_oom.ipynb
abbrev tight : List Cell
tight = apply_profile "constrained" [] ∷ measure "16 partitions (tight)" ∷ []

abbrev right_sized : List Cell
right_sized = apply_profile "tuned" [] ∷ measure "200 partitions + AQE" ∷ []

abbrev pub executor_oom : List Cell
executor_oom = tight ++ right_sized

-- spark/spill/spk4_disk_spill.ipynb
abbrev spilling : List Cell
spilling = apply_profile "constrained" [] ∷ measure "16 partitions (spilling)" ∷ []

abbrev more_partitions : List Cell
more_partitions =
    apply_profile "constrained" (shuffle_partitions "200") ∷ measure "200 partitions" ∷ []

abbrev aqe_tuned : List Cell
aqe_tuned = apply_profile "tuned" [] ∷ measure "AQE (tuned)" ∷ []

abbrev pub disk_spill : List Cell
disk_spill = spilling ++ more_partitions ++ aqe_tuned

-- spark/joins/spk5_join_strategies.ipynb
abbrev broadcast_profile : Cell
broadcast_profile = apply_profile "tuned" []

abbrev measure_broadcast : Cell
measure_broadcast = measure "broadcast (BHJ)"

abbrev sort_merge_profile : Cell
sort_merge_profile = apply_profile "constrained" []

abbrev measure_sort_merge : Cell
measure_sort_merge = measure "sort-merge (SMJ)"

abbrev pub prefer_sort_merge : String
prefer_sort_merge = "spark.sql.join.preferSortMergeJoin"

abbrev shuffle_hash_profile : Cell
shuffle_hash_profile = apply_profile "constrained" ((prefer_sort_merge, "false") ∷ [])

abbrev measure_shuffle_hash : Cell
measure_shuffle_hash = measure "shuffle-hash (SHJ)"

abbrev hinted_profile : Cell
hinted_profile = apply_profile "constrained" []

abbrev pub join_strategies : List Cell
join_strategies =
    broadcast_profile ∷ measure_broadcast ∷ sort_merge_profile ∷ measure_sort_merge
    ∷ shuffle_hash_profile ∷ measure_shuffle_hash ∷ hinted_profile ∷ []

-- spark/aqe/spk6_aqe.ipynb
abbrev coalesce_off : List Cell
coalesce_off =
    apply_profile "constrained" (shuffle_partitions "200") ∷ measure "coalesce: AQE off (200)" ∷ []

abbrev coalesce_on : List Cell
coalesce_on = apply_profile "tuned" (shuffle_partitions "200") ∷ measure "coalesce: AQE on" ∷ []

abbrev skew_off : List Cell
skew_off = apply_profile "constrained" [] ∷ measure "skew: AQE off (SMJ)" ∷ []

abbrev skew_on : List Cell
skew_on = apply_profile "tuned" skew_overrides ∷ measure "skew: AQE skew-join" ∷ []

abbrev reopt_off : List Cell
reopt_off = apply_profile "constrained" [] ∷ measure "reopt: AQE off (SMJ)" ∷ []

abbrev reopt_on : List Cell
reopt_on = apply_profile "tuned" [] ∷ measure "reopt: AQE on (broadcast)" ∷ []

abbrev tiny : List Cell
tiny =
    apply_profile "constrained" []
    ∷ measure "tiny: AQE off"
    ∷ apply_profile "tuned" []
    ∷ measure "tiny: AQE on"
    ∷ []

abbrev pub aqe : List Cell
aqe = coalesce_off ++ coalesce_on ++ skew_off ++ skew_on ++ reopt_off ++ reopt_on ++ tiny

-- spark/shuffle/spk9_shuffle.ipynb; `swept` is a turn of its loop
abbrev swept : String → String → List Cell
swept parts label = apply_profile "constrained" (shuffle_partitions parts) ∷ measure label ∷ []

abbrev pub shuffle : List Cell
shuffle =
    apply_profile "constrained" [] ∷ swept "8" "parts=8"
    ++ swept "200" "parts=200"
    ++ swept "2000" "parts=2000"

-- spark/internals/spk10_internals.ipynb
abbrev pub whole_stage_key : String
whole_stage_key = "spark.sql.codegen.wholeStage"

abbrev whole_stage : String → Cell
whole_stage flag = conf_set whole_stage_key flag

abbrev codegen : List Cell
codegen =
    whole_stage "true"
    ∷ measure "codegen ON"
    ∷ whole_stage "false"
    ∷ measure "codegen OFF"
    ∷ whole_stage "true"
    ∷ []

abbrev pub internals : List Cell
internals = apply_profile "tuned" [] ∷ codegen
