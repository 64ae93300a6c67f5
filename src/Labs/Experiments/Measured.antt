-- ===== src/Labs/Experiments/Measured.antt =====
-- The settings under which the Spark notebooks measure what they compare.
use spark_dev.Base.{◌≡◌, refl, ◌∙◌, some, String, List, [], ◌∷◌}
use spark_dev.Base.Dict.{Dict, lookup, update, last_lookup, or_else, lookup-update}
use spark_dev.Spark.Profiles.{profiles, constrained, tuned, settings_of}
use spark_dev.Labs.Experiments.{Cell, Lab, run}
use spark_dev.Labs.Experiments.Notebooks.{
  partitions_key, prefer_sort_merge, whole_stage_key, data_skew, disk_spill, join_strategies,
  shuffle, internals,
}
use spark_dev.Labs.Experiments.Settled.{
  AgreeBut, AgreeBut-trans, conf_set-AgreeBut, Settled, apply-Settled, override-Settled,
  override-AgreeBut, lookup-apply,
}

-- two measurements that differ in one setting only, and what that is in each
abbrev pub Differ : String → String → String → Dict String → Dict String → Type 0
Differ key v w a b = (lookup key a ≡ some v) × (lookup key b ≡ some w) × AgreeBut key b a

-- spk1_data_skew.ipynb measures the skewed join and then the salted one under the same settings.
abbrev pub Salted : Lab → Lab → Type 0
Salted lab out =
    (a b c : Dict String) × (out.measured
      ≡ ("broadcast", c)
        ∷ ("AQE skew-join", b)
        ∷ ("salted", a)
        ∷ ("skewed (AQE off, SMJ)", a)
        ∷ lab.measured)
    × (lookup "spark.sql.adaptive.enabled" a ≡ some "false")

-- spk9_shuffle.ipynb measures with 8, 200 and 2000 partitions.
abbrev pub Sweep : Lab → Lab → Type 0
Sweep lab out =
    (a b c : Dict String) × (out.measured
      ≡ ("parts=2000", c) ∷ ("parts=200", b) ∷ ("parts=8", a) ∷ lab.measured)
    × Differ partitions_key "8" "200" a b
    × Differ partitions_key "8" "2000" a c

-- spk4_disk_spill.ipynb measures with 16 and 200 partitions, and then the tuned profile.
abbrev pub Spill : Lab → Lab → Type 0
Spill lab out =
    (a b c : Dict String) × (out.measured
      ≡ ("AQE (tuned)", c) ∷ ("200 partitions", b) ∷ ("16 partitions (spilling)", a) ∷ lab.measured)
    × Differ partitions_key "16" "200" a b

-- spk5_join_strategies.ipynb measures the sort-merge join and then the shuffle-hash join.
abbrev pub Joins : Lab → Lab → Type 0
Joins lab out =
    (a b c : Dict String) × (out.measured
      ≡ ("shuffle-hash (SHJ)", c) ∷ ("sort-merge (SMJ)", b) ∷ ("broadcast (BHJ)", a) ∷ lab.measured)
    × (lookup prefer_sort_merge b ≡ lookup prefer_sort_merge lab.conf)
    × (lookup prefer_sort_merge c ≡ some "false")
    × AgreeBut prefer_sort_merge c b

-- spk10_internals.ipynb measures with generated code and without.
abbrev pub Codegen : Lab → Lab → Type 0
Codegen lab out =
    (a b : Dict String) × (out.measured ≡ ("codegen OFF", b) ∷ ("codegen ON", a) ∷ lab.measured)
    × Differ whole_stage_key "true" "false" a b

-- Every profile that the cells name exists, so they run, and P holds of the session before and after.
abbrev pub Measures : List Cell → (Lab → Lab → Type 0) → Lab → Type 0
Measures cells P lab = (out : Lab) × (run cells lab ≡ some out) × P lab out

constrained_known : lookup "constrained" profiles ≡ some constrained
unfolding lookup
constrained_known = refl

tuned_known : lookup "tuned" profiles ≡ some tuned
unfolding lookup
tuned_known = refl

-- the constrained profile with one override
abbrev changed : String → String → Dict String → Dict String
changed key v conf = update conf (settings_of (λ v. v) constrained ((key, v) ∷ []))

changed_value :
    (key v : String) (conf : Dict String)
    → lookup key (changed key v conf)
      ≡ or_else
          (last_lookup key ((key, v) ∷ []))
          (or_else (lookup key constrained) (lookup key conf))
changed_value key v conf =
    lookup-apply "constrained" constrained ((key, v) ∷ []) conf key constrained_known

changed-Settled :
    (key v : String) (conf : Dict String)
    → Settled "constrained" constrained constrained_known key (changed key v conf)
changed-Settled key v conf = override-Settled "constrained" constrained constrained_known key v conf

changed-AgreeBut :
    (key v : String) (conf : Dict String)
    → Settled "constrained" constrained constrained_known key conf
    → AgreeBut key (changed key v conf) conf
changed-AgreeBut key v conf s =
    override-AgreeBut "constrained" constrained constrained_known key v conf s

module _ (lab : Lab) where
  data_skew-Salted : Measures data_skew Salted lab
  unfolding run lookup
  data_skew-Salted = (
    _,
    refl,
    (
      _,
      _,
      _,
      refl,
      lookup-apply "constrained" constrained [] lab.conf "spark.sql.adaptive.enabled"
          constrained_known,
    ),
  )

  shuffle-Sweep : Measures shuffle Sweep lab
  unfolding run lookup
  shuffle-Sweep =
      let first = update lab.conf (settings_of (λ v. v) constrained []) in
      let a = changed partitions_key "8" first in
      let b = changed partitions_key "200" a in
      let c = changed partitions_key "2000" b in
      let here =
        changed-AgreeBut partitions_key "200" a (changed-Settled partitions_key "8" first) in
      let there =
        changed-AgreeBut partitions_key "2000" b (changed-Settled partitions_key "200" a) in
      (
        _,
        refl,
        (
          a,
          b,
          c,
          refl,
          (changed_value partitions_key "8" first, changed_value partitions_key "200" a, here),
          (
            changed_value partitions_key "8" first,
            changed_value partitions_key "2000" b,
            AgreeBut-trans partitions_key c b a there here,
          ),
        ),
      )

  disk_spill-Spill : Measures disk_spill Spill lab
  unfolding run lookup
  disk_spill-Spill =
      let a = update lab.conf (settings_of (λ v. v) constrained []) in
      (
        _,
        refl,
        (
          a,
          changed partitions_key "200" a,
          _,
          refl,
          (
            lookup-apply "constrained" constrained [] lab.conf partitions_key constrained_known,
            changed_value partitions_key "200" a,
            changed-AgreeBut partitions_key "200" a
                (apply-Settled "constrained" constrained constrained_known partitions_key lab.conf),
          ),
        ),
      )

  join_strategies-Joins : Measures join_strategies Joins lab
  unfolding run lookup
  join_strategies-Joins =
      let a = update lab.conf (settings_of (λ v. v) tuned []) in
      let b = update a (settings_of (λ v. v) constrained []) in
      (
        _,
        refl,
        (
          a,
          b,
          changed prefer_sort_merge "false" b,
          refl,
          lookup-apply "constrained" constrained [] a prefer_sort_merge constrained_known
              ∙ lookup-apply "tuned" tuned [] lab.conf prefer_sort_merge tuned_known,
          changed_value prefer_sort_merge "false" b,
          changed-AgreeBut prefer_sort_merge "false" b
              (apply-Settled "constrained" constrained constrained_known prefer_sort_merge a),
        ),
      )

  internals-Codegen : Measures internals Codegen lab
  unfolding run lookup
  internals-Codegen =
      let first = update lab.conf (settings_of (λ v. v) tuned []) in
      let a = update first ((whole_stage_key, "true") ∷ []) in
      (
        _,
        refl,
        (
          a,
          update a ((whole_stage_key, "false") ∷ []),
          refl,
          (
            lookup-update whole_stage_key first ((whole_stage_key, "true") ∷ []),
            lookup-update whole_stage_key a ((whole_stage_key, "false") ∷ []),
            conf_set-AgreeBut whole_stage_key "false" a,
          ),
        ),
      )

-- Whatever settings a session comes with, these comparisons are made under settings that agree at
-- every key but one. The sweep of spk9 has 8, 200 and 2000 shuffle partitions, and the first two
-- measurements of spk4 have 16 and 200. In spk10 code generation is on and then off. In spk5 the
-- shuffle-hash join has preferSortMergeJoin false, and the sort-merge join before it has the value
-- that the session came with. In spk1 the skewed and the salted join have all settings in common, with
-- AQE off.
pub comparisons_controlled :
    (lab : Lab)
    → Measures data_skew Salted lab
      × Measures shuffle Sweep lab
      × Measures disk_spill Spill lab
      × Measures join_strategies Joins lab
      × Measures internals Codegen lab
comparisons_controlled lab = (
  data_skew-Salted lab,
  shuffle-Sweep lab,
  disk_spill-Spill lab,
  join_strategies-Joins lab,
  internals-Codegen lab,
)
