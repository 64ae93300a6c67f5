-- ===== src/Spark/Profiles.antt =====
-- `apply_profile` and `profile_summary` of common/profiles.py, without what they print.
pub mod Applied
use spark_dev.Base.{ℕ, Bool, Option, none, some, List, [], ◌∷◌, String}
use spark_dev.Base.Dict.{Dict, lookup, insert, update}
use spark_dev.Base.Effect.{perform, pure, raise, catch, ◌>>=◌, ◌>>◌}
use spark_dev.Spark.Calls.{
  string, flag, number, Call, conf_set, conf_get, Answer, done, session, value, Spark,
}

abbrev pub constrained : Dict String
constrained =
    ("spark.sql.adaptive.enabled", "false")
    ∷ ("spark.sql.adaptive.skewJoin.enabled", "false")
    ∷ ("spark.sql.adaptive.coalescePartitions.enabled", "false")
    ∷ ("spark.sql.autoBroadcastJoinThreshold", "-1")
    ∷ ("spark.sql.shuffle.partitions", "16")
    ∷ []

-- `str(10 * 1024 * 1024)` written out
abbrev pub tuned : Dict String
tuned =
    ("spark.sql.adaptive.enabled", "true")
    ∷ ("spark.sql.adaptive.skewJoin.enabled", "true")
    ∷ ("spark.sql.adaptive.coalescePartitions.enabled", "true")
    ∷ ("spark.sql.autoBroadcastJoinThreshold", "10485760")
    ∷ ("spark.sql.shuffle.partitions", "200")
    ∷ []

abbrev pub profiles : Dict (Dict String)
profiles = ("constrained", constrained) ∷ ("tuned", tuned) ∷ []

abbrev pub summary_keys : List String
summary_keys =
    "spark.sql.adaptive.enabled" ∷ "spark.sql.adaptive.skewJoin.enabled"
    ∷ "spark.sql.adaptive.coalescePartitions.enabled" ∷ "spark.sql.autoBroadcastJoinThreshold"
    ∷ "spark.sql.shuffle.partitions" ∷ []

-- `{k: str(v) for k, v in overrides.items()}`, for the `str` of the overrides' type
unfoldable pub stringified : {Object : Type 0} → (Object → String) → Dict Object → Dict String
stringified str [] = []
stringified str ((k, v) ∷ overrides) = (k, str v) ∷ stringified str overrides

-- the first loop over the settings
unfoldable pub set_all : ℕ → Dict String → Spark (Unit {0})
set_all spark [] = pure tt
set_all spark ((k, v) ∷ settings) = do perform (conf_set spark k (string v)); set_all spark settings

abbrev pub apply_settings : ℕ → Dict String → Spark (Dict String)
apply_settings spark settings = do set_all spark settings; pure settings

-- `{**PROFILES[name], **…}` of a name that is in PROFILES
unfoldable pub settings_of :
    {Object : Type 0} → (Object → String) → Dict String → Dict Object → Dict String
unfolding stringified
settings_of str profile overrides = update profile (stringified str overrides)

unfoldable pub apply_profile :
    {Object : Type 0} → (Object → String) → ℕ → String → Dict Object → Spark (Dict String)
unfolding set_all
apply_profile str spark name overrides = elim (lookup name profiles) [
  | none ↦ raise
  | some profile ↦ apply_settings spark (settings_of str profile overrides)
]

abbrev value_of : Answer → Spark String
value_of (value s) = pure s
value_of done = raise
value_of (session n) = raise

-- the `try` of a key
unfoldable pub current_value : ℕ → String → Spark String
current_value spark key = catch (do a ← perform (conf_get spark key); value_of a) (pure "<unset>")

unfoldable pub current_values : ℕ → List String → Dict String → Spark (Dict String)
unfolding current_value
current_values spark [] current = pure current
current_values spark (key ∷ keys) current = do
  v ← current_value spark key
  current_values spark keys (insert key v current)

-- `keys or _SUMMARY_KEYS`
abbrev keys_or_summary : Option (List String) → List String
keys_or_summary none = summary_keys
keys_or_summary (some []) = summary_keys
keys_or_summary (some (k ∷ ks)) = k ∷ ks

unfoldable pub profile_summary : ℕ → Option (List String) → Spark (Dict String)
unfolding current_values
profile_summary spark keys = current_values spark (keys_or_summary keys) []
