-- ===== src/Spark/Session.antt =====
-- `_tune`, `_create_spark`, `reconnect` and `get_spark` of common/spark_session.py. The module's
-- variable `spark` is an argument; where the source rebinds it, it is the result.
pub mod Recovered
use spark_dev.Base.{ℕ, Bool, true, Option, none, some, String, str_eq, if◌then◌else◌}
use spark_dev.Base.Effect.{perform, pure, raise, catch, ◌>>=◌, ◌>>◌}
use spark_dev.Spark.Calls.{
  flag, number, Call, create_remote, get_remote, get_local, conf_set, count_one, set_instantiated,
  Answer, done, session, value, Spark,
}

unfoldable pub tune : ℕ → Spark ℕ
tune s = do
  perform (conf_set s "spark.sql.repl.eagerEval.enabled" (flag true))
  perform (conf_set s "spark.sql.repl.eagerEval.maxNumRows" (number 20))
  perform (conf_set s "spark.sql.repl.eagerEval.truncate" (number 50))
  perform (set_instantiated s)
  pure s

abbrev pub session_of : Answer → Spark ℕ
session_of (session s) = pure s
session_of done = raise
session_of (value v) = raise

-- `os.environ.get("SPARK_REMOTE", …)`
abbrev pub remote_or_default : Option String → String
remote_or_default none = "sc://localhost:15002"
remote_or_default (some r) = r

-- the builder's call; an empty remote is falsy
abbrev pub builder_call : String → Bool → Call
builder_call remote force_new =
    if str_eq remote ""
    then get_local
    else if force_new
    then create_remote remote
    else get_remote remote

-- the first argument is the variable SPARK_REMOTE of the environment
unfoldable pub create_spark : Option String → Bool → Spark ℕ
unfolding tune
create_spark remote force_new = do
  a ← perform (builder_call (remote_or_default remote) force_new)
  s ← session_of a
  tune s

unfoldable pub reconnect : Option String → Spark ℕ
unfolding create_spark
reconnect remote = create_spark remote true

unfoldable pub get_spark : Option String → Bool → ℕ → Spark ℕ
unfolding reconnect
get_spark remote probe spark =
    if probe
    then catch (do perform (count_one spark); pure spark) (reconnect remote)
    else pure spark
