-- ===== src/Cdc/Teardown.antt =====
-- `delete_data_topic` and `teardown` of common/cdc_helpers.py.
pub mod Kept
pub mod Order
use spark_dev.Base.{ℕ, Bool, true, false, Option, none, some, List, [], ◌∷◌, ◌++◌, if◌then◌else◌}
use spark_dev.Base.Text.{Text, codes}
use spark_dev.Base.Effect.{perform, pure, catch, finally, ◌>>=◌, ◌>>◌}
use spark_dev.Cdc.Calls.{Call, sleep, admin_open, admin_delete, admin_close, Cdc}
use spark_dev.Cdc.Slot.{Unicode, safe_slot, topic_name}
use spark_dev.Cdc.Config.{slot_or_default}
use spark_dev.Cdc.Postgres.{pg_exec, drop_slot}
use spark_dev.Cdc.Connect.{reset_offsets, delete_connector}

unfoldable pub delete_data_topic : Text → Text → Cdc (Unit {0})
delete_data_topic table schema = do
  perform admin_open
  finally (catch (do perform (admin_delete (topic_name table schema ∷ [])); pure tt) (pure tt))
      admin_close

abbrev pub drop_table : Text → Text
drop_table table = codes "DROP TABLE IF EXISTS public." ++ table

-- `if table:`, which a null or empty name fails
unfoldable pub drop_source : Option Text → Bool → Cdc (Unit {0})
unfolding pg_exec delete_data_topic
drop_source none drop_topic = pure tt
drop_source (some []) drop_topic = pure tt
drop_source (some (c ∷ cs)) drop_topic = do
  pg_exec (drop_table (c ∷ cs)) [] false
  if drop_topic then delete_data_topic (c ∷ cs) (codes "public") else pure tt

unfoldable pub teardown : Unicode → Text → Option Text → Option Text → Bool → Cdc (Unit {0})
unfolding reset_offsets delete_connector drop_slot drop_source
teardown u name table slot drop_topic = do
  reset_offsets name
  delete_connector name
  perform (sleep 2000)
  drop_slot (slot_or_default u name slot) 5 1500
  drop_source table drop_topic
