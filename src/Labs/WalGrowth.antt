-- ===== src/Labs/WalGrowth.antt =====
-- debezium/wal_growth/cdc5_wal_growth.ipynb: the slots that it watches, the drop of an orphaned slot,
-- and a connector that is paused and resumed. `str` writes an LSN, `decimal` a number and `cents` an
-- amount in hundredths; runs of blanks in an SQL text are one blank. Durations are in milliseconds.
pub mod Dropped
use spark_dev.Base.{
  ℕ, zero, suc, ◌+◌, ◌*◌, ◌%◌, Bool, true, false, ◌&&◌, Option, none, some, List, [], ◌∷◌, ◌++◌,
  map, filter, head?, leb, range_from, if◌then◌else◌,
}
use mathlib.Core.Option
use spark_dev.Base.Text.{Text, codes}
use spark_dev.Base.Json.{
  Json, null, boolean, number, text, array, object, no_items, item, no_fields, field,
}
use spark_dev.Base.Effect.{perform, pure, raise, ◌>>=◌, ◌>>◌}
use spark_dev.Cdc.Calls.{
  Call, put, request, sleep, Answer, done, instant, rows, response, http_error, Cdc,
}
use spark_dev.Cdc.Slot.{Unicode, safe_slot}
use spark_dev.Cdc.Postgres.{SlotRow, pg_exec, list_slots, drop_slot}
use spark_dev.Cdc.Connect.{is_text, connector_path}

abbrev pub table : Text
table = codes "cdc5_orders"

abbrev pub conn : Text
conn = codes "cdc5-orders"

abbrev pub manual_slot : Text
manual_slot = codes "cdc5_manual_slot"

-- `[x for x in cdc.list_slots() if x["slot_name"] == slot]`
unfoldable pub named : Text → List SlotRow → List SlotRow
named slot found = filter (λ x. is_text slot x.slot_name) found

unfoldable pub listed : (Json → Text) → Text → Cdc (List SlotRow)
unfolding list_slots named
listed str slot = do found ← list_slots str; pure (named slot found)

abbrev bytes_of : Option SlotRow → Option ℕ
bytes_of none = none
bytes_of (some x) = x.retained_bytes

abbrev active_of : Option SlotRow → Json
active_of none = null
active_of (some x) = x.active

unfoldable pub retained : (Json → Text) → Text → Cdc (Option ℕ)
unfolding listed
retained str slot = do row ← listed str slot; pure (bytes_of (head? row))

unfoldable pub is_active : (Json → Text) → Text → Cdc Json
unfolding listed
is_active str slot = do row ← listed str slot; pure (active_of (head? row))

-- the cell that drops the slot: what was retained before, and the rows of the slot after
unfoldable pub drop_cell : (Json → Text) → Text → Cdc (Option ℕ × List SlotRow)
unfolding retained drop_slot listed
drop_cell str slot = do
  before ← retained str slot
  drop_slot slot 5 1500
  after_present ← listed str slot
  pure (before, after_present)

-- `.status`, which an answer of `urlopen` has; `HTTPError` is raised
unfoldable pub status_of : Answer → Cdc ℕ
status_of (response status body) = pure status
status_of (http_error code t) = raise
status_of done = raise
status_of (instant t) = raise
status_of (rows rs) = raise

unfoldable pub connect_pause : Text → Cdc ℕ
unfolding status_of
connect_pause name = do
  a ← perform (request put (connector_path name ++ codes "/pause") none 15000)
  status_of a

unfoldable pub connect_resume : Text → Cdc ℕ
unfolding status_of
connect_resume name = do
  a ← perform (request put (connector_path name ++ codes "/resume") none 15000)
  status_of a

unfoldable pub conn_slot : (Json → Text) → Unicode → Cdc (Option SlotRow)
unfolding listed safe_slot
conn_slot str unicode = do found ← listed str (safe_slot unicode conn); pure (head? found)

-- the values of the rows that are written while the connector is paused
unfoldable pub paused_values : (ℕ → Text) → (ℕ → Text) → ℕ → Text
paused_values decimal cents i =
    codes "("
    ++ decimal (5000 + i)
    ++ codes ",'cust-"
    ++ decimal (i % 7)
    ++ codes "',"
    ++ cents (1000 + i * 50)
    ++ codes ",'NEW')"

-- `",".join(…)`
unfoldable pub joined : List Text → Text
joined [] = []
joined (t ∷ []) = t
joined (t ∷ s ∷ ts) = t ++ codes "," ++ joined (s ∷ ts)

-- the cell that pauses the connector: its slot before the writes and after them
unfoldable pub paused_cell :
    (Json → Text) → Unicode → (ℕ → Text) → (ℕ → Text) → Cdc (Option SlotRow × Option SlotRow)
unfolding connect_pause conn_slot pg_exec paused_values joined
paused_cell str unicode decimal cents = do
  connect_pause conn
  perform (sleep 3000)
  paused_before ← conn_slot str unicode
  let values = joined (map (paused_values decimal cents) (range_from 0 800)) in
      (do
        pg_exec
            (codes "INSERT INTO public."
              ++ table
              ++ codes "(id,customer,amount,status) VALUES "
              ++ values)
            [] false
        pg_exec (codes "SELECT pg_switch_wal()") [] true
        perform (sleep 2000)
        paused_after ← conn_slot str unicode
        pure (paused_before, paused_after))

-- `now["active"]` as a condition
unfoldable pub truthy : Json → Bool
truthy null = false
truthy (boolean b) = b
truthy (number zero) = false
truthy (number (suc n)) = true
truthy (text []) = false
truthy (text (c ∷ t)) = true
truthy (array no_items) = false
truthy (array (item x xs)) = true
truthy (object no_fields) = false
truthy (object (field k v fs)) = true

-- `<=` of two numbers; None raises
abbrev no_more : Option ℕ → Option ℕ → Cdc Bool
no_more (some m) (some n) = pure (leb m n)
no_more none n = raise
no_more (some m) none = raise

abbrev no_more_than : SlotRow → Option SlotRow → Cdc Bool
no_more_than x none = raise
no_more_than x (some p) = no_more x.retained_bytes p.retained_bytes

-- the condition of the `break`
unfoldable pub caught_up : Option SlotRow → Option SlotRow → Cdc Bool
unfolding truthy
caught_up none paused_after = pure false
caught_up (some x) paused_after =
    if truthy x.active then no_more_than x paused_after else pure false

-- the loop that waits for the resumed connector, with so many turns left
unfoldable pub await_caught_up : (Json → Text) → Unicode → Option SlotRow → ℕ → Cdc (Unit {0})
unfolding conn_slot caught_up
await_caught_up str unicode paused_after zero = pure tt
await_caught_up str unicode paused_after (suc n) = do
  perform (sleep 2000)
  now ← conn_slot str unicode
  stop ← caught_up now paused_after
  if stop then pure tt else await_caught_up str unicode paused_after n
