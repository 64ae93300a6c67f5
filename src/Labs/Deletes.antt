-- ===== src/Labs/Deletes.antt =====
-- debezium/deletes_tombstones/cdc6_deletes.ipynb: the first update and the first deletion among the
-- events of a table, and the columns of their old rows. `sorted_keys` is the sorted list of a dict's
-- keys.
use spark_dev.Base.{
  Bool, true, false, Option, none, some, String, List, [], ◌∷◌, if◌then◌else◌, ◌≡◌, In, arith,
}
use spark_dev.Base.Text.{Text, codes, text_eq}
use spark_dev.Base.Json.{Json, null, boolean, number, text, array, object, Fields}
use spark_dev.Cdc.Events.{Event}

-- `e["op"] == op`
abbrev pub has_op : Text → Event → Bool
has_op op e = elim e.op [ text t ↦ text_eq t op | _ ↦ false ]

-- `next((e for e in events if e["op"] == op), None)`
unfoldable pub first_of : Text → List Event → Option Event
first_of op [] = none
first_of op (e ∷ events) = if has_op op e then some e else first_of op events

unfoldable pub first_update : List Event → Option Event
unfolding first_of
first_update events = first_of (codes "u") events

unfoldable pub first_deletion : List Event → Option Event
unfolding first_of
first_deletion events = first_of (codes "d") events

-- what `cols` gives: the columns of a dict, or the value itself
pub data Columns : Type 0 where
  columns : List Text → Columns
  value : Json → Columns

module _ (sorted_keys : Fields → List Text) where
  unfoldable pub cols : Json → Columns
  cols (object fs) = columns (sorted_keys fs)
  cols null = value null
  cols (boolean b) = value (boolean b)
  cols (number n) = value (number n)
  cols (text t) = value (text t)
  cols (array xs) = value (array xs)

  -- `cols(e["before"] if e else None)`
  unfoldable pub old_columns : Option Event → Columns
  unfolding cols
  old_columns none = cols null
  old_columns (some e) = cols e.before

  -- a line of `rows`
  unfoldable pub row : String → List Event → String × Columns × Columns
  unfolding old_columns first_update first_deletion
  row name events = (name, old_columns (first_update events), old_columns (first_deletion events))

-- The event that is found is one of the events, and has the operation.
pub first_of_found :
    (op : Text) (events : List Event) (e : Event)
    → first_of op events ≡ some e
    → In e events × (has_op op e ≡ true)
unfolding first_of
first_of_found op [] e h = ground arith
first_of_found op (x ∷ events) e h = ground (arith, first_of_found op events e)
