-- ===== src/Cdc/Events.antt =====
-- `read_cdc_events` and `op_counts` of common/cdc_helpers.py.
-- The messages of a topic, the decoding of their bytes and `json.loads` are parameters; a decoder
-- that raises is `none`.
pub mod Counts
use spark_dev.Base.{
  ℕ, suc, ◌+◌, Bool, true, false, Option, none, some, List, [], ◌∷◌, ◌++◌, ◌==◌, if◌then◌else◌,
  try_then,
}
use mathlib.Core.Option
use spark_dev.Base.Text.{Text, codes, text_eq}
use spark_dev.Base.Json.{Json, null, boolean, number, text, array, object, Fields, get_field}

-- the dict that `read_cdc_events` makes of a message; `raw` is null for a tombstone
pub record Event : Type 0 where
  pub op : Json
  pub before : Json
  pub after : Json
  pub raw : Option Json

abbrev pub or_null : Option Json → Json
or_null none = null
or_null (some v) = v

abbrev pub tombstone_event : Event
tombstone_event = record { op = null; before = null; after = null; raw = none }

-- `v.get(…)`, which only a dict has
unfoldable pub event_of : Json → Option Event
event_of (object fs) = some (record {
  op = or_null (get_field (codes "op") fs);
  before = or_null (get_field (codes "before") fs);
  after = or_null (get_field (codes "after") fs);
  raw = some (object fs);
})
event_of null = none
event_of (boolean b) = none
event_of (number n) = none
event_of (text t) = none
event_of (array xs) = none

-- `b.decode() if b else None`: an empty value is none too
unfoldable pub deserialize : (List ℕ → Option Text) → Option (List ℕ) → Option (Option Text)
deserialize decode none = some none
deserialize decode (some []) = some none
deserialize decode (some (b ∷ bs)) = Option.map some (decode (b ∷ bs))

unfoldable pub event_of_value : (Text → Option Json) → Option Text → Option Event
unfolding event_of
event_of_value loads none = some tombstone_event
event_of_value loads (some v) = try_then (loads v) event_of

unfoldable pub read_message :
    (List ℕ → Option Text) → (Text → Option Json) → Option (List ℕ) → Option Event
unfolding deserialize event_of_value
read_message decode loads m = try_then (deserialize decode m) (event_of_value loads)

-- `read_cdc_events`, on the messages that the consumer gives: one event for each, or an exception
unfoldable pub read_cdc_events :
    (List ℕ → Option Text) → (Text → Option Json) → List (Option (List ℕ)) → Option (List Event)
unfolding read_message
read_cdc_events decode loads [] = some []
read_cdc_events decode loads (m ∷ ms) =
    try_then (read_message decode loads m)
      (λ e. Option.map (λ es. e ∷ es) (read_cdc_events decode loads ms))

-- a key of the dict: a text or a number, which is a natural one in `Json`; True and False are the
-- numbers 1 and 0 there
pub data Key : Type 0 where
  text_key : Text → Key
  number_key : ℕ → Key

unfoldable pub key_eq : Key → Key → Bool
key_eq (text_key s) (text_key t) = text_eq s t
key_eq (text_key s) (number_key m) = false
key_eq (number_key n) (text_key t) = false
key_eq (number_key n) (number_key m) = n == m

abbrev pub tombstone_key : Key
tombstone_key = text_key (codes "tombstone")

-- a dict of counts, in the order of first occurrence
abbrev pub Tally : Type 0
Tally = List (Key × ℕ)

unfoldable pub tally_get : Key → Tally → ℕ
tally_get k [] = 0
tally_get k ((j, n) ∷ t) = if key_eq j k then n else tally_get k t

unfoldable pub tally_set : Key → ℕ → Tally → Tally
tally_set k n [] = (k, n) ∷ []
tally_set k n ((j, m) ∷ t) = if key_eq j k then (j, n) ∷ t else (j, m) ∷ tally_set k n t

-- the key for an operation: "tombstone" where that is None. A list or a dict has no hash, so that
-- using it as a key raises.
unfoldable pub key_of : Json → Option Key
key_of null = some tombstone_key
key_of (text t) = some (text_key t)
key_of (number n) = some (number_key n)
key_of (boolean b) = some (number_key (if b then 1 else 0))
key_of (array xs) = none
key_of (object fs) = none

abbrev pub event_key : Event → Option Key
event_key e = key_of e.op

unfoldable pub count_from : Tally → List Event → Option Tally
unfolding tally_get tally_set
count_from t [] = some t
count_from t (e ∷ es) =
    try_then (event_key e) (λ k. count_from (tally_set k (tally_get k t + 1) t) es)

unfoldable pub op_counts : List Event → Option Tally
unfolding count_from
op_counts es = count_from [] es
