-- ===== src/Labs/SchemaEvolution.antt =====
-- debezium/schema_evolution/cdc8_schema_evolution.ipynb: the columns of a row before and after a
-- column is added, and the verdict on them. Sorting a dict's keys, which the sets forget, is left
-- out; `next` raises when it finds nothing, here `none`.
use spark_dev.Base.{
  ◌≡◌, ◌↔◌, ◌⊎◌, Bool, true, false, not, ◌&&◌, ◌||◌, Option, none, some, List, [], ◌∷◌, any, all,
  filter, All, refl, In, In-filter, if◌then◌else◌, arith,
}
use spark_dev.Base.Text.{Text, codes, text_eq, text_eq_sound, text_eq_refl}
use spark_dev.Base.Json.{Json, null, boolean, number, text, array, object, Fields, no_fields, field}
use spark_dev.Cdc.Connect.{is_text, running}
use spark_dev.Cdc.Events.{Event}

unfoldable pub field_keys : Fields → List Text
field_keys no_fields = []
field_keys (field k v fs) = k ∷ field_keys fs

-- `e["after"] is not None`
abbrev pub has_after : Event → Bool
has_after e = elim e.after [ null ↦ false | _ ↦ true ]

-- `.keys()`, which a dict has
abbrev pub keys_of : Json → Option (List Text)
keys_of (object fs) = some (field_keys fs)
keys_of null = none
keys_of (boolean b) = none
keys_of (number n) = none
keys_of (text t) = none
keys_of (array xs) = none

abbrev pub next_keys : (Event → Bool) → List Event → Option (List Text)
next_keys p [] = none
next_keys p (e ∷ events) = let rest = next_keys p events in if p e then keys_of e.after else rest

unfoldable pub before_keys : List Event → Option (List Text)
before_keys events = next_keys has_after events

unfoldable pub after_keys : List Event → Option (List Text)
after_keys events =
    next_keys (λ e. (is_text (codes "c") e.op || is_text (codes "u") e.op) && has_after e) events

abbrev pub is_key : Text → List Text → Bool
is_key k ks = any (text_eq k) ks

-- `set(after_keys) - set(before_keys)`
unfoldable pub new_keys : List Text → List Text → List Text
new_keys after before = filter (λ k. not (is_key k before)) after

abbrev pub discount : Text
discount = codes "discount"

-- `new_keys == {"discount"} and state == "RUNNING"`
unfoldable pub proved : List Text → List Text → Json → Bool
unfolding new_keys
proved after before state =
    let new = new_keys after before in
    is_key discount new && all (λ k. text_eq k discount) new && is_text running state

is_key-In : (k : Text) (ks : List Text) → (is_key k ks ≡ true) ↔ In k ks
is_key-In k [] = (λ e. ground arith, λ m. absurd m)
is_key-In k (j ∷ ks) = ground (arith, is_key-In k ks, text_eq_sound k j, text_eq_refl k)

-- Every new key is the discount.
all-discount :
    (before after : List Text)
    → (all (λ k. text_eq k discount) (new_keys after before) ≡ true)
      ↔ All (λ k. In k before ⊎ (k ≡ discount)) after
unfolding new_keys
all-discount before [] = (λ e. tt, λ h. refl)
all-discount before (k ∷ after) = ground (
  arith,
  all-discount before after,
  is_key-In k before,
  text_eq_sound k discount,
  text_eq_refl discount,
)

-- The verdict holds if and only if the later row has the new column, the earlier one has not, no
-- other column of the later row is new, and the connector is running; columns that are lost do not
-- count.
pub proved_lem :
    (after before : List Text) (state : Json)
    → (proved after before state ≡ true) ↔ (
        In discount after
        × (¬ In discount before)
        × All (λ k. In k before ⊎ (k ≡ discount)) after
        × (is_text running state ≡ true))
unfolding proved new_keys
proved_lem after before state = ground (
  arith,
  all-discount before after,
  is_key-In discount (new_keys after before),
  In-filter (λ k. not (is_key k before)) discount after,
  is_key-In discount before,
)
