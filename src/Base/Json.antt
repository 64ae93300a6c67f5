-- ===== src/Base/Json.antt =====
-- JSON values, as `json.loads` builds them, and `dict.get` on them.
use Prim.Native.Nat.{ℕ}
use mathlib.Core.Bool.{Bool}
use mathlib.Core.Option.{Option, none, some}
use mathlib.Core.List.{List, [], ◌∷◌}
use spark_dev.Base.Tests.{if◌then◌else◌}
use spark_dev.Base.Text.{Text, text_eq}

mutual
  pub data Json : Type 0 where
    null : Json
    boolean : Bool → Json
    number : ℕ → Json
    text : Text → Json
    array : Items → Json
    object : Fields → Json

  pub data Items : Type 0 where
    no_items : Items
    item : Json → Items → Items

  pub data Fields : Type 0 where
    no_fields : Fields
    field : Text → Json → Fields → Fields

unfoldable pub get_field : Text → Fields → Option Json
get_field k no_fields = none
get_field k (field j v fs) = if text_eq j k then some v else get_field k fs

unfoldable pub items : Items → List Json
items no_items = []
items (item x xs) = x ∷ items xs
