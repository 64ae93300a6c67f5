-- ===== src/Base/Dict.antt =====
-- Python's dict with text keys, as an association list in insertion order.
use Prim.Native.String.{String}
use text.Mathlib.Text.{◌==◌ as str_eq}
use text.Mathlib.TextEquality.{eq_iff}
use mathlib.Core.Path.{◌≡◌, refl}
use mathlib.Core.Bool.{Bool, true, false}
use mathlib.Core.Option.{Option, none, some}
use mathlib.Core.List.{List, [], ◌∷◌}
use native.Mathlib.Omega.{arith}
use spark_dev.Base.Tests.{if◌then◌else◌}

abbrev pub Dict {ℓ} : Type ℓ → Type ℓ
Dict V = List (String × V)

module _ {ℓ} {V : Type ℓ} where
  -- `d.get(key)`
  unfoldable pub lookup : String → Dict V → Option V
  lookup key [] = none
  lookup key ((first, value) ∷ d) = if str_eq first key then some value else lookup key d

  -- `key in d`
  abbrev pub contains : String → Dict V → Bool
  contains key d = elim (lookup key d) [ some _ ↦ true | none ↦ false ]

  -- `d[key] = new`, which keeps the place of a key that is there
  unfoldable pub insert : String → V → Dict V → Dict V
  insert key new [] = (key, new) ∷ []
  insert key new (entry ∷ d) =
      if str_eq entry.0 key then (key, new) ∷ d else entry ∷ insert key new d

  -- `d.update(e)`
  unfoldable pub update : Dict V → Dict V → Dict V
  update d [] = d
  update d (entry ∷ e) = update (insert entry.0 entry.1 d) e

  pub lookup-insert :
      (key other : String) (new : V) (d : Dict V)
      → lookup other (insert key new d) ≡ (if str_eq key other then some new else lookup other d)
  unfolding lookup insert
  lookup-insert key other new [] = refl
  lookup-insert key other new ((first, value) ∷ d) =
      ground (
        arith,
        lookup-insert key other new d,
        eq_iff first other,
        eq_iff first key,
        eq_iff key other,
      )

-- The last binding of a key in a list of assignments, made in order.
abbrev pub last_lookup {ℓ} : {V : Type ℓ} → String → Dict V → Option V
last_lookup k [] = none
last_lookup k ((j, v) ∷ m) = elim (last_lookup k m) [
  | none ↦ if str_eq j k then some v else none
  | some w ↦ some w
]

abbrev pub or_else {ℓ} : {V : Type ℓ} → Option V → Option V → Option V
or_else none b = b
or_else (some a) b = some a

module _ {ℓ} {V : Type ℓ} where
  pub lookup-update :
      (k : String) (d e : Dict V) → lookup k (update d e) ≡ or_else (last_lookup k e) (lookup k d)
  unfolding update
  lookup-update k d [] = refl
  lookup-update k d ((j, v) ∷ e) =
      ground (arith, lookup-update k (insert j v d) e, lookup-insert j k v d)
