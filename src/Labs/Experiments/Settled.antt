-- ===== src/Labs/Experiments/Settled.antt =====
-- The settings of the session after `apply_profile` with at most one override, and after `conf.set`.
use spark_dev.Base.{
  ◌≡◌, refl, sym, ap, ◌∙◌, ◌⊎◌, inl, inr, if◌then◌else◌, none, some, Option, String, [], ◌∷◌,
  str_eq, Bool-cases,
}
use text.Mathlib.TextEquality.{eq_iff}
use spark_dev.Base.Dict.{Dict, lookup, update, last_lookup, or_else, lookup-update}
use spark_dev.Spark.Profiles.{profiles, settings_of, stringified}
use spark_dev.Spark.Profiles.Applied.{last_lookup-settings_of}

stringified_lem : (d : Dict String) → stringified (λ v. v) d ≡ d
unfolding stringified
stringified_lem [] = refl
stringified_lem ((k, v) ∷ d) = ap (λ e. (k, v) ∷ e) (stringified_lem d)

or_else_assoc : (a b c : Option String) → or_else (or_else a b) c ≡ or_else a (or_else b c)
or_else_assoc none b c = refl
or_else_assoc (some v) b c = refl

-- The settings after a profile: its overrides, then its own, then those from before.
pub lookup-apply :
    (name : String) (profile overrides conf : Dict String) (k : String)
    → lookup name profiles ≡ some profile
    → lookup k (update conf (settings_of (λ v. v) profile overrides))
      ≡ or_else (last_lookup k overrides) (or_else (lookup k profile) (lookup k conf))
lookup-apply name profile overrides conf k l =
    lookup-update k conf (settings_of (λ v. v) profile overrides)
    ∙ (ap (λ o. or_else o (lookup k conf))
          (last_lookup-settings_of (λ v. v) name profile overrides k l
            ∙ ap (λ d. or_else (last_lookup k d) (lookup k profile)) (stringified_lem overrides))
        ∙ or_else_assoc (last_lookup k overrides) (lookup k profile) (lookup k conf))

-- Two dicts agree at every key but one.
abbrev pub AgreeBut : String → Dict String → Dict String → Type 0
AgreeBut key a b = (k : String) → (key ≡ k) ⊎ (lookup k a ≡ lookup k b)

pub AgreeBut-trans :
    (key : String) (a b c : Dict String) → AgreeBut key a b → AgreeBut key b c → AgreeBut key a c
AgreeBut-trans key a b c p q k = elim (p k) [
  | inl e ↦ inl e
  | inr h ↦ elim (q k) [ inl e ↦ inl e | inr g ↦ inr (h ∙ g) ]
]

-- One setting touches no other key.
last_lookup_other :
    (key k v : String) → (key ≡ k) ⊎ (last_lookup {V = String} k ((key, v) ∷ []) ≡ none)
last_lookup_other key k v = elim (Bool-cases (str_eq key k)) [
  | inl e ↦ inl ((eq_iff key k).0 e)
  | inr e ↦ inr (ap (λ b. if b then some v else none) e)
]

pub conf_set-AgreeBut :
    (key v : String) (conf : Dict String) → AgreeBut key (update conf ((key, v) ∷ [])) conf
conf_set-AgreeBut key v conf k = elim (last_lookup_other key k v) [
  | inl e ↦ inl e
  | inr n ↦ inr (lookup-update k conf ((key, v) ∷ []) ∙ ap (λ o. or_else o (lookup k conf)) n)
]

or_else_same : (a b : Option String) → or_else a (or_else a b) ≡ or_else a b
or_else_same none b = refl
or_else_same (some v) b = refl

module _ (name : String) (profile : Dict String) (known : lookup name profiles ≡ some profile) where
  abbrev overridden : String → String → Dict String → Dict String
  overridden key v conf = update conf (settings_of (λ v. v) profile ((key, v) ∷ []))

  -- The profile's settings are in place, but for one key.
  abbrev pub Settled : String → Dict String → Type 0
  Settled key conf =
      (k : String) → (key ≡ k) ⊎ (or_else (lookup k profile) (lookup k conf) ≡ lookup k conf)

  apply_other :
      (key v : String) (conf : Dict String) (k : String)
      → (key ≡ k) ⊎ (lookup k (overridden key v conf) ≡ or_else (lookup k profile) (lookup k conf))
  apply_other key v conf k = elim (last_lookup_other key k v) [
    | inl e ↦ inl e
    | inr n ↦ inr (
        lookup-apply name profile ((key, v) ∷ []) conf k known
        ∙ ap (λ o. or_else o (or_else (lookup k profile) (lookup k conf))) n)
  ]

  settles :
      (conf after : Dict String) (k : String)
      → lookup k after ≡ or_else (lookup k profile) (lookup k conf)
      → or_else (lookup k profile) (lookup k after) ≡ lookup k after
  settles conf after k h =
      ap (or_else (lookup k profile)) h ∙ (or_else_same (lookup k profile) (lookup k conf) ∙ sym h)

  pub apply-Settled :
      (key : String) (conf : Dict String)
      → Settled key (update conf (settings_of (λ v. v) profile []))
  apply-Settled key conf k = inr (settles conf _ k (lookup-apply name profile [] conf k known))

  pub override-Settled : (key v : String) (conf : Dict String) → Settled key (overridden key v conf)
  override-Settled key v conf k = elim (apply_other key v conf k) [
    | inl e ↦ inl e
    | inr h ↦ inr (settles conf _ k h)
  ]

  -- Where a profile is in place, applying it again with one override changes that key alone.
  pub override-AgreeBut :
      (key v : String) (conf : Dict String)
      → Settled key conf
      → AgreeBut key (overridden key v conf) conf
  override-AgreeBut key v conf settled k = elim (settled k) [
    | inl e ↦ inl e
    | inr s ↦ elim (apply_other key v conf k) [ inl e ↦ inl e | inr h ↦ inr (h ∙ s) ]
  ]
