-- ===== src/Spark/Profiles/Applied.antt =====
-- What a session's settings are after `apply_profile` of common/profiles.py.
use spark_dev.Base.{
  ℕ, ◌≡◌, refl, sym, ap, ◌∙◌, ◌==◌, ◌&&◌, Option, none, some, List, [], ◌∷◌, if◌then◌else◌, String,
  str_eq, eq_iff, arith,
}
use mathlib.Core.Path.{subst}
use spark_dev.Base.Dict.{
  Dict, lookup, insert, update, lookup-insert, last_lookup, or_else, lookup-update,
}
use spark_dev.Base.Effect.{Outcome, returns, Surroundings, perform, raise}
use spark_dev.Base.Triple.{Post, Triple, Triple-pure, Triple-perform, Triple-bind, Triple-post}
use spark_dev.Spark.Calls.{
  Setting, string, Call, create_remote, get_remote, get_local, conf_set, conf_get, count_one,
  set_instantiated, Answer,
}
use spark_dev.Spark.Profiles.{
  profiles, stringified, set_all, settings_of, apply_settings, apply_profile,
}

-- the value that a session's key was set to last
unfoldable pub last_set : ℕ → String → List Call → Option Setting
last_set s k [] = none
last_set s k (conf_set t j v ∷ h) = if s == t && str_eq j k then some v else last_set s k h
last_set s k (create_remote r ∷ h) = last_set s k h
last_set s k (get_remote r ∷ h) = last_set s k h
last_set s k (get_local ∷ h) = last_set s k h
last_set s k (conf_get t j ∷ h) = last_set s k h
last_set s k (count_one t ∷ h) = last_set s k h
last_set s k (set_instantiated t ∷ h) = last_set s k h

abbrev pub as_setting : Option String → Option Setting
as_setting none = none
as_setting (some v) = some (string v)

-- no key twice
abbrev IsKeyed : {V : Type 0} → Dict V → Type 0
IsKeyed [] = Unit
IsKeyed ((k, v) ∷ m) = (lookup k m ≡ none) × IsKeyed m

abbrev IsKeyedAll : Dict (Dict String) → Type 0
IsKeyedAll [] = Unit
IsKeyedAll ((n, p) ∷ ps) = IsKeyed p × IsKeyedAll ps

insert-IsKeyed : (k : String) (v : String) (m : Dict String) → IsKeyed m → IsKeyed (insert k v m)
unfolding insert lookup
insert-IsKeyed k v [] h = (refl, tt)
insert-IsKeyed k v ((j, w) ∷ m) h =
    ground (arith, eq_iff j k, eq_iff k j, lookup-insert k j v m, insert-IsKeyed k v m)

update-IsKeyed : (d e : Dict String) → IsKeyed d → IsKeyed (update d e)
unfolding update
update-IsKeyed d [] h = h
update-IsKeyed d ((k, v) ∷ e) h = update-IsKeyed (insert k v d) e (insert-IsKeyed k v d h)

last_lookup-none : (k : String) (m : Dict String) → lookup k m ≡ none → last_lookup k m ≡ none
unfolding lookup
last_lookup-none k [] h = refl
last_lookup-none k ((j, v) ∷ m) h = ground (arith, last_lookup-none k m)

last_lookup_keyed : (k : String) (m : Dict String) → IsKeyed m → last_lookup k m ≡ lookup k m
unfolding lookup
last_lookup_keyed k [] h = refl
last_lookup_keyed k ((j, v) ∷ m) h =
    ground (arith, eq_iff j k, last_lookup-none k m, last_lookup_keyed k m h.1)

last_set_step :
    (s : ℕ) (k j : String) (v : String) (h : List Call) (old : Option Setting)
    → last_set s k h ≡ old
    → last_set s k (conf_set s j (string v) ∷ h) ≡ (if str_eq j k then some (string v) else old)
unfolding last_set
last_set_step s k j v h old p = ground arith

last_lookup_step :
    (k j : String) (v : String) (m : Dict String) (old : Option Setting)
    → or_else (as_setting (last_lookup k m)) (if str_eq j k then some (string v) else old)
      ≡ or_else (as_setting (last_lookup k ((j, v) ∷ m))) old
last_lookup_step k j v m old = ground arith

set_all_sets :
    (env : Surroundings Call Answer) (s : ℕ) (k : String) (settings : Dict String)
    (old : Option Setting)
    → Triple env
        (λ h. last_set s k h ≡ old)
        (set_all s settings)
        (λ _ h. last_set s k h ≡ or_else (as_setting (last_lookup k settings)) old)
unfolding set_all
set_all_sets env s k [] old = Triple-pure env _ _ tt (λ h p. p)
set_all_sets env s k ((j, v) ∷ settings) old =
    let now = if str_eq j k then some (string v) else old in
    let more = set_all_sets env s k settings now in
    Triple-bind env _ (λ _ h. last_set s k h ≡ now) _ (perform (conf_set s j (string v))) _
      (Triple-perform env _ _ _ (λ h p a e. last_set_step s k j v h old p))
      (λ _. Triple-post env _ _ _ _ more (λ _ h q. q ∙ last_lookup_step k j v settings old))

-- the profiles repeat no key
lookup-IsKeyed :
    (name : String) (ps : Dict (Dict String)) (profile : Dict String)
    → IsKeyedAll ps
    → lookup name ps ≡ some profile
    → IsKeyed profile
unfolding lookup
lookup-IsKeyed name [] profile h e = cc
lookup-IsKeyed name ((j, p) ∷ ps) profile h e = ground (arith, lookup-IsKeyed name ps profile)

profiles-IsKeyed : IsKeyedAll profiles
unfolding lookup
profiles-IsKeyed =
    ((refl, (refl, (refl, (refl, (refl, tt))))), ((refl, (refl, (refl, (refl, (refl, tt))))), tt))

-- Of the settings of a profile, an override comes first.
pub last_lookup-settings_of :
    {Object : Type 0} (str : Object → String) (name : String) (profile : Dict String)
    (overrides : Dict Object) (k : String)
    → lookup name profiles ≡ some profile
    → last_lookup k (settings_of str profile overrides)
      ≡ or_else (last_lookup k (stringified str overrides)) (lookup k profile)
unfolding settings_of
last_lookup-settings_of str name profile overrides k l =
    last_lookup_keyed k (update profile (stringified str overrides))
      (update-IsKeyed profile _ (lookup-IsKeyed name profiles profile profiles-IsKeyed l))
    ∙ lookup-update k profile (stringified str overrides)

apply_profile_known :
    {Object : Type 0} (str : Object → String) (s : ℕ) (name : String) (profile : Dict String)
    (overrides : Dict Object)
    → lookup name profiles ≡ some profile
    → apply_profile str s name overrides ≡ apply_settings s (settings_of str profile overrides)
unfolding apply_profile
apply_profile_known str s name profile overrides l =
    ap (λ o. elim o [ none ↦ raise | some p ↦ apply_settings s (settings_of str p overrides) ]) l

-- If `apply_profile` returns for a profile that exists, then every key of the session was last set
-- to its last override, or else to the profile's value, or else to what it was set to before.
pub apply_profile_sets :
    {Object : Type 0} (str : Object → String) (env : Surroundings Call Answer) (s : ℕ)
    (name : String) (profile : Dict String) (overrides : Dict Object) (h : List Call)
    (settings : Dict String) (h' : List Call)
    → lookup name profiles ≡ some profile
    → apply_profile str s name overrides env h ≡ (returns settings, h')
    → (k : String)
    → last_set s k h'
      ≡ or_else
          (as_setting (or_else (last_lookup k (stringified str overrides)) (lookup k profile)))
          (last_set s k h)
unfolding settings_of
apply_profile_sets str env s name profile overrides h settings h' l e k =
    let given = settings_of str profile overrides in
    let known = ap (λ m. m env h) (apply_profile_known str s name profile overrides l) in
    let ran =
      subst (λ (r : Outcome (Dict String) × List Call). Post Sets r.0 r.1) (sym known ∙ e)
        ((Triple-bind env _ _ Sets (set_all s given) _ (set_all_sets env s k given (last_set s k h))
            (λ _. Triple-pure env _ Sets given (λ g p. p))).at
          h refl) in
    ran
    ∙ ap (λ o. or_else (as_setting o) (last_set s k h))
        (last_lookup-settings_of str name profile overrides k l)
  where
    Sets : Dict String → List Call → Type 0
    Sets _ g =
        last_set s k g
        ≡ or_else (as_setting (last_lookup k (settings_of str profile overrides))) (last_set s k h)
