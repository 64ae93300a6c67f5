-- ===== src/Spark/Session/Recovered.antt =====
-- The session that `get_spark` of common/spark_session.py gives: one that answered, or the builder's.
use spark_dev.Base.{
  ℕ, ◌≡◌, ◌≢◌, ◌⊎◌, inl, inr, refl, sym, ap, ◌∙◌, true, Bool, Option, none, some, String, List, ◌∷◌,
  arith, Bool-cases, Option-cases, str_eq, if◌then◌else◌,
}
use mathlib.Core.Path.{subst}
use mathlib.Core.Bool.{true≢false}
use text.Mathlib.TextEquality.{eq_iff}
use spark_dev.Base.Effect.{Outcome, returns, Surroundings, perform}
use spark_dev.Base.Triple.{
  Post, Triple, Triple-pure, Triple-raise, Triple-perform, Triple-bind, Triple-assume, Triple-post,
  Triple-weaken,
}
use spark_dev.Spark.Calls.{
  flag, number, Call, create_remote, get_local, conf_set, count_one, set_instantiated, Answer, done,
  session, value,
}
use spark_dev.Spark.Session.{
  tune, session_of, remote_or_default, builder_call, create_spark, reconnect, get_spark,
}

module _ (env : Surroundings Call Answer) where
  -- the calls that `_tune` adds
  abbrev pub tuned : ℕ → List Call → List Call
  tuned s h =
      set_instantiated s
      ∷ conf_set s "spark.sql.repl.eagerEval.truncate" (number 50)
      ∷ conf_set s "spark.sql.repl.eagerEval.maxNumRows" (number 20)
      ∷ conf_set s "spark.sql.repl.eagerEval.enabled" (flag true)
      ∷ h

  next : (c : Call) (g : List Call) → Triple env (λ h. h ≡ g) (perform c) (λ _ h. h ≡ c ∷ g)
  next c g = Triple-perform env _ _ c (λ h e a q. ap (λ l. c ∷ l) e)

  tune_ensures :
      (s : ℕ) (g : List Call) → Triple env (λ h. h ≡ g) (tune s) (λ t h. (t ≡ s) × (h ≡ tuned s g))
  unfolding tune
  tune_ensures s g = Triple-bind env _ _ _ _ _ (next _ g) (λ _.
      Triple-bind env _ _ _ _ _ (next _ _) (λ _. Triple-bind env _ _ _ _ _ (next _ _) (λ _.
        Triple-bind env _ _ _ _ _ (next _ _) (λ _. Triple-pure env _ _ s (λ h e. (refl, e))))))

  -- the session is the builder's answer, and has been tuned
  abbrev pub Built : Call → List Call → ℕ → List Call → Type 0
  Built c g s h = (env (c ∷ g) ≡ some (session s)) × (h ≡ tuned s (c ∷ g))

  session_ensures :
      (c : Call) (g : List Call) (a : Answer)
      → Triple env
          (λ h. (h ≡ c ∷ g) × (env (c ∷ g) ≡ some a))
          (session_of a)
          (λ s h. (h ≡ c ∷ g) × (env (c ∷ g) ≡ some (session s)))
  session_ensures c g (session s) = Triple-pure env _ _ s (λ h p. p)
  session_ensures c g done = Triple-raise env _ _
  session_ensures c g (value v) = Triple-raise env _ _

  create_ensures :
      (remote : Option String) (force_new : Bool) (g : List Call)
      → Triple env
          (λ h. h ≡ g)
          (create_spark remote force_new)
          (Built (builder_call (remote_or_default remote) force_new) g)
  unfolding create_spark
  create_ensures remote force_new g =
      let c = builder_call (remote_or_default remote) force_new in
      Triple-bind env _ (λ a h. (h ≡ c ∷ g) × (env (c ∷ g) ≡ some a)) _ (perform c) _
        (Triple-perform env _ _ c
          (λ h e a q. (ap (λ l. c ∷ l) e, ap (λ l. env (c ∷ l)) (sym e) ∙ q)))
        (λ a.
          Triple-bind env _ (λ s h. (h ≡ c ∷ g) × (env (c ∷ g) ≡ some (session s))) _ (session_of a)
            _ (session_ensures c g a)
            (λ s. Triple-assume env _ _ (tune s) (λ h p.
              Triple-post env _ (λ t h. (t ≡ s) × (h ≡ tuned s (c ∷ g))) (Built c g) (tune s)
                (Triple-weaken env (λ h. h ≡ c ∷ g) _ _ (tune s) (tune_ensures s (c ∷ g))
                  (λ h p. p.0))
                (λ t h q. (
                  p.1 ∙ ap (λ x. some (session x)) (sym q.0),
                  q.1 ∙ ap (λ x. tuned x (c ∷ g)) (sym q.0),
                )))))

get_spark_answered :
    (env : Surroundings Call Answer) (remote : Option String) (spark : ℕ) (h : List Call)
    (a : Answer)
    → env (count_one spark ∷ h) ≡ some a
    → get_spark remote true spark env h ≡ (returns spark, count_one spark ∷ h)
unfolding get_spark
get_spark_answered env remote spark h a q = rw q refl

get_spark_silent :
    (env : Surroundings Call Answer) (remote : Option String) (spark : ℕ) (h : List Call)
    → env (count_one spark ∷ h) ≡ none
    → get_spark remote true spark env h ≡ create_spark remote true env (count_one spark ∷ h)
unfolding get_spark reconnect
get_spark_silent env remote spark h q = rw q refl

-- The session that the builder gave after a probe that raised: it was created at the remote, or, where
-- the remote is empty, it is the local one, which may have been there before.
abbrev pub Rebuilt : Surroundings Call Answer → String → List Call → ℕ → List Call → Type 0
Rebuilt env remote g s h =
    ((remote ≢ "") × Built env (create_remote remote) g s h)
    ⊎ ((remote ≡ "") × Built env get_local g s h)

rebuilt :
    (env : Surroundings Call Answer) (remote : String) (g : List Call) (s : ℕ) (h : List Call)
    → Built env (builder_call remote true) g s h
    → Rebuilt env remote g s h
rebuilt env remote g s h b = elim (Bool-cases (str_eq remote "")) [
  | inl e ↦ inr ((eq_iff remote "").0 e, subst (λ c. Built env c g s h) (call e) b)
  | inr e ↦ inl (
    λ same. true≢false (sym ((eq_iff remote "").1 same) ∙ e),
    subst (λ c. Built env c g s h) (call e) b,
  )
]
  where
    call :
        {t : Bool}
        → str_eq remote "" ≡ t
        → builder_call remote true ≡ (if t then get_local else create_remote remote)
    call e = ap (λ t. if t then get_local else create_remote remote) e

-- If `get_spark` that probes returns a session, then it is the old one, and that answered the probe;
-- or the probe raised, and it is the session that Spark's builder answered next: to `create()` at the
-- remote address, which SPARK_REMOTE or the default gives, or, if that is empty, to the local
-- `getOrCreate()`. In that case the four settings of `_tune` were the last calls.
pub get_spark_recovers :
    (env : Surroundings Call Answer) (remote : Option String) (spark : ℕ) (h : List Call) (s : ℕ)
    (h' : List Call)
    → get_spark remote true spark env h ≡ (returns s, h')
    → ((s ≡ spark) × ((a : Answer) × (env (count_one spark ∷ h) ≡ some a)))
      ⊎ ((env (count_one spark ∷ h) ≡ none)
          × Rebuilt env (remote_or_default remote) (count_one spark ∷ h) s h')
get_spark_recovers env remote spark h s h' e = elim (Option-cases (env (count_one spark ∷ h))) [
  | inl q ↦ inr (q, rebuilt env (remote_or_default remote) (count_one spark ∷ h) s h' (there q))
  | inr (a, q) ↦ inl (here a q, (a, q))
]
  where
    here : (a : Answer) → env (count_one spark ∷ h) ≡ some a → s ≡ spark
    here a q = let p = sym e ∙ get_spark_answered env remote spark h a q in ground (arith, p)

    there :
        env (count_one spark ∷ h) ≡ none
        → Built env (builder_call (remote_or_default remote) true) (count_one spark ∷ h) s h'
    there q =
        subst
          (λ (r : Outcome ℕ × List Call).
            Post (Built env (builder_call (remote_or_default remote) true) (count_one spark ∷ h))
              r.0 r.1)
          (sym (get_spark_silent env remote spark h q) ∙ e)
          ((create_ensures env remote true (count_one spark ∷ h)).at (count_one spark ∷ h) refl)
