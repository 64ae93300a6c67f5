-- ===== src/Base/Soft.antt =====
-- Effectful code that returns whatever the surroundings answer, with a rule for each way to build
-- such code.
use mathlib.Core.Path.{◌≡◌, refl, ap, ◌∙◌}
use mathlib.Core.Bool.{Bool, true, false}
use mathlib.Core.Option.{Option, none, some}
use mathlib.Core.List.{List, ◌∷◌}
use spark_dev.Base.Tests.{if◌then◌else◌}
use spark_dev.Base.Effect.{
  Outcome, returns, raises, Surroundings, Run, perform, attempt, pure, catch, handle, ◌>>=◌,
  continue, finally, close_after,
}

module _ {Call Answer : Type 0} (env : Surroundings Call Answer) where
  -- code that does not raise
  pub record Soft {A : Type 0} (m : Run Call Answer A) : Type 0 where
    pub at : (h : List Call) → (a : A) × ((m env h).0 ≡ returns a)

  pub Soft-pure : {A : Type 0} (a : A) → Soft (pure a)
  Soft-pure a = record { at = λ h. (a, refl) }

  pub Soft-perform :
      (c : Call) → ((h : List Call) → (a : Answer) × (env (c ∷ h) ≡ some a)) → Soft (perform c)
  Soft-perform c f = record {
    at = λ h. let (a, e) = f h in (a, ap (λ o. elim o [ none ↦ raises | some x ↦ returns x ]) e);
  }

  pub Soft-bind :
      {A B : Type 0} (m : Run Call Answer A) (f : A → Run Call Answer B)
      → Soft m
      → ((a : A) → Soft (f a))
      → Soft (m >>= f)
  Soft-bind m f km kf = record {
    at = λ h.
        let (a, e) = km.at h in
        let (b, q) = (kf a).at (m env h).1 in (b, ap (λ r. (continue r f env (m env h).1).0) e ∙ q);
  }

  pub Soft-catch : {A : Type 0} (m n : Run Call Answer A) → Soft n → Soft (catch m n)
  Soft-catch {A} m n k = record { at = λ h. handled (m env h).0 (m env h).1 }
    where
      handled : (r : Outcome A) (h : List Call) → (a : A) × ((handle r n env h).0 ≡ returns a)
      handled (returns a) h = (a, refl)
      handled raises h = k.at h

  pub Soft-finally :
      {A : Type 0} (m : Run Call Answer A) (c : Call)
      → ((h : List Call) → (a : Answer) × (env (c ∷ h) ≡ some a))
      → Soft m
      → Soft (finally m c)
  Soft-finally m c f k = record {
    at = λ h.
        let (a, e) = k.at h in
        let (b, q) = f (m env h).1 in (a, ap (λ o. close_after (m env h).0 o) q ∙ e);
  }

  pub Soft-if :
      {A : Type 0} (b : Bool) (m n : Run Call Answer A)
      → Soft m
      → Soft n
      → Soft (if b then m else n)
  Soft-if true m n km kn = km
  Soft-if false m n km kn = kn

  -- a call whose answers are all of one form
  pub Soft-answer :
      {X A : Type 0} (wrap : X → Answer) (c : Call) (f : Answer → Run Call Answer A)
      → ((h : List Call) → (x : X) × (env (c ∷ h) ≡ some (wrap x)))
      → ((x : X) → Soft (f (wrap x)))
      → Soft (perform c >>= f)
  Soft-answer wrap c f known k = record {
    at = λ h.
        let (x, e) = known h in
        let (a, q) = (k x).at (c ∷ h) in
        (
          a,
          ap (λ o. (continue (elim o [ none ↦ raises | some y ↦ returns y ]) f env (c ∷ h)).0) e
              ∙ q,
        );
  }

  -- a call that does not raise, in code that would see it
  pub Soft-attempt :
      {A : Type 0} (c : Call) (f : Option Answer → Run Call Answer A)
      → ((h : List Call) → (a : Answer) × (env (c ∷ h) ≡ some a))
      → ((a : Answer) → Soft (f (some a)))
      → Soft (attempt c >>= f)
  Soft-attempt c f known k = record {
    at = λ h.
        let (x, e) = known h in
        let (a, q) = (k x).at (c ∷ h) in (a, ap (λ o. (f o env (c ∷ h)).0) e ∙ q);
  }
