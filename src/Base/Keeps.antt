-- ===== src/Base/Keeps.antt =====
-- Properties of the history that a piece of effectful code keeps, whether it returns or raises,
-- with a rule for each way to build such code.
use mathlib.Core.Bool.{Bool, true, false}
use mathlib.Core.List.{List, ◌∷◌}
use spark_dev.Base.Tests.{if◌then◌else◌}
use spark_dev.Base.Effect.{
  Outcome, returns, raises, Surroundings, Run, perform, pure, raise, continue, ◌>>=◌, handle, catch,
  finally,
}

pub record Keeps {Call Answer A : Type 0} (env : Surroundings Call Answer) (P : List Call → Type 0)
    (m : Run Call Answer A) : Type 0 where
  pub at : (h : List Call) → P h → P (m env h).1

module _ {Call Answer : Type 0} (env : Surroundings Call Answer) (P : List Call → Type 0) where
  pub Keeps-perform : (c : Call) → ((h : List Call) → P h → P (c ∷ h)) → Keeps env P (perform c)
  Keeps-perform c f = record { at = f }

  pub Keeps-pure : {A : Type 0} (a : A) → Keeps env P (pure a)
  Keeps-pure a = record { at = λ h p. p }

  pub Keeps-raise : {A : Type 0} → Keeps env P (raise {A = A})
  Keeps-raise = record { at = λ h p. p }

  continue-keeps :
      {A B : Type 0} (r : Outcome A) (f : A → Run Call Answer B)
      → ((a : A) → Keeps env P (f a))
      → (h : List Call) → P h
      → P (continue r f env h).1
  continue-keeps (returns a) f k h p = (k a).at h p
  continue-keeps raises f k h p = p

  pub Keeps-bind :
      {A B : Type 0} (m : Run Call Answer A) (f : A → Run Call Answer B)
      → Keeps env P m
      → ((a : A) → Keeps env P (f a))
      → Keeps env P (m >>= f)
  Keeps-bind m f km kf = record {
    at = λ h p. continue-keeps (m env h).0 f kf (m env h).1 (km.at h p);
  }

  handle-keeps :
      {A : Type 0} (r : Outcome A) (n : Run Call Answer A)
      → Keeps env P n
      → (h : List Call) → P h
      → P (handle r n env h).1
  handle-keeps (returns a) n k h p = p
  handle-keeps raises n k h p = k.at h p

  pub Keeps-catch :
      {A : Type 0} (m n : Run Call Answer A)
      → Keeps env P m
      → Keeps env P n
      → Keeps env P (catch m n)
  Keeps-catch m n km kn = record {
    at = λ h p. handle-keeps (m env h).0 n kn (m env h).1 (km.at h p);
  }

  pub Keeps-if :
      {A : Type 0} (b : Bool) (m n : Run Call Answer A)
      → Keeps env P m
      → Keeps env P n
      → Keeps env P (if b then m else n)
  Keeps-if true m n km kn = km
  Keeps-if false m n km kn = kn

  pub Keeps-finally :
      {A : Type 0} (m : Run Call Answer A) (c : Call)
      → Keeps env P m
      → ((h : List Call) → P h → P (c ∷ h))
      → Keeps env P (finally m c)
  Keeps-finally m c k f = record { at = λ h p. f (m env h).1 (k.at h p) }
