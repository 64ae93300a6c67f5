-- ===== src/Base/Triple.antt =====
-- What a piece of effectful code ensures when it returns: Hoare triples over the history of calls,
-- with a rule for each way to build such code.
use mathlib.Core.Path.{◌≡◌, refl}
use mathlib.Core.Bool.{Bool, true, false}
use mathlib.Core.Option.{Option, none, some}
use mathlib.Core.List.{List, ◌∷◌}
use spark_dev.Base.Tests.{if◌then◌else◌}
use spark_dev.Base.Keeps.{Keeps}
use spark_dev.Base.Effect.{
  Outcome, returns, raises, Surroundings, Run, perform, pure, raise, continue, ◌>>=◌, handle, catch,
  finally, close_after,
}

abbrev pub Post : {Call A : Type 0} → (A → List Call → Type 0) → Outcome A → List Call → Type 0
Post Q (returns a) h = Q a h
Post Q raises h = Unit

-- From a history with `P`, a value `a` that `m` returns comes with a history that has `Q a`.
pub record Triple {Call Answer A : Type 0} (env : Surroundings Call Answer) (P : List Call → Type 0)
    (m : Run Call Answer A) (Q : A → List Call → Type 0) : Type 0 where
  pub at : (h : List Call) → P h → Post Q (m env h).0 (m env h).1

module _ {Call Answer : Type 0} (env : Surroundings Call Answer) where
  pub Triple-pure :
      {A : Type 0} (P : List Call → Type 0) (Q : A → List Call → Type 0) (a : A)
      → ((h : List Call) → P h → Q a h)
      → Triple env P (pure a) Q
  Triple-pure P Q a f = record { at = f }

  pub Triple-raise :
      {A : Type 0} (P : List Call → Type 0) (Q : A → List Call → Type 0) → Triple env P raise Q
  Triple-raise P Q = record { at = λ h p. tt }

  answered :
      (Q : Answer → List Call → Type 0) (o : Option Answer) (h : List Call)
      → ((a : Answer) → o ≡ some a → Q a h)
      → Post Q (elim o [ none ↦ raises | some a ↦ returns a ]) h
  answered Q none h f = tt
  answered Q (some a) h f = f a refl

  pub Triple-perform :
      (P : List Call → Type 0) (Q : Answer → List Call → Type 0) (c : Call)
      → ((h : List Call) → P h → (a : Answer) → env (c ∷ h) ≡ some a → Q a (c ∷ h))
      → Triple env P (perform c) Q
  Triple-perform P Q c f = record { at = λ h p. answered Q (env (c ∷ h)) (c ∷ h) (f h p) }

  continued :
      {A B : Type 0} (Q : A → List Call → Type 0) (R : B → List Call → Type 0) (r : Outcome A)
      (f : A → Run Call Answer B)
      → ((a : A) → Triple env (Q a) (f a) R)
      → (h : List Call) → Post Q r h
      → Post R (continue r f env h).0 (continue r f env h).1
  continued Q R (returns a) f k h q = (k a).at h q
  continued Q R raises f k h q = tt

  pub Triple-bind :
      {A B : Type 0} (P : List Call → Type 0) (Q : A → List Call → Type 0)
      (R : B → List Call → Type 0) (m : Run Call Answer A) (f : A → Run Call Answer B)
      → Triple env P m Q
      → ((a : A) → Triple env (Q a) (f a) R)
      → Triple env P (m >>= f) R
  Triple-bind P Q R m f km kf = record {
    at = λ h p. continued Q R (m env h).0 f kf (m env h).1 (km.at h p);
  }

  closed :
      {A : Type 0} (Q : A → List Call → Type 0) (c : Call) (r : Outcome A) (o : Option Answer)
      (h : List Call)
      → ((a : A) → Q a h → Q a (c ∷ h))
      → Post Q r h
      → Post Q (close_after r o) (c ∷ h)
  closed Q c r none h f q = tt
  closed Q c (returns a) (some x) h f q = f a q
  closed Q c raises (some x) h f q = tt

  pub Triple-finally :
      {A : Type 0} (P : List Call → Type 0) (Q : A → List Call → Type 0) (m : Run Call Answer A)
      (c : Call)
      → Triple env P m Q
      → ((h : List Call) (a : A) → Q a h → Q a (c ∷ h))
      → Triple env P (finally m c) Q
  Triple-finally P Q m c km f = record {
    at = λ h p.
        closed Q c (m env h).0 (env (c ∷ (m env h).1)) (m env h).1 (f (m env h).1) (km.at h p);
  }

  handled :
      {A : Type 0} (Q : A → List Call → Type 0) (r : Outcome A) (n : Run Call Answer A)
      → Triple env (λ _. Unit) n Q
      → (h : List Call) → Post Q r h
      → Post Q (handle r n env h).0 (handle r n env h).1
  handled Q (returns a) n k h q = q
  handled Q raises n k h q = k.at h tt

  -- after an exception nothing is known of the history
  pub Triple-catch :
      {A : Type 0} (P : List Call → Type 0) (Q : A → List Call → Type 0) (m n : Run Call Answer A)
      → Triple env P m Q
      → Triple env (λ _. Unit) n Q
      → Triple env P (catch m n) Q
  Triple-catch P Q m n km kn = record {
    at = λ h p. handled Q (m env h).0 n kn (m env h).1 (km.at h p);
  }

  pub Triple-if :
      {A : Type 0} (P : List Call → Type 0) (Q : A → List Call → Type 0) (b : Bool)
      (m n : Run Call Answer A)
      → (b ≡ true → Triple env P m Q)
      → (b ≡ false → Triple env P n Q)
      → Triple env P (if b then m else n) Q
  Triple-if P Q true m n km kn = km refl
  Triple-if P Q false m n km kn = kn refl

  pub Triple-weaken :
      {A : Type 0} (P P' : List Call → Type 0) (Q : A → List Call → Type 0) (m : Run Call Answer A)
      → Triple env P m Q
      → ((h : List Call) → P' h → P h)
      → Triple env P' m Q
  Triple-weaken P P' Q m k f = record { at = λ h p. k.at h (f h p) }

  -- a kept property is ensured
  pub Triple-kept :
      {A : Type 0} (P : List Call → Type 0) (m : Run Call Answer A)
      → Keeps env P m
      → Triple env P m (λ _. P)
  Triple-kept P m k = record { at = λ h p. kept_post (m env h).0 (k.at h p) }
    where
      kept_post : {B : Type 0} {h : List Call} (r : Outcome B) → P h → Post {A = B} (λ _. P) r h
      kept_post (returns a) p = p
      kept_post raises p = tt

  -- the proof may use the precondition at the history where it starts
  pub Triple-assume :
      {A : Type 0} (P : List Call → Type 0) (Q : A → List Call → Type 0) (m : Run Call Answer A)
      → ((h : List Call) → P h → Triple env P m Q)
      → Triple env P m Q
  Triple-assume P Q m f = record { at = λ h p. (f h p).at h p }

  -- a kept property beside what is ensured
  pub Triple-and_kept :
      {A : Type 0} (P : List Call → Type 0) (Q : A → List Call → Type 0) (m : Run Call Answer A)
      → Keeps env P m
      → Triple env (λ _. Unit) m Q
      → Triple env P m (λ a h. P h × Q a h)
  Triple-and_kept {A} P Q m k t = record { at = λ h p. both (m env h).0 (k.at h p) (t.at h tt) }
    where
      both : {h : List Call} (r : Outcome A) → P h → Post Q r h → Post (λ a g. P g × Q a g) r h
      both (returns a) p q = (p, q)
      both raises p q = tt

  pub Triple-post :
      {A : Type 0} (P : List Call → Type 0) (Q R : A → List Call → Type 0) (m : Run Call Answer A)
      → Triple env P m Q
      → ((a : A) (h : List Call) → Q a h → R a h)
      → Triple env P m R
  Triple-post {A} P Q R m t f = record { at = λ h p. post (m env h).0 (m env h).1 (t.at h p) }
    where
      post : (r : Outcome A) (h : List Call) → Post Q r h → Post R r h
      post (returns a) h q = f a h q
      post raises h q = tt

  pub Triple-any :
      {A : Type 0} (P : List Call → Type 0) (m : Run Call Answer A) → Triple env P m (λ _ _. Unit)
  Triple-any {A} P m = record { at = λ h p. anything (m env h).0 (m env h).1 }
    where
      anything : (r : Outcome A) (h : List Call) → Post {A = A} (λ _ _. Unit) r h
      anything (returns a) h = tt
      anything raises h = tt
