-- ===== src/Base/Effect.antt =====
-- Code that calls services outside the program and may raise. Its state is the history of the calls
-- that it made, newest first; the surroundings answer each call as they like, from that history.
use mathlib.Core.Option.{Option, none, some}
use mathlib.Core.List.{List, ◌∷◌}

pub data Outcome (A : Type 0) : Type 0 where
  returns : A → Outcome A
  raises : Outcome A

-- What the surroundings answer to the call that stands first in the history: `none` is an
-- exception.
abbrev pub Surroundings : Type 0 → Type 0 → Type 0
Surroundings Call Answer = List Call → Option Answer

abbrev pub Run : Type 0 → Type 0 → Type 0 → Type 0
Run Call Answer A = Surroundings Call Answer → List Call → Outcome A × List Call

-- an exception of the closing call replaces the outcome
abbrev pub close_after : {A Answer : Type 0} → Outcome A → Option Answer → Outcome A
close_after r none = raises
close_after r (some _) = r

module _ {Call Answer : Type 0} where
  -- one call
  abbrev pub perform : Call → Run Call Answer Answer
  perform c env h = (elim (env (c ∷ h)) [ none ↦ raises | some a ↦ returns a ], c ∷ h)

  -- a call whose exception is an answer too
  abbrev pub attempt : Call → Run Call Answer (Option Answer)
  attempt c env h = (returns (env (c ∷ h)), c ∷ h)

  abbrev pub pure : {A : Type 0} → A → Run Call Answer A
  pure a env h = (returns a, h)

  abbrev pub raise : {A : Type 0} → Run Call Answer A
  raise env h = (raises, h)

  abbrev pub continue :
      {A B : Type 0}
      → Outcome A
      → (A → Run Call Answer B)
      → Surroundings Call Answer
      → List Call
      → Outcome B × List Call
  continue (returns a) f env h = f a env h
  continue raises f env h = (raises, h)

  infixl 5 ◌>>=◌ ◌>>◌
  abbrev pub ◌>>=◌ :
      {A B : Type 0} → Run Call Answer A → (A → Run Call Answer B) → Run Call Answer B
  ◌>>=◌ m f env h = let (r, h') = m env h in continue r f env h'

  abbrev pub ◌>>◌ : {A B : Type 0} → Run Call Answer A → Run Call Answer B → Run Call Answer B
  m >> n = m >>= λ _. n

  -- `try: m except Exception: n`
  abbrev pub handle :
      {A : Type 0}
      → Outcome A
      → Run Call Answer A
      → Surroundings Call Answer
      → List Call
      → Outcome A × List Call
  handle (returns a) n env h = (returns a, h)
  handle raises n env h = n env h

  abbrev pub catch : {A : Type 0} → Run Call Answer A → Run Call Answer A → Run Call Answer A
  catch m n env h = let (r, h') = m env h in handle r n env h'

  -- `try: m finally: c`, for a `c` that is one call
  abbrev pub finally : {A : Type 0} → Run Call Answer A → Call → Run Call Answer A
  finally m c env h = let (r, h') = m env h in (close_after r (env (c ∷ h')), c ∷ h')
