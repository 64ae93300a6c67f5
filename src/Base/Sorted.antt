-- ===== src/Base/Sorted.antt =====
-- Python's `sorted` on numbers, and `in` on a list of them.
use mathlib.Core.Path.{◌≡◌}
use mathlib.Core.Logic.{◌⊎◌, ◌↔◌}
use mathlib.Core.Bool.{Bool, true}
use mathlib.Core.List.{List, [], ◌∷◌}
use Prim.Native.Nat.{ℕ}
use native.Mathlib.Omega.{arith}
use spark_dev.Base.Tests.{◌==◌, leb, if◌then◌else◌}
use spark_dev.Base.Lists.{any, In}

abbrev insert_sorted : ℕ → List ℕ → List ℕ
insert_sorted p [] = p ∷ []
insert_sorted p (q ∷ qs) = let rest = insert_sorted p qs in if leb p q then p ∷ q ∷ qs else q ∷ rest

abbrev pub sorted : List ℕ → List ℕ
sorted [] = []
sorted (p ∷ ps) = insert_sorted p (sorted ps)

In-insert_sorted : (p q : ℕ) (qs : List ℕ) → In p (insert_sorted q qs) ↔ ((p ≡ q) ⊎ In p qs)
In-insert_sorted p q [] = (λ m. m, λ m. m)
In-insert_sorted p q (r ∷ qs) = ground (arith, In-insert_sorted p q qs)

pub In-sorted : (p : ℕ) (ps : List ℕ) → In p (sorted ps) ↔ In p ps
In-sorted p [] = (λ m. m, λ m. m)
In-sorted p (q ∷ ps) = ground (arith, In-insert_sorted p q (sorted ps), In-sorted p ps)

abbrev pub is_in : ℕ → List ℕ → Bool
is_in p xs = any (λ q. q == p) xs

pub is_in-In : (p : ℕ) (xs : List ℕ) → (is_in p xs ≡ true) ↔ In p xs
is_in-In p [] = (λ e. ground arith, λ m. absurd m)
is_in-In p (x ∷ xs) = ground (arith, is_in-In p xs)
