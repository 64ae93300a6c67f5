-- ===== src/Polyglot/Meaning.antt =====
-- The meaning of SQL comparisons with subqueries, in three-valued logic, for the fix-ups of
-- dbt/dbt-polyglot/src/dbt_polyglot/fixups.py. Null is `none`; the nodes that the fix-ups do not
-- name mean what an interpretation says.
use spark_dev.Base.{
  ℕ, ◌≡◌, refl, ap, ◌∙◌, sym, Option, none, some, List, [], ◌∷◌, ◌==◌, if◌then◌else◌, arith,
}
use spark_dev.Polyglot.Fixups.{
  Expr, neq, eq, all_of, any_of, not_of, in_query, subquery, other, Args, no_args, arg, as_subquery,
  fixup_neq, fixup_eq, fixup_quantified_subquery,
}

pub data Truth : Type 0 where
  holds fails unknown : Truth

abbrev pub negation : Truth → Truth
negation holds = fails
negation fails = holds
negation unknown = unknown

abbrev pub conjunction : Truth → Truth → Truth
conjunction holds b = b
conjunction fails b = fails
conjunction unknown holds = unknown
conjunction unknown fails = fails
conjunction unknown unknown = unknown

abbrev pub disjunction : Truth → Truth → Truth
disjunction fails b = b
disjunction holds b = holds
disjunction unknown fails = unknown
disjunction unknown holds = holds
disjunction unknown unknown = unknown

-- equality of scalars
abbrev pub same : Option ℕ → Option ℕ → Truth
same none b = unknown
same (some a) none = unknown
same (some a) (some b) = if a == b then holds else fails

-- `x <> ALL (rows)` is a conjunction, `x = ANY (rows)` and `x IN (rows)` are disjunctions
pub differs_from_all : Option ℕ → List (Option ℕ) → Truth
differs_from_all x [] = holds
differs_from_all x (r ∷ rs) = conjunction (negation (same x r)) (differs_from_all x rs)

pub is_among : Option ℕ → List (Option ℕ) → Truth
is_among x [] = fails
is_among x (r ∷ rs) = disjunction (same x r) (is_among x rs)

pub equals_all : Option ℕ → List (Option ℕ) → Truth
equals_all x [] = holds
equals_all x (r ∷ rs) = conjunction (same x r) (equals_all x rs)

pub differs_from_any : Option ℕ → List (Option ℕ) → Truth
differs_from_any x [] = fails
differs_from_any x (r ∷ rs) = disjunction (negation (same x r)) (differs_from_any x rs)

-- what an expression denotes: a scalar, the rows of a query, a truth value, the rows behind ALL or
-- ANY, or nothing
pub data Value : Type 0 where
  scalar : Option ℕ → Value
  rows : List (Option ℕ) → Value
  truth : Truth → Value
  every : List (Option ℕ) → Value
  some_of : List (Option ℕ) → Value
  invalid : Value

abbrev pub as_every : Value → Value
as_every (rows rs) = every rs
as_every (scalar x) = invalid
as_every (truth t) = invalid
as_every (every rs) = invalid
as_every (some_of rs) = invalid
as_every invalid = invalid

abbrev pub as_some : Value → Value
as_some (rows rs) = some_of rs
as_some (scalar x) = invalid
as_some (truth t) = invalid
as_some (every rs) = invalid
as_some (some_of rs) = invalid
as_some invalid = invalid

abbrev pub negated : Value → Value
negated (truth t) = truth (negation t)
negated (rows rs) = invalid
negated (scalar x) = invalid
negated (every rs) = invalid
negated (some_of rs) = invalid
negated invalid = invalid

abbrev pub scalar_neq : Option ℕ → Value → Value
scalar_neq x (scalar y) = truth (negation (same x y))
scalar_neq x (every rs) = truth (differs_from_all x rs)
scalar_neq x (some_of rs) = truth (differs_from_any x rs)
scalar_neq x (rows rs) = invalid
scalar_neq x (truth t) = invalid
scalar_neq x invalid = invalid

abbrev pub scalar_eq : Option ℕ → Value → Value
scalar_eq x (scalar y) = truth (same x y)
scalar_eq x (every rs) = truth (equals_all x rs)
scalar_eq x (some_of rs) = truth (is_among x rs)
scalar_eq x (rows rs) = invalid
scalar_eq x (truth t) = invalid
scalar_eq x invalid = invalid

abbrev pub scalar_in : Option ℕ → Value → Value
scalar_in x (rows rs) = truth (is_among x rs)
scalar_in x (scalar y) = invalid
scalar_in x (truth t) = invalid
scalar_in x (every rs) = invalid
scalar_in x (some_of rs) = invalid
scalar_in x invalid = invalid

-- an operation whose left side is a scalar
abbrev pub on_scalar : (Option ℕ → Value → Value) → Value → Value → Value
on_scalar f (scalar x) v = f x v
on_scalar f (rows rs) v = invalid
on_scalar f (truth t) v = invalid
on_scalar f (every rs) v = invalid
on_scalar f (some_of rs) v = invalid
on_scalar f invalid v = invalid

-- the meaning of the other nodes, from those of the nodes below them
abbrev pub Interpretation : Type 0
Interpretation = ℕ → List Value → Value

unfoldable mutual
  pub eval : Interpretation → Expr → Value
  eval ρ (neq a b) = on_scalar scalar_neq (eval ρ a) (eval ρ b)
  eval ρ (eq a b) = on_scalar scalar_eq (eval ρ a) (eval ρ b)
  eval ρ (all_of e) = as_every (eval ρ e)
  eval ρ (any_of e) = as_some (eval ρ e)
  eval ρ (not_of e) = negated (eval ρ e)
  eval ρ (in_query a q) = on_scalar scalar_in (eval ρ a) (eval ρ q)
  eval ρ (subquery e) = eval ρ e
  eval ρ (other k es) = ρ k (eval_args ρ es)

  pub eval_args : Interpretation → Args → List Value
  eval_args ρ no_args = []
  eval_args ρ (arg e es) = eval ρ e ∷ eval_args ρ es

de_morgan : (a b : Truth) → conjunction (negation a) (negation b) ≡ negation (disjunction a b)
de_morgan a b = ground arith

differs-is_among :
    (x : Option ℕ) (rs : List (Option ℕ)) → differs_from_all x rs ≡ negation (is_among x rs)
unfolding differs_from_all is_among
differs-is_among x [] = refl
differs-is_among x (r ∷ rs) =
    ap (conjunction (negation (same x r))) (differs-is_among x rs)
    ∙ de_morgan (same x r) (is_among x rs)

neq_every : (v w : Value) → on_scalar scalar_neq v (as_every w) ≡ negated (on_scalar scalar_in v w)
neq_every (scalar x) (rows rs) = ap truth (differs-is_among x rs)
neq_every (scalar x) _ = refl
neq_every _ _ = refl

eq_some : (v w : Value) → on_scalar scalar_eq v (as_some w) ≡ on_scalar scalar_in v w
eq_some (scalar x) (rows rs) = refl
eq_some (scalar x) _ = refl
eq_some _ _ = refl

eval-as_subquery : (ρ : Interpretation) (e : Expr) → eval ρ (as_subquery e) ≡ eval ρ e
unfolding eval as_subquery
eval-as_subquery ρ (subquery e) = refl
eval-as_subquery ρ _ = refl

eval-fixup_neq : (ρ : Interpretation) (a e : Expr) → eval ρ (fixup_neq a e) ≡ eval ρ (neq a e)
unfolding eval fixup_neq
eval-fixup_neq ρ a (all_of q) =
    ap (λ w. negated (on_scalar scalar_in (eval ρ a) w)) (eval-as_subquery ρ q)
    ∙ sym (neq_every (eval ρ a) (eval ρ q))
eval-fixup_neq ρ a _ = refl

eval-fixup_eq : (ρ : Interpretation) (a e : Expr) → eval ρ (fixup_eq a e) ≡ eval ρ (eq a e)
unfolding eval fixup_eq
eval-fixup_eq ρ a (any_of q) =
    ap (λ w. on_scalar scalar_in (eval ρ a) w) (eval-as_subquery ρ q)
    ∙ sym (eq_some (eval ρ a) (eval ρ q))
eval-fixup_eq ρ a _ = refl

-- The fix-up keeps the meaning of every node, nulls included.
pub eval-fixup : (ρ : Interpretation) (e : Expr) → eval ρ (fixup_quantified_subquery e) ≡ eval ρ e
unfolding fixup_quantified_subquery
eval-fixup ρ (neq a e) = eval-fixup_neq ρ a e
eval-fixup ρ (eq a e) = eval-fixup_eq ρ a e
eval-fixup ρ _ = refl
