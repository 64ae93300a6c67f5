-- ===== src/Polyglot/Fixups.antt =====
-- dbt/dbt-polyglot/src/dbt_polyglot/fixups.py: the rewriting of quantified comparisons. The nodes of
-- sqlglot's trees that the fix-up names are constructors; every other node is `other`, by a number
-- for its class and the nodes below it.
use spark_dev.Base.{ℕ, List, [], ◌∷◌}

mutual
  pub data Expr : Type 0 where
    neq : Expr → Expr → Expr
    eq : Expr → Expr → Expr
    all_of : Expr → Expr
    any_of : Expr → Expr
    not_of : Expr → Expr
    in_query : Expr → Expr → Expr
    subquery : Expr → Expr
    other : ℕ → Args → Expr

  pub data Args : Type 0 where
    no_args : Args
    arg : Expr → Args → Args

-- `_as_subquery`
unfoldable pub as_subquery : Expr → Expr
as_subquery (subquery e) = subquery e
as_subquery e = subquery e

-- the two tests on `node.expression`
unfoldable pub fixup_neq : Expr → Expr → Expr
unfolding as_subquery
fixup_neq this (all_of q) = not_of (in_query this (as_subquery q))
fixup_neq this e = neq this e

unfoldable pub fixup_eq : Expr → Expr → Expr
unfolding as_subquery
fixup_eq this (any_of q) = in_query this (as_subquery q)
fixup_eq this e = eq this e

unfoldable pub fixup_quantified_subquery : Expr → Expr
unfolding fixup_neq fixup_eq
fixup_quantified_subquery (neq this e) = fixup_neq this e
fixup_quantified_subquery (eq this e) = fixup_eq this e
fixup_quantified_subquery e = e

-- `SPARK_FIXUPS`
abbrev pub spark_fixups : List (Expr → Expr)
spark_fixups = fixup_quantified_subquery ∷ []
