-- ===== src/Polyglot/Transpile.antt =====
-- dbt/dbt-polyglot/src/dbt_polyglot/transpile.py: `spark_safe_transpile`, and the method that
-- `patch_compiler` puts in place of dbt's `Compiler._compile_code`.
use spark_dev.Base.{
  ℕ, ◌+◌, ◌≡◌, Bool, true, Option, none, some, List, [], ◌∷◌, if◌then◌else◌, all, try_then,
}
use spark_dev.Base.Text.{Text, codes, text_eq}
use spark_dev.Polyglot.Fixups.{
  Expr, neq, eq, all_of, any_of, not_of, in_query, subquery, other, Args, no_args, arg,
  spark_fixups,
}

-- A tree that comes from another by putting `f` of nodes for nodes, at any depth and in any order.
mutual
  pub data Rewritten (f : Expr → Expr) : Expr → Expr → Type 0 where
    stay : {a : Expr} → Rewritten f a a
    -- a node is replaced after, or before, the nodes below it
    after : {a b c : Expr} → Rewritten f a b → c ≡ f b → Rewritten f a c
    before : {a b c : Expr} → b ≡ f a → Rewritten f b c → Rewritten f a c
    in_neq : {a b c d : Expr} → Rewritten f a b → Rewritten f c d → Rewritten f (neq a c) (neq b d)
    in_eq : {a b c d : Expr} → Rewritten f a b → Rewritten f c d → Rewritten f (eq a c) (eq b d)
    in_all : {a b : Expr} → Rewritten f a b → Rewritten f (all_of a) (all_of b)
    in_any : {a b : Expr} → Rewritten f a b → Rewritten f (any_of a) (any_of b)
    in_not : {a b : Expr} → Rewritten f a b → Rewritten f (not_of a) (not_of b)
    in_in :
        {a b c d : Expr}
        → Rewritten f a b
        → Rewritten f c d
        → Rewritten f (in_query a c) (in_query b d)
    in_subquery : {a b : Expr} → Rewritten f a b → Rewritten f (subquery a) (subquery b)
    in_other :
        {k : ℕ} {xs ys : Args} → RewrittenArgs f xs ys → Rewritten f (other k xs) (other k ys)

  pub data RewrittenArgs (f : Expr → Expr) : Args → Args → Type 0 where
    no_change : RewrittenArgs f no_args no_args
    in_arg :
        {a b : Expr} {xs ys : Args}
        → Rewritten f a b
        → RewrittenArgs f xs ys
        → RewrittenArgs f (arg a xs) (arg b ys)

-- sqlglot: `parse(code, read)`, `tree.transform(f)` and `tree.sql(dialect)`, where `none` is an
-- exception and a statement may be None; and Python's test for blank characters. What is assumed of
-- `transform` is that it replaces nodes by their images.
pub record Sqlglot : Type 0 where
  pub parse : Text → Text → Option (List (Option Expr))
  pub transform : (Expr → Expr) → Expr → Expr
  pub sql : Expr → Text → Option Text
  pub is_space : ℕ → Bool
  pub transforms : (f : Expr → Expr) (e : Expr) → Rewritten f e (transform f e)

abbrev pub default_target : Text
default_target = codes "spark"

-- `dst or _DEFAULT_TARGET`
unfoldable pub target_of : Option Text → Text
target_of none = default_target
target_of (some []) = default_target
target_of (some (c ∷ cs)) = c ∷ cs

-- the one statement, or the `ValueError`
unfoldable pub one_statement : List (Option Expr) → Option Expr
one_statement [] = none
one_statement (s ∷ []) = s
one_statement (s ∷ t ∷ ss) = none

unfoldable pub apply_fixups : Sqlglot → List (Expr → Expr) → Expr → Expr
apply_fixups g [] tree = tree
apply_fixups g (f ∷ fs) tree = apply_fixups g fs (g.transform f tree)

-- the tree that is printed
unfoldable pub fixed : Sqlglot → Text → Expr → Expr
unfolding apply_fixups
fixed g dst tree = if text_eq dst default_target then apply_fixups g spark_fixups tree else tree

-- `if not (out or "").strip(): raise`
unfoldable pub not_blank : Sqlglot → Text → Option Text
not_blank g out = if all g.is_space out then none else some out

unfoldable pub transpile_to : Sqlglot → Text → Text → Text → Option Text
unfolding one_statement fixed not_blank
transpile_to g code src dst = try_then (g.parse code src) (λ statements.
    try_then (one_statement statements)
      (λ tree. try_then (g.sql (fixed g dst tree) dst) (not_blank g)))

unfoldable pub spark_safe_transpile : Sqlglot → Text → Text → Option Text → Option Text
unfolding target_of transpile_to
spark_safe_transpile g code src dst = transpile_to g code src (target_of dst)

-- the settings of a model; reading them may raise, which is a `config` of `none`
pub record Config : Type 0 where
  pub transpile_from : Option Text
  pub transpile_to : Option Text

pub record Node : Type 0 where
  pub unique_id : Text
  pub config : Option Config
  pub compiled_code : Option Text

abbrev pub code_of : Node → Text
code_of n = elim n.compiled_code [ none ↦ [] | some c ↦ c ]

-- `not src or src == dst`
unfoldable pub opted_out : Option Text → Text → Bool
opted_out none dst = true
opted_out (some []) dst = true
opted_out (some (c ∷ cs)) dst = text_eq (c ∷ cs) dst

abbrev pub source_of : Option Text → Text
source_of none = []
source_of (some s) = s

-- the `except`: the node as it is, and one warning more
abbrev pub finished : Node → ℕ → Option Text → Node × ℕ
finished node warnings none = (node, warnings + 1)
finished node warnings (some code) = (record node { compiled_code = some code }, warnings)

unfoldable pub patched_config : Sqlglot → Node → ℕ → Config → Node × ℕ
unfolding target_of opted_out spark_safe_transpile
patched_config g node warnings c =
    let dst = target_of c.transpile_to in
    if opted_out c.transpile_from dst
    then (node, warnings)
    else finished node warnings
        (spark_safe_transpile g (code_of node) (source_of c.transpile_from) (some dst))

unfoldable pub patched_with : Sqlglot → Node → ℕ → Option Config → Node × ℕ
unfolding patched_config
patched_with g node warnings none = (node, warnings + 1)
patched_with g node warnings (some c) = patched_config g node warnings c

-- `_patched`, from the node that dbt's own method returned: the node and the warnings logged so far
unfoldable pub patched : Sqlglot → Node → ℕ → Node × ℕ
unfolding patched_with
patched g node warnings = patched_with g node warnings node.config
