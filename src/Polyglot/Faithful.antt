-- ===== src/Polyglot/Faithful.antt =====
-- dbt/dbt-polyglot/src/dbt_polyglot/transpile.py keeps the meaning of a model, and fails soft.
use spark_dev.Base.{
  ℕ, ◌+◌, ◌≡◌, ◌≢◌, ◌⊎◌, inl, inr, refl, sym, ap, ◌∙◌, true, false, Option, none, some, List, [],
  ◌∷◌, all, try_then, Bool-cases,
}
use mathlib.Core.Path.{ap₂, subst}
use mathlib.Core.Option.{some-injective, none-ne-some}
use mathlib.Core.Bool.{true≢false}
use spark_dev.Base.Text.{Text, codes, text_eq, text_eq_sound, text_eq_refl}
use spark_dev.Polyglot.Fixups.{Expr, Args, fixup_quantified_subquery}
use spark_dev.Polyglot.Meaning.{
  Interpretation, eval, eval_args, eval-fixup, on_scalar, scalar_neq, scalar_eq, scalar_in,
}
use spark_dev.Polyglot.Transpile.{
  Rewritten, stay, after, before, in_neq, in_eq, in_all, in_any, in_not, in_in, in_subquery,
  in_other, RewrittenArgs, no_change, in_arg, Sqlglot, target_of, one_statement, apply_fixups,
  fixed, not_blank, transpile_to, spark_safe_transpile, Config, Node, code_of, opted_out, source_of,
  finished, patched_config, patched_with, patched,
}

module _ (ρ : Interpretation) (f : Expr → Expr) (keeps : (e : Expr) → eval ρ (f e) ≡ eval ρ e) where
  mutual
    unfolding eval

    eval-Rewritten : {a b : Expr} → Rewritten f a b → eval ρ b ≡ eval ρ a
    eval-Rewritten stay = refl
    eval-Rewritten (after {b = b} r e) = ap (eval ρ) e ∙ (keeps b ∙ eval-Rewritten r)
    eval-Rewritten (before {a = a} e r) = eval-Rewritten r ∙ (ap (eval ρ) e ∙ keeps a)
    eval-Rewritten (in_neq r s) = ap₂ (on_scalar scalar_neq) (eval-Rewritten r) (eval-Rewritten s)
    eval-Rewritten (in_eq r s) = ap₂ (on_scalar scalar_eq) (eval-Rewritten r) (eval-Rewritten s)
    eval-Rewritten (in_all r) = cc (eval-Rewritten r)
    eval-Rewritten (in_any r) = cc (eval-Rewritten r)
    eval-Rewritten (in_not r) = cc (eval-Rewritten r)
    eval-Rewritten (in_in r s) = ap₂ (on_scalar scalar_in) (eval-Rewritten r) (eval-Rewritten s)
    eval-Rewritten (in_subquery r) = eval-Rewritten r
    eval-Rewritten (in_other {k = k} r) = ap (ρ k) (eval-RewrittenArgs r)

    eval-RewrittenArgs : {xs ys : Args} → RewrittenArgs f xs ys → eval_args ρ ys ≡ eval_args ρ xs
    eval-RewrittenArgs no_change = refl
    eval-RewrittenArgs (in_arg r s) = ap₂ (λ v vs. v ∷ vs) (eval-Rewritten r) (eval-RewrittenArgs s)

eval-fixed :
    (ρ : Interpretation) (g : Sqlglot) (dst : Text) (tree : Expr)
    → eval ρ (fixed g dst tree) ≡ eval ρ tree
unfolding fixed apply_fixups
eval-fixed ρ g dst tree = elim (Bool-cases (text_eq dst (codes "spark"))) [
  | inl e ↦ rw e (
      eval-Rewritten ρ fixup_quantified_subquery (eval-fixup ρ)
        (g.transforms fixup_quantified_subquery tree))
  | inr e ↦ rw e refl
]

-- `out` is printed for a tree that means what the only statement of `code` means.
abbrev pub Renders : Sqlglot → Text → Text → Text → Text → Type 0
Renders g code src dst out =
    (tree printed : Expr) × (g.parse code src ≡ some (some tree ∷ []))
    × (g.sql printed dst ≡ some out)
    × ((ρ : Interpretation) → eval ρ printed ≡ eval ρ tree)
    × (all g.is_space out ≡ false)

one_statement-some :
    (ss : List (Option Expr)) (tree : Expr) → one_statement ss ≡ some tree → ss ≡ some tree ∷ []
unfolding one_statement
one_statement-some [] tree h = cc
one_statement-some (s ∷ []) tree h = ap (λ o. o ∷ []) h
one_statement-some (s ∷ t ∷ ss) tree h = cc

not_blank-some :
    (g : Sqlglot) (out r : Text) → not_blank g out ≡ some r → (out ≡ r) × (all g.is_space r ≡ false)
unfolding not_blank
not_blank-some g out r h = elim (Bool-cases (all g.is_space out)) [
  | inl e ↦ absurd (none-ne-some r (rw e at h))
  | inr e ↦ let same = some-injective _ _ (rw e at h) in (same, ap (all g.is_space) (sym same) ∙ e)
]

try_then-some :
    {A B : Type 0} (o : Option A) (f : A → Option B) (b : B)
    → try_then o f ≡ some b
    → (a : A) × (o ≡ some a) × (f a ≡ some b)
try_then-some none f b h = absurd (none-ne-some b h)
try_then-some (some a) f b h = (a, refl, h)

transpile-Renders :
    (g : Sqlglot) (code src dst out : Text)
    → transpile_to g code src dst ≡ some out
    → Renders g code src dst out
unfolding transpile_to
transpile-Renders g code src dst out h =
    let (statements, parsed, h₁) = try_then-some (g.parse code src) _ out h in
    let (tree, single, h₂) = try_then-some (one_statement statements) _ out h₁ in
    let (printed, printing, h₃) = try_then-some (g.sql (fixed g dst tree) dst) _ out h₂ in
    let (same, solid) = not_blank-some g printed out h₃ in
    (
      tree,
      fixed g dst tree,
      parsed ∙ ap some (one_statement-some statements tree single),
      printing ∙ ap some same,
      λ ρ. eval-fixed ρ g dst tree,
      solid,
    )

-- If `spark_safe_transpile` returns a text, then the source is exactly one statement, and the text is
-- not blank and is what sqlglot prints for a tree that has the meaning of that statement, whatever
-- the other nodes mean and also on nulls.
pub transpile_faithful :
    (g : Sqlglot) (code src : Text) (dst : Option Text) (out : Text)
    → spark_safe_transpile g code src dst ≡ some out
    → Renders g code src (target_of dst) out
unfolding spark_safe_transpile
transpile_faithful g code src dst out h = transpile-Renders g code src (target_of dst) out h

-- the dialect that a model is printed in: its `transpile_to`, or else Spark's
abbrev pub IsTarget : Option Text → Text → Type 0
IsTarget to dst =
    ((to ≡ some dst) × (dst ≢ [])) ⊎ (((to ≡ none) ⊎ (to ≡ some [])) × (dst ≡ codes "spark"))

-- no source dialect, an empty one, or the one that the model is printed in
abbrev pub OptsOut : Option Text → Text → Type 0
OptsOut from dst = (from ≡ none) ⊎ ((from ≡ some []) ⊎ (from ≡ some dst))

-- what becomes of a model's node, which has a source dialect: the transpiler gives nothing, or a text
abbrev pub Replaced : Sqlglot → Node → ℕ → Text → Text → Node × ℕ → Type 0
Replaced g node warnings src dst r =
    ((spark_safe_transpile g (code_of node) src (some dst) ≡ none) × (r ≡ (node, warnings + 1)))
    ⊎ ((out : Text) × (spark_safe_transpile g (code_of node) src (some dst) ≡ some out)
        × Renders g (code_of node) src dst out
        × (r ≡ (record node { compiled_code = some out }, warnings)))

abbrev pub Configured : Sqlglot → Node → ℕ → Config → Node × ℕ → Type 0
Configured g node warnings c r =
    (dst : Text) × IsTarget c.transpile_to dst
    × ((OptsOut c.transpile_from dst × (r ≡ (node, warnings)))
        ⊎ ((src : Text) × (c.transpile_from ≡ some src)
            × ¬ OptsOut (some src) dst
            × Replaced g node warnings src dst r))

abbrev pub Soft : Sqlglot → Node → ℕ → Node × ℕ → Type 0
Soft g node warnings r =
    ((node.config ≡ none) × (r ≡ (node, warnings + 1)))
    ⊎ ((c : Config) × (node.config ≡ some c) × Configured g node warnings c r)

target_of-IsTarget : (to : Option Text) → IsTarget to (target_of to)
unfolding target_of
target_of-IsTarget none = inr (inl refl, refl)
target_of-IsTarget (some []) = inr (inr refl, refl)
target_of-IsTarget (some (c ∷ cs)) = inl (refl, λ h. cc h)

target_of-solid : (to : Option Text) → target_of (some (target_of to)) ≡ target_of to
unfolding target_of
target_of-solid none = refl
target_of-solid (some []) = refl
target_of-solid (some (c ∷ cs)) = refl

-- A source dialect is opted out of, or there is one that is not.
opted_out-cases :
    (from : Option Text) (dst : Text)
    → (OptsOut from dst × (opted_out from dst ≡ true))
      ⊎ ((from ≡ some (source_of from))
          × ¬ OptsOut (some (source_of from)) dst
          × (opted_out from dst ≡ false))
unfolding opted_out
opted_out-cases none dst = inl (inl refl, refl)
opted_out-cases (some []) dst = inl (inr (inl refl), refl)
opted_out-cases (some (c ∷ cs)) dst = elim (Bool-cases (text_eq (c ∷ cs) dst)) [
  | inl e ↦ inl (inr (inr (ap some (text_eq_sound (c ∷ cs) dst e))), e)
  | inr e ↦ inr (
    refl,
    λ o. elim o [
      | inl h ↦ none-ne-some (c ∷ cs) (sym h)
      | inr (inl h) ↦ cc h
      | inr (inr h) ↦
          true≢false (
            sym (text_eq_refl (c ∷ cs)) ∙ ap (text_eq (c ∷ cs)) (some-injective (c ∷ cs) dst h) ∙ e)
    ],
    e,
  )
]

module _ (g : Sqlglot) (node : Node) (warnings : ℕ) where
  finished-Replaced :
      (src : Text) (to : Option Text) (o : Option Text)
      → spark_safe_transpile g (code_of node) src (some (target_of to)) ≡ o
      → Replaced g node warnings src (target_of to) (finished node warnings o)
  finished-Replaced src to none h = inl (h, refl)
  finished-Replaced src to (some out) h =
      let faithful = transpile_faithful g (code_of node) src (some (target_of to)) out h in
      inr (
        out,
        h,
        subst (λ d. Renders g (code_of node) src d out) (target_of-solid to) faithful,
        refl,
      )

  patched_config-Configured :
      (c : Config) → Configured g node warnings c (patched_config g node warnings c)
  unfolding patched_config
  patched_config-Configured c =
      let dst = target_of c.transpile_to in
      let src = source_of c.transpile_from in
      elim (opted_out-cases c.transpile_from dst) [
        | inl (out, e) ↦ (dst, target_of-IsTarget c.transpile_to, inl (out, rw e refl))
        | inr (from, other, e) ↦ (
          dst,
          target_of-IsTarget c.transpile_to,
          inr (src, from, other, rw e (finished-Replaced src c.transpile_to _ refl)),
        )
      ]

  patched_with-Soft :
      (o : Option Config) → node.config ≡ o → Soft g node warnings (patched_with g node warnings o)
  unfolding patched_with
  patched_with-Soft none h = inl (h, refl)
  patched_with-Soft (some c) h = inr (c, h, patched_config-Configured c)

-- The method that stands in for dbt's does the following to a model. Where its config cannot be read,
-- the model stays as it is, with one more warning. Where the model has no source dialect, or the one
-- that it is printed in (`transpile_to`, or else Spark's), it stays as it is, with no warning. Where it
-- has another one, its code is transpiled from that dialect: if this gives nothing, the model stays as it
-- is, with one more warning; if it gives a text, that is a faithful rendering of the model's code from
-- the one dialect in the other, and replaces the compiled code alone, with no warning.
pub patched-Soft :
    (g : Sqlglot) (node : Node) (warnings : ℕ) → Soft g node warnings (patched g node warnings)
unfolding patched
patched-Soft g node warnings = patched_with-Soft g node warnings node.config refl
