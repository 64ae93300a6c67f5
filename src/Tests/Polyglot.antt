-- ===== src/Tests/Polyglot.antt =====
-- dbt/dbt-polyglot/src/dbt_polyglot on a model of one statement, `x <> ALL (q)`.
use spark_dev.Base.{◌≡◌, refl, none, some, [], ◌∷◌, ◌==◌}
use spark_dev.Base.Text.{codes, text_eq}
use spark_dev.Polyglot.Fixups.{Expr, neq, all_of, other, no_args}
use spark_dev.Polyglot.Meaning.{Interpretation, scalar}
use spark_dev.Polyglot.Transpile.{
  after, stay, Sqlglot, target_of, spark_safe_transpile, Node, patched,
}
use spark_dev.Polyglot.Faithful.{Renders, transpile_faithful, Soft, patched-Soft}

-- `x <> ALL (q)`
abbrev statement : Expr
statement = neq (other 1 no_args) (all_of (other 2 no_args))

-- reads this statement only, and prints every tree the same
abbrev one_statement_sqlglot : Sqlglot
one_statement_sqlglot = record {
  parse = λ code src. some (some statement ∷ []);
  transform = λ f e. f e;
  sql = λ e dst. some (codes "SELECT 1");
  is_space = λ c. c == 32;
  transforms = λ f e. after stay refl;
}

transpile_run :
    spark_safe_transpile one_statement_sqlglot (codes "q") (codes "postgres") none
    ≡ some (codes "SELECT 1")
unfolding spark_safe_transpile text_eq
transpile_run = refl

transpile_faithful_example :
    Renders one_statement_sqlglot (codes "q") (codes "postgres") (target_of none) (codes "SELECT 1")
transpile_faithful_example =
    transpile_faithful one_statement_sqlglot (codes "q") (codes "postgres") none (codes "SELECT 1")
      transpile_run

abbrev model : Node
model = record {
  unique_id = codes "model.shop.orders";
  config = some (record { transpile_from = some (codes "postgres"); transpile_to = none });
  compiled_code = some (codes "q");
}

patched-Soft_example : Soft one_statement_sqlglot model 0 (patched one_statement_sqlglot model 0)
patched-Soft_example = patched-Soft one_statement_sqlglot model 0

-- every other node is the scalar of its number
abbrev by_number : Interpretation
by_number k vs = scalar (some k)
