-- ===== src/Sql/Plan/Select.antt =====
-- What the plan of a select statement yields, one item after the other.
use mynode.Base.{String, ◌≡◌, refl, ap, ◌∙◌, false, Option, none, some, List, [], ◌∷◌, map}
use mynode.Base.Result.{Result}
use mynode.Base.Outcome.{Outcome, returned, failed, panicked, of_result, and_then}
use mynode.Sql.Ast.{SelectClause, FromClause, Statement}
use mynode.Sql.Ast as Ast
use mynode.Sql.Value.{Value, Row}
use mynode.Sql.Eval.{Expression, evaluate}
use mynode.Sql.Storage.{Backend, scan_rows}
use mynode.Sql.Plan.{
  Node, nothing, projection, scan, expression_from, with_projection, source, build_statement,
  evaluate_row, execute, label, projected, next, run_statement,
}

-- All values, or what the first is that is none.
abbrev pub all_values : {A : Type 0} → List (Outcome A) → Outcome (List A)
all_values [] = returned []
all_values (failed e ∷ outcomes) = failed e
all_values (panicked ∷ outcomes) = panicked
all_values (returned v ∷ outcomes) = and_then (all_values outcomes) λ vs. returned (v ∷ vs)

module _ {Kv F : Type 0} (backend : Backend Kv F) where
  -- The iterator yields these items and then ends.
  abbrev pub Yields : Node F → List (Outcome (Row F)) → Type 0
  Yields n [] = (next backend n).0 ≡ none
  Yields n (item ∷ items) = ((next backend n).0 ≡ some item) × Yields (next backend n).1 items

  -- A row that a select clause makes of a row of its source: the values of the expressions, which do
  -- not look at it, but an error comes through.
  abbrev pub select_row : List (Expression F) → Outcome (Row F) → Outcome (Row F)
  select_row expressions (returned _) = all_values (map (evaluate backend.number) expressions)
  select_row expressions (failed e) = failed e
  select_row expressions panicked = panicked

  evaluate_row-all_values :
      (expressions : List (Expression F))
      → evaluate_row backend expressions ≡ all_values (map (evaluate backend.number) expressions)
  unfolding evaluate_row
  evaluate_row-all_values [] = refl
  evaluate_row-all_values (e ∷ expressions) =
      rw (evaluate_row-all_values expressions)
        (collected (evaluate backend.number e) (map (evaluate backend.number) expressions))
    where
      collected :
          (v : Outcome (Value F)) (rest : List (Outcome (Value F)))
          → and_then v (λ v. and_then (all_values rest) λ row. returned (v ∷ row))
            ≡ all_values (v ∷ rest)
      collected (returned v) rest = refl
      collected (failed e) rest = refl
      collected panicked rest = refl

  scan-Yields :
      (table : String) (rows : List (Result (Row F)))
      → Yields (scan table (some rows)) (map of_result rows)
  unfolding next
  scan-Yields table [] = refl
  scan-Yields table (row ∷ rows) = (refl, scan-Yields table rows)

  nothing-Yields : Yields (nothing false) (returned [] ∷ [])
  unfolding next
  nothing-Yields = (refl, refl)

  projected-some :
      (expressions : List (Expression F)) (item : Outcome (Row F))
      → projected backend expressions (some item) ≡ some (select_row expressions item)
  unfolding projected
  projected-some expressions (returned row) = ap some (evaluate_row-all_values expressions)
  projected-some expressions (failed e) = refl
  projected-some expressions panicked = refl

  projection-Yields :
      (n : Node F) (labels : List String) (expressions : List (Expression F))
      (items : List (Outcome (Row F)))
      → Yields n items
      → Yields (projection n labels expressions) (map (select_row expressions) items)
  unfolding next projected
  projection-Yields n labels expressions [] h = ap (projected backend expressions) h
  projection-Yields n labels expressions (item ∷ items) (h, rest) = (
    ap (projected backend expressions) h ∙ projected-some expressions item,
    projection-Yields (next backend n).1 labels expressions items rest,
  )

  -- What a select clause makes of the rows of its source.
  abbrev pub selected : List (Ast.Expression F) → List (Outcome (Row F)) → List (Outcome (Row F))
  selected [] items = items
  selected (e ∷ expressions) items = map (select_row (map expression_from (e ∷ expressions))) items

  -- The execution of a statement leaves the storage as it is, and yields these rows.
  abbrev pub Answers : Statement F → Kv → List (Outcome (Row F)) → Type 0
  Answers statement s items =
      (n : Node F) × (run_statement backend statement s ≡ (returned n, s)) × Yields n items

  pub select_from-Answers :
      (expressions : List (Ast.Expression F)) (labels : List (Option String)) (table : String)
      (more : List String) (s : Kv)
      → Answers
          (Statement.select
            (record { expressions = expressions; labels = labels })
            (some (record { tables = table ∷ more })))
          s
          (selected expressions (map of_result (scan_rows backend table s)))
  unfolding run_statement build_statement execute source with_projection
  select_from-Answers [] labels table more s =
      let rows = scan_rows backend table s in (scan table (some rows), refl, scan-Yields table rows)
  select_from-Answers (e ∷ expressions) labels table more s =
      let rows = scan_rows backend table s in
      let columns = map expression_from (e ∷ expressions) in
      (
        projection (scan table (some rows)) (map label labels) columns,
        refl,
        projection-Yields (scan table (some rows)) (map label labels) columns (map of_result rows)
            (scan-Yields table rows),
      )

  -- A select of expressions without a table changes nothing and yields one row, their values, or the
  -- error of the first that fails.
  pub select-Answers :
      (e : Ast.Expression F) (expressions : List (Ast.Expression F)) (labels : List (Option String))
      (s : Kv)
      → Answers
          (Statement.select (record { expressions = e ∷ expressions; labels = labels }) none)
          s
          (select_row (map expression_from (e ∷ expressions)) (returned []) ∷ [])
  unfolding run_statement build_statement execute source with_projection
  select-Answers e expressions labels s =
      let columns = map expression_from (e ∷ expressions) in
      (
        projection (nothing false) (map label labels) columns,
        refl,
        projection-Yields (nothing false) (map label labels) columns (returned [] ∷ [])
            nothing-Yields,
      )
