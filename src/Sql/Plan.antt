-- ===== src/Sql/Plan.antt =====
-- sql/plan: the planner (mod.rs), and the nodes of a plan, each with what `execute` does to the storage
-- and what the iterator yields.
pub mod Tables
pub mod Select
pub mod Rows
use mynode.Base.{
  ℕ, String, Bool, true, false, Option, none, some, List, [], ◌∷◌, map, length, not as negation,
  if◌then◌else◌,
}
use mynode.Base.Text.{format, to_string}
use mynode.Base.Result.{Result, ok, err, value, and_then as and_then_result}
use mynode.Base.Outcome.{
  Outcome, returned, failed, panicked, of_result, and_then, Run, continue, ◌>>=◌, pure, lift, run,
}
use mynode.Sql.Ast.{
  ColumnSpec, Literal, literal, operation, Operation, SelectClause, FromClause, Statement,
}
use mynode.Sql.Ast as Ast
use mynode.Sql.Value.{Value, Row}
use mynode.Sql.Eval.{Expression, constant, evaluate}
use mynode.Sql.Schema.{Column, Table}
use mynode.Sql.Storage.{Backend, scan_rows, create_row}
use mynode.Sql.Storage as Storage

module _ {F : Type 0} where
  unfoldable pub value_from : Literal F → Value F
  value_from Literal.null = Value.null
  value_from (Literal.boolean b) = Value.boolean b
  value_from (Literal.float f) = Value.float f
  value_from (Literal.integer i) = Value.integer i
  value_from (Literal.text s) = Value.text s

  unfoldable pub expression_from : Ast.Expression F → Expression F
  unfolding value_from
  expression_from (literal l) = constant (value_from l)
  expression_from (operation (Operation.and lhs rhs)) =
      Expression.and (expression_from lhs) (expression_from rhs)
  expression_from (operation (Operation.not e)) = Expression.not (expression_from e)
  expression_from (operation (Operation.or lhs rhs)) =
      Expression.or (expression_from lhs) (expression_from rhs)
  expression_from (operation (Operation.compare_eq lhs rhs)) =
      Expression.compare_eq (expression_from lhs) (expression_from rhs)
  expression_from (operation (Operation.compare_gt lhs rhs)) =
      Expression.compare_gt (expression_from lhs) (expression_from rhs)
  expression_from (operation (Operation.compare_gte lhs rhs)) =
      Expression.compare_gte (expression_from lhs) (expression_from rhs)
  expression_from (operation (Operation.compare_lt lhs rhs)) =
      Expression.compare_lt (expression_from lhs) (expression_from rhs)
  expression_from (operation (Operation.compare_lte lhs rhs)) =
      Expression.compare_lte (expression_from lhs) (expression_from rhs)
  expression_from (operation (Operation.compare_ne lhs rhs)) =
      Expression.compare_ne (expression_from lhs) (expression_from rhs)
  expression_from (operation (Operation.add lhs rhs)) =
      Expression.add (expression_from lhs) (expression_from rhs)
  expression_from (operation (Operation.divide lhs rhs)) =
      Expression.divide (expression_from lhs) (expression_from rhs)
  expression_from (operation (Operation.exponentiate lhs rhs)) =
      Expression.exponentiate (expression_from lhs) (expression_from rhs)
  expression_from (operation (Operation.factorial e)) = Expression.factorial (expression_from e)
  expression_from (operation (Operation.modulo lhs rhs)) =
      Expression.modulo (expression_from lhs) (expression_from rhs)
  expression_from (operation (Operation.multiply lhs rhs)) =
      Expression.multiply (expression_from lhs) (expression_from rhs)
  expression_from (operation (Operation.negate e)) = Expression.negate (expression_from e)
  expression_from (operation (Operation.subtract lhs rhs)) =
      Expression.subtract (expression_from lhs) (expression_from rhs)

-- The columns that are declared as primary key.
unfoldable pub primary_keys : List ColumnSpec → List ColumnSpec
primary_keys [] = []
primary_keys (c ∷ columns) =
    let rest = primary_keys columns in if c.primary_key then c ∷ rest else rest

abbrev unwrap_or : Bool → Option Bool → Bool
unwrap_or b none = b
unwrap_or _ (some b) = b

unfoldable pub column_from : ColumnSpec → Column
column_from spec = record {
  name = spec.name;
  datatype = spec.datatype;
  nullable = unwrap_or (negation spec.primary_key) spec.nullable;
}

abbrev pub is_nullable : ColumnSpec → Bool
is_nullable c = unwrap_or false c.nullable

unfoldable pub table_with_key : String → List ColumnSpec → List ColumnSpec → Result Table
unfolding column_from
table_with_key name columnspecs [] =
    err (value (format ("No primary key defined for table " ∷ name ∷ [])))
table_with_key name columnspecs (primary_key ∷ []) =
    if is_nullable primary_key
    then err (value "Primary key cannot be nullable")
    else ok (record {
      name = name;
      primary_key = primary_key.name;
      columns = map column_from columnspecs;
    })
table_with_key name columnspecs keys = err (
    value (
      format (
        to_string (length keys)
        ∷ " primary keys defined for table "
        ∷ name
        ∷ ", must set exactly 1"
        ∷ [])))

unfoldable pub build_schema_table : String → List ColumnSpec → Result Table
unfolding table_with_key primary_keys
build_schema_table name columnspecs = table_with_key name columnspecs (primary_keys columnspecs)

-- `Box<dyn Node>`. The range of a scan is what its iterator has left.
pub data Node (F : Type 0) : Type 0 where
  create_table : Table → Node F
  drop_table : String → Node F
  insert : String → List (List (Expression F)) → Node F
  nothing : Bool → Node F
  projection : Node F → List String → List (Expression F) → Node F
  scan : String → Option (List (Result (Row F))) → Node F

abbrev pub label : Option String → String
label none = "?"
label (some l) = l

module _ {F : Type 0} where
  unfoldable pub with_projection : SelectClause F → Node F → Node F
  unfolding expression_from
  with_projection select n = elim select.expressions [
    | [] ↦ n
    | _ ∷ _ ↦ projection n (map label select.labels) (map expression_from select.expressions)
  ]

  -- `from.tables[0]` panics where there is no table.
  unfoldable pub source : SelectClause F → Option FromClause → Outcome (Node F)
  source select (some from) = elim from.tables [
    | [] ↦ panicked
    | table ∷ _ ↦ returned (scan table none)
  ]
  source select none = elim select.expressions [
    | [] ↦ failed (value "Can't select * without a table")
    | _ ∷ _ ↦ returned (nothing false)
  ]

  unfoldable pub build_statement : Statement F → Outcome (Node F)
  unfolding with_projection source build_schema_table
  build_statement (Statement.create_table name columns) =
      and_then (of_result (build_schema_table name columns)) λ table. returned (create_table table)
  build_statement (Statement.drop_table name) = returned (drop_table name)
  build_statement (Statement.insert table _ values) =
      returned (insert table (map (map expression_from) values))
  build_statement (Statement.select select from) =
      and_then (source select from) λ n. returned (with_projection select n)

module _ {Kv F : Type 0} (backend : Backend Kv F) where
  -- The values of expressions, up to the first that fails.
  unfoldable pub evaluate_row : List (Expression F) → Outcome (Row F)
  evaluate_row [] = returned []
  evaluate_row (e ∷ expressions) =
      let rest = evaluate_row expressions in
      and_then (evaluate backend.number e) λ v. and_then rest λ row. returned (v ∷ row)

  unfoldable pub insert_rows : String → List (List (Expression F)) → Run Kv (Unit {0})
  unfolding evaluate_row
  insert_rows table [] = pure tt
  insert_rows table (expressions ∷ rows) =
      lift (evaluate_row expressions) >>= create_row backend table >>= λ _. insert_rows table rows

  -- `Node::execute`, with the node that it leaves.
  unfoldable pub execute : Node F → Run Kv (Node F)
  unfolding insert_rows
  execute (create_table schema) =
      run (Storage.create_table backend schema) >>= λ _. pure (create_table schema)
  execute (drop_table table) =
      run (Storage.drop_table backend table) >>= λ _. pure (drop_table table)
  execute (insert table expressions) =
      insert_rows table expressions >>= λ _. pure (insert table expressions)
  execute (nothing done) = pure (nothing done)
  execute (projection n labels expressions) =
      execute n >>= λ n. pure (projection n labels expressions)
  execute (scan table range) = λ s. (returned (scan table (some (scan_rows backend table s))), s)

  -- What a projection makes of what its source yields.
  unfoldable pub projected :
      List (Expression F) → Option (Outcome (Row F)) → Option (Outcome (Row F))
  projected expressions none = none
  projected expressions (some (failed e)) = some (failed e)
  projected expressions (some panicked) = some panicked
  projected expressions (some (returned _)) = some (evaluate_row expressions)

  -- `Iterator::next` of a node, with the node that it leaves.
  unfoldable pub next : Node F → Option (Outcome (Row F)) × Node F
  unfolding projected evaluate_row
  next (nothing false) = (some (returned []), nothing true)
  next (projection n labels expressions) =
      let r = next n in (projected expressions r.0, projection r.1 labels expressions)
  next (scan table (some (row ∷ rows))) = (some (of_result row), scan table (some rows))
  next n = (none, n)

  -- `Plan::build` and then `Plan::execute`, on a statement that was parsed.
  unfoldable pub run_statement : Statement F → Run Kv (Node F)
  unfolding execute build_statement
  run_statement statement = lift (build_statement statement) >>= execute
