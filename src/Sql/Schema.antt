-- ===== src/Sql/Schema.antt =====
-- sql/schema.rs: tables, their columns, and the query that creates a table.
use Prim.Native.String.{◌++◌}
use mynode.Base.{
  ℕ, suc, String, Bool, Option, none, some, List, [], ◌∷◌, if◌then◌else◌, str_eq, map,
}
use mynode.Base.Text.{format}
use mynode.Base.Outcome.{Outcome, or_panic}
use mynode.Sql.Ast.{DataType}

pub record Column : Type 0 where
  pub name : String
  pub datatype : DataType
  pub nullable : Bool

pub record Table : Type 0 where
  pub name : String
  pub columns : List Column
  pub primary_key : String

abbrev after : Option ℕ → Option ℕ
after (some i) = some (suc i)
after none = none

-- `Iterator::position`, by name.
unfoldable pub position : String → List Column → Option ℕ
position name [] = none
position name (c ∷ columns) =
    let rest = position name columns in if str_eq c.name name then some 0 else after rest

-- `unwrap` panics where no column has the name of the primary key.
unfoldable pub get_primary_key_index : Table → Outcome ℕ
unfolding position
get_primary_key_index table = or_panic (position table.primary_key table.columns)

type_name : DataType → String
type_name DataType.boolean = "BOOLEAN"
type_name DataType.float = "FLOAT"
type_name DataType.integer = "INTEGER"
type_name DataType.text = "VARCHAR"

-- A column's line of the query.
column_query : Table → Column → String
unfolding type_name
column_query table column = format (
    "  "
    ∷ column.name
    ∷ " "
    ∷ type_name column.datatype
    ∷ (if str_eq table.primary_key column.name then " PRIMARY KEY" else "")
    ∷ (if column.nullable then " NULL" else " NOT NULL")
    ∷ ",\n"
    ∷ [])

unfoldable pub to_query : Table → String
unfolding column_query
to_query table =
    format ("CREATE TABLE " ∷ table.name ∷ " (\n" ∷ [])
    ++ (format (map (column_query table) table.columns) ++ ")")
