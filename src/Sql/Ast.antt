-- ===== src/Sql/Ast.antt =====
-- sql/parser/ast.rs: what the parser makes of a query, and the data types of sql/types.rs.
use mynode.Base.{String, Bool, Option, List}
use mynode.Base.Int.{ℤ}

-- sql/types.rs: `DataType`.
pub data DataType : Type 0 where
  boolean integer float text : DataType

-- Floating point numbers are the parameter `F`.
pub data Literal (F : Type 0) : Type 0 where
  null : Literal F
  boolean : Bool → Literal F
  integer : ℤ → Literal F
  float : F → Literal F
  text : String → Literal F

mutual
  pub data Expression (F : Type 0) : Type 0 where
    literal : Literal F → Expression F
    operation : Operation F → Expression F

  pub data Operation (F : Type 0) : Type 0 where
    and or : Expression F → Expression F → Operation F
    not : Expression F → Operation F
    compare_eq compare_gt compare_gte compare_lt compare_lte compare_ne :
        Expression F → Expression F → Operation F
    add divide exponentiate modulo multiply subtract : Expression F → Expression F → Operation F
    factorial negate : Expression F → Operation F

pub record ColumnSpec : Type 0 where
  pub name : String
  pub datatype : DataType
  pub primary_key : Bool
  pub nullable : Option Bool

pub record SelectClause (F : Type 0) : Type 0 where
  pub expressions : List (Expression F)
  pub labels : List (Option String)

pub record FromClause : Type 0 where
  pub tables : List String

pub data Statement (F : Type 0) : Type 0 where
  create_table : String → List ColumnSpec → Statement F
  insert : String → Option (List String) → List (List (Expression F)) → Statement F
  drop_table : String → Statement F
  select : SelectClause F → Option FromClause → Statement F
