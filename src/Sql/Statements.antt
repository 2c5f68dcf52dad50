-- ===== src/Sql/Statements.antt =====
-- sql/parser/mod.rs: statements and clauses. A loop has as much fuel as there are characters left,
-- and one more: every round takes a token.
pub mod Reads
pub mod Tables
pub mod Fuel
use mynode.Base.{
  ℕ, zero, suc, ◌+◌, ◌&&◌, map, String, Bool, true, false, Option, none, some, List, [], ◌∷◌,
  if◌then◌else◌,
}
use mynode.Base.Text.{format, size}
use mynode.Base.Result.{
  Result, ok, err, parse as parse_error, value, internal, Exec, continue, ◌>>=◌, ◌>>◌, pure, raise,
  reads,
}
use mynode.Sql.Token.{
  Token, Keyword, keyword, ident, asterisk, comma, open_paren, close_paren, display, to_str,
  as_word, boolean_word, create_word, drop_word, float_word, insert_word, integer_word, into_word,
  key_word, not_word, null_word, primary_word, select_word, table_word, values_word, varchar_word,
}
use mynode.Sql.Ast.{Expression, ColumnSpec, DataType, SelectClause, FromClause, Statement}
use mynode.Sql.Parser.{
  Reader, peek, next, next_expect, next_ident, next_if_keyword, next_if_token, parse_ddl_drop_table,
  parse_clause_from,
}
use mynode.Sql.Grammar.{unexpected, out_of_fuel, try, expression}

abbrev pub is_some : {A : Type 0} → Option A → Bool
is_some none = false
is_some (some _) = true

abbrev pub keyword_of : Option Token → Option Keyword
keyword_of (some (keyword k)) = some k
keyword_of _ = none

unfoldable pub as_datatype : Token → Exec String DataType
as_datatype (keyword boolean_word) = pure DataType.boolean
as_datatype (keyword integer_word) = pure DataType.integer
as_datatype (keyword float_word) = pure DataType.float
as_datatype (keyword varchar_word) = pure DataType.text
as_datatype token = unexpected token

unfoldable pub both_nullable : {A : Type 0} → ColumnSpec → Exec String A
both_nullable column =
    raise
      (value (format ("Column " ∷ column.name ∷ " can't be both not nullable and nullable" ∷ [])))

abbrev pub is_nullable : Option Bool → Bool
is_nullable (some b) = b
is_nullable none = false

abbrev pub is_not_nullable : Option Bool → Bool
is_not_nullable (some true) = false
is_not_nullable (some false) = true
is_not_nullable none = false

module _ {F : Type 0} (reader : Reader F) where
  -- `self.next_expect(Some(token))?`, whose result is not looked at.
  unfoldable pub expect : Token → Exec String (Unit {0})
  expect token = next_expect reader (some token) >>= λ _. pure tt

  -- One keyword after the data type of a column.
  unfoldable pub column_keyword : Keyword → ColumnSpec → Exec String ColumnSpec
  unfolding both_nullable
  column_keyword primary_word column =
      expect (keyword key_word) >> pure (record column { primary_key = true })
  column_keyword null_word column =
      if is_not_nullable column.nullable
      then both_nullable column
      else pure (record column { nullable = some true })
  column_keyword not_word column =
      expect (keyword null_word)
      >> (if is_nullable column.nullable
          then both_nullable column
          else pure (record column { nullable = some false }))
  column_keyword k column = raise (parse_error (format ("Unexpected keyword " ∷ to_str k ∷ [])))

  unfoldable pub column_keywords : ℕ → ColumnSpec → Exec String ColumnSpec
  column_keywords zero column s = out_of_fuel s
  column_keywords (suc g) column s =
      let r = next_if_keyword reader s in
      elim (keyword_of r.0) [
        | none ↦ (ok column, r.1)
        | some k ↦ (column_keyword k column >>= column_keywords g) r.1
      ]

  unfoldable pub parse_ddl_columnspec : Exec String ColumnSpec
  parse_ddl_columnspec = do
    name ← next_ident reader
    datatype ← next reader >>= as_datatype
    λ s.
        column_keywords (suc (size s))
          (record { name = name; datatype = datatype; primary_key = false; nullable = none }) s

  -- One column after the other, as long as a comma follows.
  unfoldable pub columnspecs : ℕ → Exec String (List ColumnSpec)
  columnspecs zero = out_of_fuel
  columnspecs (suc g) = do
    column ← parse_ddl_columnspec
    more ← try (next_if_token reader comma)
    if is_some more
        then (columnspecs g >>= λ columns. pure (column ∷ columns))
        else pure (column ∷ [])

  unfoldable pub parse_ddl_create_table : Exec String (Statement F)
  parse_ddl_create_table = do
    name ← next_ident reader
    expect open_paren
    columns ← (λ s. columnspecs (suc (size s)) s)
    expect close_paren
    pure (Statement.create_table name columns)

  unfoldable pub ddl_create : Token → Exec String (Statement F)
  ddl_create (keyword table_word) = parse_ddl_create_table
  ddl_create token = unexpected token

  unfoldable pub ddl_drop : Token → Exec String (Statement F)
  ddl_drop (keyword table_word) = parse_ddl_drop_table reader
  ddl_drop token = unexpected token

  unfoldable pub ddl : Token → Exec String (Statement F)
  unfolding ddl_create ddl_drop
  ddl (keyword create_word) = next reader >>= ddl_create
  ddl (keyword drop_word) = next reader >>= ddl_drop
  ddl token = unexpected token

  unfoldable pub parse_ddl : Exec String (Statement F)
  unfolding ddl
  parse_ddl = next reader >>= ddl

  -- After an item of a list in parentheses: a comma and more items, or the end.
  unfoldable pub list_rest : {A : Type 0} → Exec String (List A) → Token → Exec String (List A)
  list_rest more close_paren = pure []
  list_rest more comma = more
  list_rest more token = unexpected token

  unfoldable pub list_loop : {A : Type 0} → Exec String A → ℕ → Exec String (List A)
  unfolding list_rest
  list_loop item zero = out_of_fuel
  list_loop item (suc g) = do
    x ← item
    xs ← next reader >>= list_rest (list_loop item g)
    pure (x ∷ xs)

  -- The column names of an insert, after the opening parenthesis.
  unfoldable pub insert_columns : Option Token → Exec String (Option (List String))
  insert_columns none = pure none
  insert_columns (some _) = do
    columns ← (λ s. list_loop (next_ident reader) (suc (size s)) s)
    pure (some columns)

  -- The values of a row in parentheses.
  unfoldable pub value_row : Exec String (List (Expression F))
  value_row = expect open_paren >> (λ s. list_loop (expression reader) (suc (size s)) s)

  unfoldable pub value_rows : ℕ → Exec String (List (List (Expression F)))
  unfolding value_row
  value_rows zero = out_of_fuel
  value_rows (suc g) = do
    row ← value_row
    more ← try (next_if_token reader comma)
    if is_some more then (value_rows g >>= λ rows. pure (row ∷ rows)) else pure (row ∷ [])

  unfoldable pub parse_statement_insert : Exec String (Statement F)
  unfolding insert_columns
  parse_statement_insert = do
    expect (keyword insert_word)
    expect (keyword into_word)
    table ← next_ident reader
    paren ← try (next_if_token reader open_paren)
    columns ← insert_columns paren
    expect (keyword values_word)
    rows ← (λ s. value_rows (suc (size s)) s)
    pure (Statement.insert table columns rows)

  -- The label of an expression, after a look at the next token.
  unfoldable pub label : Option Token → Exec String (Option String)
  label (some (keyword as_word)) =
      next reader >>= λ _. next_ident reader >>= λ name. pure (some name)
  label (some (ident _)) = next_ident reader >>= λ name. pure (some name)
  label _ = pure none

  -- An expression of a select clause, with its label.
  unfoldable pub select_item : Exec String (Expression F × Option String)
  unfolding label
  select_item = do
    e ← expression reader
    token ← reads (peek reader)
    name ← label token
    pure (e, name)

  -- An asterisk ends the clause where it comes first; later ones are taken and not looked at.
  unfoldable pub select_items : ℕ → Bool → Exec String (List (Expression F × Option String))
  unfolding select_item
  select_items zero first = out_of_fuel
  select_items (suc g) first = do
    star ← try (next_if_token reader asterisk)
    (if is_some star && first then pure [] else do
      item ← select_item
      more ← try (next_if_token reader comma)
      if is_some more
          then (select_items g false >>= λ items. pure (item ∷ items))
          else pure (item ∷ []))

  unfoldable pub select_clause : Option Token → Exec String (Option (SelectClause F))
  select_clause none = pure none
  select_clause (some _) = do
    items ← (λ s. select_items (suc (size s)) true s)
    pure (some (record { expressions = map (λ i. i.0) items; labels = map (λ i. i.1) items }))

  unfoldable pub parse_clause_select : Exec String (Option (SelectClause F))
  unfolding select_clause
  parse_clause_select = try (next_if_token reader (keyword select_word)) >>= select_clause

  -- `unwrap` on the clause would panic where there is none; it is an error here.
  unfoldable pub select_from : Option (SelectClause F) → Exec String (Statement F)
  select_from none = raise (internal "called `Option::unwrap()` on a `None` value")
  select_from (some select) =
      parse_clause_from reader >>= λ from. pure (Statement.select select from)

  unfoldable pub parse_statement_select : Exec String (Statement F)
  unfolding select_from
  parse_statement_select = parse_clause_select >>= select_from

  unfoldable pub statement_at : Option Token → Exec String (Statement F)
  statement_at (some (keyword create_word)) = parse_ddl
  statement_at (some (keyword drop_word)) = parse_ddl
  statement_at (some (keyword insert_word)) = parse_statement_insert
  statement_at (some (keyword select_word)) = parse_statement_select
  statement_at (some token) = unexpected token
  statement_at none = raise (parse_error "Unexpected end of input")

  unfoldable pub parse_statement : Exec String (Statement F)
  unfolding statement_at
  parse_statement = reads (peek reader) >>= statement_at

  -- `Parser::parse`: a statement, and nothing after it.
  unfoldable pub parse : Exec String (Statement F)
  parse = do statement ← parse_statement; end ← next_expect reader none; pure statement
