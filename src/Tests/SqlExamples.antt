-- ===== src/Tests/SqlExamples.antt =====
-- The theorems of the parser, of expressions, of the storage and of plans, at concrete inputs.
use mynode.Base.{
  ℕ, suc, String, ◌≡◌, ◌≢◌, ◌↔◌, ◌⊎◌, refl, ap, true, false, none, some, List, [], ◌∷◌, map, arith,
  if◌then◌else◌, str_eq, ltb, leb, ◌==◌,
}
use mathlib.Core.List.{Mem}
use mynode.Base.Int.{pos, negsuc}
use mynode.Base.Text.{size, format, to_string}
use mynode.Base.Result.{ok, err, value}
use mynode.Base.Outcome.{returned, panicked}
use mynode.Store.KvMemory.{KvMemory, kv_memory, kv_memory-IsLawful, map_get}
use mynode.Sql.Ast.{ColumnSpec, DataType, Statement, literal, operation, Operation}
use mynode.Sql.Ast as Ast
use mynode.Sql.Operators.{infix_operator}
use mynode.Sql.Lexer as Lexer
use mynode.Sql.Parser.{next_if_operator, peek, parse_expression_atom, next}
use mynode.Sql.Errors.{Within}
use mynode.Sql.Grammar.{expression, parse_expression}
use mynode.Sql.Grammar.Ordered.{Ordered}
use mynode.Sql.Grammar.Precedence.{expression-Ordered}
use mynode.Sql.Statements.{parse}
use mynode.Sql.Statements.Fuel.{parse-Within}
use mynode.Sql.Value.{Float, Value, Row, display}
use mynode.Sql.Eval.{Expression, constant, evaluate, modulo_i64}
use mynode.Sql.Eval.Types.{type_of, Agrees, evaluate-Agrees}
use mynode.Sql.Eval.Panics.{can_panic, evaluate-panicked}
use mynode.Sql.Eval.Modulo.{euclid, modulo_i64-euclid}
use mynode.Sql.Schema.{Table, position, get_primary_key_index}
use mynode.Sql.Storage.{
  Backend, table_exists, get_table, found, create_table, create_row, scan_rows, key_value,
  key_table, some_key,
}
use mynode.Sql.Storage.Tables.{create_table-get_table}
use mynode.Sql.Storage.Keys.{has_period, starts_with_max}
use mynode.Sql.Storage.Isolation.{memory, create_row-scan_rows}
use mynode.Sql.Plan.{build_schema_table}
use mynode.Sql.Plan.Tables.{IsOnlyKey, declared, build_schema_table_lem, create_row-panicked}
use mynode.Sql.Plan.Rows.{create_row-Mem}
use mynode.Sql.Plan.Select.{select_from-Answers}
use mynode.Tests.OtherExamples.{reader}
use mynode.Serializer.{Codec}
use mynode.Handlers.Store.{query}
use mynode.Client.Reads.{told, Reads, query-Reads, statement-Executes}
use mynode.Tests.Wire.{table_codec, row_codec, table-IsFaithful, row-IsFaithful}

parse-Within_example : Within (suc (size "SELECT 1 + 2")) (parse reader "SELECT 1 + 2")
parse-Within_example = parse-Within reader "SELECT 1 + 2"

abbrev number_literal : ℕ → Ast.Expression ℕ
number_literal n = literal (Ast.Literal.integer (pos n))

abbrev tree : Ast.Expression ℕ
tree = operation (
    Operation.add (number_literal 1)
      (operation (Operation.multiply (number_literal 2) (number_literal 3))))

parsed : expression reader "1+2*3" ≡ (ok tree, "")
unfolding expression parse_expression next_if_operator peek Lexer.next Lexer.scan
    Lexer.consume_whitespace Lexer.scan_number parse_expression_atom next Lexer.scan_symbol
parsed = refl

expression-Ordered_example :
    Ordered tree 0 × ((next_if_operator reader infix_operator 0 "").0 ≡ none)
expression-Ordered_example = expression-Ordered reader "1+2*3" "" tree parsed

-- Whole numbers stand for floating point numbers.
abbrev number : Float ℕ
number = record {
  overflow_checks = false;
  of_integer = λ i. elim i [ pos n ↦ n | negsuc n ↦ 0 ];
  as_i32 = pos;
  eq = ◌==◌;
  lt = ltb;
  le = leb;
  add = λ a b. a;
  sub = λ a b. a;
  mul = λ a b. a;
  div = λ a b. a;
  rem = λ a b. a;
  neg = λ a. a;
  powi = λ a i. a;
  powf = λ a b. a;
  to_string = λ a. "";
}

abbrev one_plus_two : Expression ℕ
one_plus_two = Expression.add (constant (Value.integer (pos 1))) (constant (Value.integer (pos 2)))

evaluate-Agrees_example : Agrees (type_of one_plus_two) (evaluate number one_plus_two)
evaluate-Agrees_example = evaluate-Agrees number one_plus_two

one_plus_two-can_panic : can_panic false one_plus_two ≡ false
unfolding can_panic
one_plus_two-can_panic = refl

evaluate-panicked_example : evaluate number one_plus_two ≢ panicked
evaluate-panicked_example = evaluate-panicked number one_plus_two one_plus_two-can_panic

modulo_i64-euclid_example :
    modulo_i64 true (negsuc 6) (pos 3) ≡ returned (pos (euclid (negsuc 6) 3))
modulo_i64-euclid_example = modulo_i64-euclid true (negsuc 6) 3 (omega arith) (omega arith)

abbrev id_column : ColumnSpec
id_column = record { name = "id"; datatype = DataType.integer; primary_key = true; nullable = none }

abbrev users : Table
users = record {
  name = "users";
  columns = record { name = "id"; datatype = DataType.integer; nullable = false } ∷ [];
  primary_key = "id";
}

abbrev backend : Backend KvMemory ℕ
backend = memory table_codec row_codec number

abbrev empty : KvMemory
empty = record { pairs = [] }

create_table-get_table_example :
    ((table_exists backend "users" empty ≡ ok true)
      × (create_table backend users empty
          ≡ (err (value (format ("Table " ∷ "users" ∷ " already exists" ∷ []))), empty)))
    ⊎ ((table_exists backend "users" empty ≡ ok false)
        × ((create_table backend users empty).0 ≡ ok tt)
        × ((name : String)
            → get_table backend name (create_table backend users empty).1
              ≡ (if str_eq "users" name then ok users else get_table backend name empty)))
create_table-get_table_example =
    create_table-get_table backend kv_memory-IsLawful table-IsFaithful users empty

abbrev row : Row ℕ
row = Value.integer (pos 1) ∷ []

users_no_period : has_period "users" ≡ false
unfolding has_period
users_no_period = refl

orders_no_period : has_period "orders" ≡ false
unfolding has_period
orders_no_period = refl

abbrev orders : String
orders = "orders"

different : orders ≢ "users"
different h = let same : false ≡ true = ap (λ s. str_eq s "users") h in cc

create_row-scan_rows_example :
    scan_rows backend "orders" (create_row backend "users" row empty).1
    ≡ scan_rows backend "orders" empty
create_row-scan_rows_example =
    create_row-scan_rows table_codec row_codec number "orders" "users" row empty orders_no_period
      users_no_period different

-- A store that has the table.
abbrev with_users : KvMemory
with_users = record { pairs = ("schema.table.users", table-IsFaithful.bytes users) ∷ [] }

users_found : get_table backend "users" with_users ≡ ok users
unfolding get_table found key_table kv_memory map_get
users_found = table-IsFaithful.deserialize_lem users

users_key : key_value backend users row ≡ returned (Value.integer (pos 1))
unfolding key_value get_primary_key_index position some_key
users_key = refl

one_displayed : starts_with_max (display number (Value.integer (pos 1))) ≡ false
unfolding starts_with_max display to_string
one_displayed = refl

create_row-Mem_example :
    ((create_row backend "users" row with_users).0 ≡ returned tt)
    × Mem (ok row) (scan_rows backend "users" (create_row backend "users" row with_users).1)
create_row-Mem_example =
    create_row-Mem table_codec row_codec number row-IsFaithful "users" row with_users users
      (Value.integer (pos 1)) users_found users_key one_displayed

build_schema_table_lem_example : (build_schema_table "users" (id_column ∷ []) ≡ ok users) ↔ (
    (key : ColumnSpec) × IsOnlyKey key (id_column ∷ [])
    × (key.nullable ≢ some true)
    × (users ≡ record {
      name = "users";
      columns = map declared (id_column ∷ []);
      primary_key = key.name;
    }))
build_schema_table_lem_example = build_schema_table_lem "users" (id_column ∷ []) users

users_built : build_schema_table "users" (id_column ∷ []) ≡ ok users
unfolding build_schema_table
users_built = refl

create_row-panicked_example : (create_row backend "users" row with_users).0 ≢ panicked
create_row-panicked_example =
    create_row-panicked backend "users" (id_column ∷ []) users "users" row with_users users_built
      users_found

-- A query of all columns, of a store that has a row.
abbrev with_row : KvMemory
with_row = (create_row backend "users" row with_users).1

abbrev all_users : Statement ℕ
all_users =
    Statement.select (record { expressions = []; labels = [] })
      (some (record { tables = "users" ∷ [] }))

all_users_parsed : (parse reader "SELECT * FROM users").0 ≡ ok all_users
unfolding parse mynode.Sql.Statements.parse_statement peek Lexer.next Lexer.scan
    Lexer.consume_whitespace Lexer.scan_ident mynode.Sql.Token.from_str
    mynode.Sql.Statements.parse_statement_select mynode.Sql.Statements.parse_clause_select
    mynode.Sql.Parser.next_if_token mynode.Sql.Parser.next_if next
    mynode.Sql.Statements.select_items Lexer.scan_symbol mynode.Sql.Parser.parse_clause_from
    mynode.Sql.Parser.next_ident mynode.Sql.Parser.next_expect
all_users_parsed = refl

abbrev columns : Codec (List String)
columns = record { serialize = λ names. ok []; deserialize = λ bytes. ok [] }

query-Reads_example :
    Reads reader backend columns none
      (query reader backend "SELECT * FROM users" with_row).0
      (map told (scan_rows backend "users" with_row))
query-Reads_example =
    query-Reads reader backend columns none "SELECT * FROM users" with_row
      (scan_rows backend "users" with_row)
      (statement-Executes reader backend "SELECT * FROM users" all_users with_row
        (scan_rows backend "users" with_row) all_users_parsed
        (select_from-Answers backend [] [] "users" [] with_row))
