-- ===== src/Sql/Grammar.antt =====
-- sql/parser/mod.rs: expressions, by precedence climbing. A loop has as much fuel as there are
-- characters left, and one more: every round takes a token.
pub mod Fuel
pub mod Ordered
pub mod Precedence
use mynode.Base.{
  ℕ, zero, suc, ◌+◌, String, Bool, true, false, Option, none, some, List, [], ◌∷◌, if◌then◌else◌,
}
use mynode.Base.Text.{format, size}
use mynode.Base.Result.{
  Result, ok, err, parse as parse_error, value, internal, Exec, continue, ◌>>=◌, ◌>>◌, pure, raise,
  reads,
}
use mynode.Sql.Token.{
  Token, Keyword, keyword, ident, asterisk, comma, open_paren, close_paren, display, to_str,
  as_word, boolean_word, create_word, drop_word, float_word, insert_word, integer_word, into_word,
  key_word, not_word, null_word, primary_word, select_word, table_word, values_word, varchar_word,
}
use mynode.Sql.Ast.{Expression, ColumnSpec, DataType, SelectClause, FromClause, Statement}
use mynode.Sql.Operators.{
  PrefixOperator, InfixOperator, PostfixOperator, Operator, prefix_operator, infix_operator,
  postfix_operator, build_prefix, build_infix, build_postfix,
}
use mynode.Sql.Parser.{
  Reader, peek, next, next_expect, next_ident, next_if_keyword, next_if_token, next_if_operator,
  parse_ddl_drop_table, parse_clause_from, parse_expression_atom,
}

abbrev pub unexpected : {A : Type 0} → Token → Exec String A
unexpected token = raise (parse_error (format ("Unexpected token " ∷ display token ∷ [])))

abbrev pub out_of_fuel : {A : Type 0} → Exec String A
out_of_fuel = raise (internal "out of fuel")

-- A method that returns an option, in the monad of those that return a result.
abbrev pub try : {A : Type 0} → (String → Option A × String) → Exec String (Option A)
try m s = (ok (m s).0, (m s).1)

module _ {F : Type 0} (reader : Reader F) where
  unfoldable pub postfix_loop : ℕ → ℕ → Expression F → Exec String (Expression F)
  postfix_loop zero min_prec lhs s = out_of_fuel s
  postfix_loop (suc g) min_prec lhs s =
      let r = next_if_operator reader postfix_operator min_prec s in
      elim r.0 [
        | none ↦ (ok lhs, r.1)
        | some op ↦ postfix_loop g min_prec (build_postfix op lhs) r.1
      ]

  -- `rhs` parses an expression of at least some precedence.
  unfoldable pub infix_loop :
      (ℕ → Exec String (Expression F)) → ℕ → ℕ → Expression F → Exec String (Expression F)
  infix_loop rhs zero min_prec lhs s = out_of_fuel s
  infix_loop rhs (suc g) min_prec lhs s =
      let r = next_if_operator reader infix_operator min_prec s in
      elim r.0 [
        | none ↦ (ok lhs, r.1)
        | some op ↦
            (rhs (infix_operator.prec op + infix_operator.assoc op) >>= λ e.
            infix_loop rhs g min_prec (build_infix op lhs e))
              r.1
      ]

  -- The left-hand side, with a prefix operator or without.
  unfoldable pub operand :
      (ℕ → Exec String (Expression F)) → Option PrefixOperator → Exec String (Expression F)
  operand rhs none = parse_expression_atom reader
  operand rhs (some op) =
      rhs (prefix_operator.prec op + prefix_operator.assoc op) >>= λ e. pure (build_prefix op e)

  unfoldable pub parse_expression : ℕ → ℕ → Exec String (Expression F)
  unfolding postfix_loop infix_loop operand
  parse_expression zero min_prec = out_of_fuel
  parse_expression (suc f) min_prec =
      try (next_if_operator reader prefix_operator min_prec)
      >>= operand (parse_expression f)
      >>= (λ lhs s. postfix_loop (suc (size s)) min_prec lhs s)
      >>= (λ lhs s. infix_loop (parse_expression f) (suc (size s)) min_prec lhs s)

  -- `self.parse_expression(0)`.
  unfoldable pub expression : Exec String (Expression F)
  expression s = parse_expression (suc (size s)) 0 s
