-- ===== src/Sql/Parser.antt =====
-- sql/parser/mod.rs: `Parser`, as far as it reads single tokens and atoms. Its state is the input that
-- the lexer has left; a token that is peeked at is scanned again.
use Prim.Native.Char.{code}
use mynode.Base.{
  ℕ, ◌+◌, ◌-◌, ◌*◌, ◌^◌, String, Bool, true, false, ◌&&◌, Option, none, some, [], ◌∷◌, leb, ltb,
  ◌==◌, str_eq, if◌then◌else◌,
}
use mynode.Base.Text.{format}
use mynode.Base.Result.{Result, ok, err, parse, Exec, continue, ◌>>=◌, pure, raise, reads}
use mynode.Sql.Token.{
  Token, Keyword, keyword, number, text, ident, display, from_word, false_word, null_word,
  true_word,
}
use mynode.Sql.Lexer.{Unicode, is_digit}
use mynode.Sql.Lexer as Lexer
use mynode.Base.Int.{ℤ, pos}
use mynode.Sql.Ast.{Expression, literal, FromClause, Statement}
use mynode.Sql.Ast.{Literal}
use mynode.Sql.Operators.{Operator}

-- `t == token`, by the numbers of the constructors and the texts they carry.
abbrev keyword_number : Keyword → ℕ
keyword_number Keyword.and_word = 0
keyword_number Keyword.as_word = 1
keyword_number Keyword.boolean_word = 2
keyword_number Keyword.create_word = 3
keyword_number Keyword.drop_word = 4
keyword_number Keyword.false_word = 5
keyword_number Keyword.float_word = 6
keyword_number Keyword.from_word = 7
keyword_number Keyword.insert_word = 8
keyword_number Keyword.integer_word = 9
keyword_number Keyword.into_word = 10
keyword_number Keyword.key_word = 11
keyword_number Keyword.not_word = 12
keyword_number Keyword.null_word = 13
keyword_number Keyword.or_word = 14
keyword_number Keyword.primary_word = 15
keyword_number Keyword.select_word = 16
keyword_number Keyword.table_word = 17
keyword_number Keyword.true_word = 18
keyword_number Keyword.values_word = 19
keyword_number Keyword.varchar_word = 20

abbrev token_number : Token → ℕ
token_number (number _) = 0
token_number (text _) = 1
token_number (ident _) = 2
token_number Token.period = 3
token_number Token.equals = 4
token_number Token.greater_than = 5
token_number Token.greater_than_or_equal = 6
token_number Token.less_than = 7
token_number Token.less_than_or_equal = 8
token_number Token.less_or_greater_than = 9
token_number Token.plus = 10
token_number Token.minus = 11
token_number Token.asterisk = 12
token_number Token.slash = 13
token_number Token.caret = 14
token_number Token.percent = 15
token_number Token.exclamation = 16
token_number Token.not_equal = 17
token_number Token.question = 18
token_number Token.open_paren = 19
token_number Token.close_paren = 20
token_number Token.comma = 21
token_number (keyword k) = keyword_number k + 22

abbrev token_text : Token → String
token_text (number n) = n
token_text (text s) = s
token_text (ident s) = s
token_text _ = ""

abbrev pub token_eq : Token → Token → Bool
token_eq a b = (token_number a == token_number b) && str_eq (token_text a) (token_text b)

-- What the parser takes from other code: Unicode's tables, and `f64::from_str`, whose error is
-- turned into `Error::Parse`.
pub record Reader (F : Type 0) : Type 0 where
  pub unicode : Unicode
  pub parse_float : String → Option F

abbrev pub all_digits : String → Bool
all_digits String.[] = true
all_digits (String.◌∷◌ c s) = is_digit c && all_digits s

-- `i64::from_str` on digits.
digits_value : ℕ → String → ℕ
digits_value n String.[] = n
digits_value n (String.◌∷◌ c s) = digits_value (n * 10 + (code c - 48)) s

unfoldable pub parse_integer : String → Result ℤ
unfolding digits_value
parse_integer s =
    let n = digits_value 0 s in
    if ltb n (2 ^ 63) then ok (pos n) else err (parse "number too large to fit in target type")

module _ {F : Type 0} (reader : Reader F) where
  abbrev pub transpose : Option (Result Token) → Result (Option Token)
  transpose none = ok none
  transpose (some (ok token)) = ok (some token)
  transpose (some (err e)) = err e

  unfoldable pub peek : String → Result (Option Token)
  peek s = transpose (Lexer.next reader.unicode s).0

  abbrev pub expect_some : Option (Result Token) → Result Token
  expect_some none = err (parse "Unexpected end of input")
  expect_some (some r) = r

  unfoldable pub next : Exec String Token
  next s = let r = Lexer.next reader.unicode s in (expect_some r.0, r.1)

  unfoldable pub expect_token : Token → Token → Exec String (Option Token)
  expect_token t token =
      if token_eq token t
      then pure (some token)
      else raise (parse (format ("Expected token " ∷ display t ∷ ", found " ∷ display token ∷ [])))

  unfoldable pub expect_end : Option Token → Exec String (Option Token)
  expect_end none = pure none
  expect_end (some token) = raise (parse (format ("Unexpected token " ∷ display token ∷ [])))

  unfoldable pub next_expect : Option Token → Exec String (Option Token)
  unfolding expect_token expect_end
  next_expect (some t) = next >>= expect_token t
  next_expect none = reads peek >>= expect_end

  unfoldable pub as_ident : Token → Exec String String
  as_ident (ident name) = pure name
  as_ident token = raise (parse (format ("Expected identifier, got " ∷ display token ∷ [])))

  unfoldable pub next_ident : Exec String String
  unfolding as_ident
  next_ident = next >>= as_ident

  -- `self.peek().unwrap_or(None)`.
  abbrev pub peek_or_none : Result (Option Token) → Option Token
  peek_or_none (ok o) = o
  peek_or_none (err e) = none

  -- `self.next().ok()`.
  abbrev pub next_ok : Result Token → Option Token
  next_ok (ok token) = some token
  next_ok (err e) = none

  unfoldable pub filtered : (Token → Bool) → Option Token → String → Option Token × String
  filtered predicate none s = (none, s)
  filtered predicate (some t) s =
      if predicate t then (let r = next s in (next_ok r.0, r.1)) else (none, s)

  unfoldable pub next_if : (Token → Bool) → String → Option Token × String
  unfolding filtered
  next_if predicate s = filtered predicate (peek_or_none (peek s)) s

  abbrev is_keyword : Token → Bool
  is_keyword (keyword _) = true
  is_keyword _ = false

  unfoldable pub next_if_keyword : String → Option Token × String
  next_if_keyword = next_if is_keyword

  unfoldable pub next_if_token : Token → String → Option Token × String
  next_if_token token = next_if (λ t. token_eq t token)

  unfoldable pub take_operator :
      {O : Type 0} → Operator O → ℕ → Option O → String → Option O × String
  take_operator o min_prec none s = (none, s)
  take_operator o min_prec (some op) s =
      if leb min_prec (o.prec op) then (some op, (next s).1) else (none, s)

  abbrev pub operator_of : {O : Type 0} → Operator O → Option Token → Option O
  operator_of o none = none
  operator_of o (some token) = o.from token

  unfoldable pub next_if_operator : {O : Type 0} → Operator O → ℕ → String → Option O × String
  unfolding take_operator
  next_if_operator o min_prec s = take_operator o min_prec (operator_of o (peek_or_none (peek s))) s

  unfoldable pub parse_ddl_drop_table : Exec String (Statement F)
  parse_ddl_drop_table = next_ident >>= λ name. pure (Statement.drop_table name)

  unfoldable pub from_clause : Option Token → Exec String (Option FromClause)
  from_clause none = pure none
  from_clause (some _) = next_ident >>= λ table. pure (some (record { tables = table ∷ [] }))

  unfoldable pub parse_clause_from : Exec String (Option FromClause)
  unfolding from_clause
  parse_clause_from s = let r = next_if_token (keyword from_word) s in from_clause r.0 r.1

  unfoldable pub atom : Token → Exec String (Expression F)
  atom (number n) =
      if all_digits n
      then continue (parse_integer n) (λ i. pure (literal (Literal.integer i)))
      else elim (reader.parse_float n) [
        | none ↦ raise (parse "invalid float literal")
        | some f ↦ pure (literal (Literal.float f))
      ]
  atom (text s) = pure (literal (Literal.text s))
  atom (keyword false_word) = pure (literal (Literal.boolean false))
  atom (keyword null_word) = pure (literal Literal.null)
  atom (keyword true_word) = pure (literal (Literal.boolean true))
  atom t = raise (parse (format ("Expected expression atom, found " ∷ display t ∷ [])))

  unfoldable pub parse_expression_atom : Exec String (Expression F)
  unfolding atom parse_integer
  parse_expression_atom = next >>= atom
