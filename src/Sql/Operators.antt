-- ===== src/Sql/Operators.antt =====
-- sql/parser/mod.rs: the operators, with the tokens they are read from, their precedence and their
-- associativity.
use mynode.Base.{ℕ, ◌≡◌, ◌≢◌, refl, ap, Bool, true, false, Option, none, some}
use mynode.Sql.Token.{
  Token, keyword, and_word, not_word, or_word, greater_than, greater_than_or_equal, less_than,
  less_than_or_equal, less_or_greater_than, asterisk, slash, caret, percent, exclamation, not_equal,
}
use mynode.Sql.Ast.{Expression, Operation, operation}

abbrev pub assoc_left : ℕ
assoc_left = 1

abbrev pub assoc_right : ℕ
assoc_right = 0

-- The trait `Operator`.
pub record Operator (O : Type 0) : Type 0 where
  pub from : Token → Option O
  pub assoc : O → ℕ
  pub prec : O → ℕ

pub data PrefixOperator : Type 0 where
  minus not plus : PrefixOperator

pub data InfixOperator : Type 0 where
  add and compare_eq compare_gt compare_gte compare_lt compare_lte compare_ne : InfixOperator
  divide exponentiate modulo multiply or subtract : InfixOperator

pub data PostfixOperator : Type 0 where
  factorial : PostfixOperator

abbrev prefix_from : Token → Option PrefixOperator
prefix_from exclamation = some PrefixOperator.not
prefix_from (keyword not_word) = some PrefixOperator.not
prefix_from Token.minus = some PrefixOperator.minus
prefix_from Token.plus = some PrefixOperator.plus
prefix_from _ = none

abbrev pub prefix_operator : Operator PrefixOperator
prefix_operator = record { from = prefix_from; assoc = λ o. assoc_right; prec = λ o. 9 }

abbrev pub infix_from : Token → Option InfixOperator
infix_from asterisk = some InfixOperator.multiply
infix_from caret = some InfixOperator.exponentiate
infix_from greater_than = some InfixOperator.compare_gt
infix_from greater_than_or_equal = some InfixOperator.compare_gte
infix_from (keyword and_word) = some InfixOperator.and
infix_from (keyword or_word) = some InfixOperator.or
infix_from less_or_greater_than = some InfixOperator.compare_ne
infix_from less_than = some InfixOperator.compare_lt
infix_from less_than_or_equal = some InfixOperator.compare_lte
infix_from Token.minus = some InfixOperator.subtract
infix_from not_equal = some InfixOperator.compare_ne
infix_from percent = some InfixOperator.modulo
infix_from Token.plus = some InfixOperator.add
infix_from slash = some InfixOperator.divide
infix_from _ = none

abbrev infix_assoc : InfixOperator → ℕ
infix_assoc InfixOperator.exponentiate = assoc_right
infix_assoc _ = assoc_left

abbrev infix_prec : InfixOperator → ℕ
infix_prec InfixOperator.or = 1
infix_prec InfixOperator.and = 2
infix_prec InfixOperator.compare_eq = 3
infix_prec InfixOperator.compare_ne = 3
infix_prec InfixOperator.compare_gt = 4
infix_prec InfixOperator.compare_gte = 4
infix_prec InfixOperator.compare_lt = 4
infix_prec InfixOperator.compare_lte = 4
infix_prec InfixOperator.add = 5
infix_prec InfixOperator.subtract = 5
infix_prec InfixOperator.multiply = 6
infix_prec InfixOperator.divide = 6
infix_prec InfixOperator.modulo = 6
infix_prec InfixOperator.exponentiate = 7

abbrev pub infix_operator : Operator InfixOperator
infix_operator = record { from = infix_from; assoc = infix_assoc; prec = infix_prec }

abbrev postfix_from : Token → Option PostfixOperator
postfix_from exclamation = some PostfixOperator.factorial
postfix_from _ = none

abbrev pub postfix_operator : Operator PostfixOperator
postfix_operator = record { from = postfix_from; assoc = λ o. assoc_left; prec = λ o. 8 }

module _ {F : Type 0} where
  abbrev pub build_prefix : PrefixOperator → Expression F → Expression F
  build_prefix PrefixOperator.plus rhs = rhs
  build_prefix PrefixOperator.minus rhs = operation (Operation.negate rhs)
  build_prefix PrefixOperator.not rhs = operation (Operation.not rhs)

  abbrev infix_operation : InfixOperator → Expression F → Expression F → Operation F
  infix_operation InfixOperator.add lhs rhs = Operation.add lhs rhs
  infix_operation InfixOperator.and lhs rhs = Operation.and lhs rhs
  infix_operation InfixOperator.compare_eq lhs rhs = Operation.compare_eq lhs rhs
  infix_operation InfixOperator.compare_gt lhs rhs = Operation.compare_gt lhs rhs
  infix_operation InfixOperator.compare_gte lhs rhs = Operation.compare_gte lhs rhs
  infix_operation InfixOperator.compare_lt lhs rhs = Operation.compare_lt lhs rhs
  infix_operation InfixOperator.compare_lte lhs rhs = Operation.compare_lte lhs rhs
  infix_operation InfixOperator.compare_ne lhs rhs = Operation.compare_ne lhs rhs
  infix_operation InfixOperator.divide lhs rhs = Operation.divide lhs rhs
  infix_operation InfixOperator.exponentiate lhs rhs = Operation.exponentiate lhs rhs
  infix_operation InfixOperator.modulo lhs rhs = Operation.modulo lhs rhs
  infix_operation InfixOperator.multiply lhs rhs = Operation.multiply lhs rhs
  infix_operation InfixOperator.or lhs rhs = Operation.or lhs rhs
  infix_operation InfixOperator.subtract lhs rhs = Operation.subtract lhs rhs

  abbrev pub build_infix : InfixOperator → Expression F → Expression F → Expression F
  build_infix o lhs rhs = operation (infix_operation o lhs rhs)

  abbrev pub build_postfix : PostfixOperator → Expression F → Expression F
  build_postfix PostfixOperator.factorial lhs = operation (Operation.factorial lhs)

abbrev is_compare_eq : Option InfixOperator → Bool
is_compare_eq (some InfixOperator.compare_eq) = true
is_compare_eq _ = false

never_compare_eq : (token : Token) → is_compare_eq (infix_from token) ≡ false
never_compare_eq (keyword and_word) = refl
never_compare_eq (keyword _) = refl
never_compare_eq _ = refl

-- No token is read as the operator that compares for equality.
infix_from-compare_eq : (token : Token) → infix_from token ≢ some InfixOperator.compare_eq
infix_from-compare_eq token h =
    let same : is_compare_eq (infix_from token) ≡ true = ap is_compare_eq h in
    let never = never_compare_eq token in cc
