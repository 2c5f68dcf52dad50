-- ===== src/Sql/Grammar/Ordered.antt =====
-- The trees that precedence climbing may build, by the precedence and the associativity of operators.
use mynode.Base.{ℕ, ◌+◌, ◌≤◌, ◌<◌, ◌≡◌, refl, Option, none, some, arith}
use mynode.Sql.Ast.{Expression, Operation, literal, operation}
use mynode.Sql.Operators.{InfixOperator, infix_operator, build_infix}

-- An operator may stand to the right of a tree: it has a lower precedence than the tree's root, or
-- the same where the root associates to the left.
abbrev pub Binds : InfixOperator → Option InfixOperator → Type 0
Binds o none = Unit
Binds o (some left) = infix_operator.prec o < infix_operator.prec left + infix_operator.assoc left

-- A binary operator, its left operand and its right operand, by what holds of them.
abbrev pub Joins : ℕ → InfixOperator → Option InfixOperator → Type 0 → (ℕ → Type 0) → Type 0
Joins p o left lhs rhs =
    (p ≤ infix_operator.prec o)
    × Binds o left
    × lhs
    × rhs (infix_operator.prec o + infix_operator.assoc o)

module _ {F : Type 0} where
  -- The binary operator at the root of a tree.
  unfoldable pub root : Expression F → Option InfixOperator
  root (operation (Operation.and l r)) = some InfixOperator.and
  root (operation (Operation.or l r)) = some InfixOperator.or
  root (operation (Operation.compare_eq l r)) = some InfixOperator.compare_eq
  root (operation (Operation.compare_gt l r)) = some InfixOperator.compare_gt
  root (operation (Operation.compare_gte l r)) = some InfixOperator.compare_gte
  root (operation (Operation.compare_lt l r)) = some InfixOperator.compare_lt
  root (operation (Operation.compare_lte l r)) = some InfixOperator.compare_lte
  root (operation (Operation.compare_ne l r)) = some InfixOperator.compare_ne
  root (operation (Operation.add l r)) = some InfixOperator.add
  root (operation (Operation.divide l r)) = some InfixOperator.divide
  root (operation (Operation.exponentiate l r)) = some InfixOperator.exponentiate
  root (operation (Operation.modulo l r)) = some InfixOperator.modulo
  root (operation (Operation.multiply l r)) = some InfixOperator.multiply
  root (operation (Operation.subtract l r)) = some InfixOperator.subtract
  root _ = none

  -- A tree whose operators have at least some precedence, and bind by precedence and associativity:
  -- a prefix operator binds closest, then a postfix operator, which does not apply to a binary one.
  unfoldable pub Ordered : Expression F → ℕ → Type 0
  Ordered (literal l) p = Unit
  Ordered (operation (Operation.not e)) p = (p ≤ 9) × Ordered e 9
  Ordered (operation (Operation.negate e)) p = (p ≤ 9) × Ordered e 9
  Ordered (operation (Operation.factorial e)) p = (p ≤ 8) × (root e ≡ none) × Ordered e p
  Ordered (operation (Operation.and l r)) p =
      Joins p InfixOperator.and (root l) (Ordered l p) (Ordered r)
  Ordered (operation (Operation.or l r)) p =
      Joins p InfixOperator.or (root l) (Ordered l p) (Ordered r)
  Ordered (operation (Operation.compare_eq l r)) p =
      Joins p InfixOperator.compare_eq (root l) (Ordered l p) (Ordered r)
  Ordered (operation (Operation.compare_gt l r)) p =
      Joins p InfixOperator.compare_gt (root l) (Ordered l p) (Ordered r)
  Ordered (operation (Operation.compare_gte l r)) p =
      Joins p InfixOperator.compare_gte (root l) (Ordered l p) (Ordered r)
  Ordered (operation (Operation.compare_lt l r)) p =
      Joins p InfixOperator.compare_lt (root l) (Ordered l p) (Ordered r)
  Ordered (operation (Operation.compare_lte l r)) p =
      Joins p InfixOperator.compare_lte (root l) (Ordered l p) (Ordered r)
  Ordered (operation (Operation.compare_ne l r)) p =
      Joins p InfixOperator.compare_ne (root l) (Ordered l p) (Ordered r)
  Ordered (operation (Operation.add l r)) p =
      Joins p InfixOperator.add (root l) (Ordered l p) (Ordered r)
  Ordered (operation (Operation.divide l r)) p =
      Joins p InfixOperator.divide (root l) (Ordered l p) (Ordered r)
  Ordered (operation (Operation.exponentiate l r)) p =
      Joins p InfixOperator.exponentiate (root l) (Ordered l p) (Ordered r)
  Ordered (operation (Operation.modulo l r)) p =
      Joins p InfixOperator.modulo (root l) (Ordered l p) (Ordered r)
  Ordered (operation (Operation.multiply l r)) p =
      Joins p InfixOperator.multiply (root l) (Ordered l p) (Ordered r)
  Ordered (operation (Operation.subtract l r)) p =
      Joins p InfixOperator.subtract (root l) (Ordered l p) (Ordered r)

  pub build_infix-Ordered :
      (o : InfixOperator) (l r : Expression F) (p : ℕ)
      → p ≤ infix_operator.prec o
      → Binds o (root l)
      → Ordered l p
      → Ordered r (infix_operator.prec o + infix_operator.assoc o)
      → Ordered (build_infix o l r) p × (root (build_infix o l r) ≡ some o)
  unfolding Ordered root
  build_infix-Ordered InfixOperator.and l r p h b g k = ((h, b, g, k), refl)
  build_infix-Ordered InfixOperator.or l r p h b g k = ((h, b, g, k), refl)
  build_infix-Ordered InfixOperator.compare_eq l r p h b g k = ((h, b, g, k), refl)
  build_infix-Ordered InfixOperator.compare_gt l r p h b g k = ((h, b, g, k), refl)
  build_infix-Ordered InfixOperator.compare_gte l r p h b g k = ((h, b, g, k), refl)
  build_infix-Ordered InfixOperator.compare_lt l r p h b g k = ((h, b, g, k), refl)
  build_infix-Ordered InfixOperator.compare_lte l r p h b g k = ((h, b, g, k), refl)
  build_infix-Ordered InfixOperator.compare_ne l r p h b g k = ((h, b, g, k), refl)
  build_infix-Ordered InfixOperator.add l r p h b g k = ((h, b, g, k), refl)
  build_infix-Ordered InfixOperator.divide l r p h b g k = ((h, b, g, k), refl)
  build_infix-Ordered InfixOperator.exponentiate l r p h b g k = ((h, b, g, k), refl)
  build_infix-Ordered InfixOperator.modulo l r p h b g k = ((h, b, g, k), refl)
  build_infix-Ordered InfixOperator.multiply l r p h b g k = ((h, b, g, k), refl)
  build_infix-Ordered InfixOperator.subtract l r p h b g k = ((h, b, g, k), refl)

  -- An operand of a prefix operator is no binary operation.
  pub Ordered-root : (e : Expression F) → Ordered e 9 → root e ≡ none
  unfolding Ordered root
  Ordered-root (literal l) h = refl
  Ordered-root (operation (Operation.not e)) h = refl
  Ordered-root (operation (Operation.negate e)) h = refl
  Ordered-root (operation (Operation.factorial e)) h = refl
  Ordered-root (operation o) h = absurd (omega (arith, h.0))

  pub Ordered-mono : (e : Expression F) (p q : ℕ) → p ≤ q → Ordered e q → Ordered e p
  unfolding Ordered
  Ordered-mono (literal l) p q h g = tt
  Ordered-mono (operation (Operation.not e)) p q h (g, k) = (omega arith, k)
  Ordered-mono (operation (Operation.negate e)) p q h (g, k) = (omega arith, k)
  Ordered-mono (operation (Operation.factorial e)) p q h (g, unary, k) =
      (omega arith, unary, Ordered-mono e p q h k)
  Ordered-mono (operation (Operation.and l r)) p q h (g, b, k, m) =
      (omega arith, b, Ordered-mono l p q h k, m)
  Ordered-mono (operation (Operation.or l r)) p q h (g, b, k, m) =
      (omega arith, b, Ordered-mono l p q h k, m)
  Ordered-mono (operation (Operation.compare_eq l r)) p q h (g, b, k, m) =
      (omega arith, b, Ordered-mono l p q h k, m)
  Ordered-mono (operation (Operation.compare_gt l r)) p q h (g, b, k, m) =
      (omega arith, b, Ordered-mono l p q h k, m)
  Ordered-mono (operation (Operation.compare_gte l r)) p q h (g, b, k, m) =
      (omega arith, b, Ordered-mono l p q h k, m)
  Ordered-mono (operation (Operation.compare_lt l r)) p q h (g, b, k, m) =
      (omega arith, b, Ordered-mono l p q h k, m)
  Ordered-mono (operation (Operation.compare_lte l r)) p q h (g, b, k, m) =
      (omega arith, b, Ordered-mono l p q h k, m)
  Ordered-mono (operation (Operation.compare_ne l r)) p q h (g, b, k, m) =
      (omega arith, b, Ordered-mono l p q h k, m)
  Ordered-mono (operation (Operation.add l r)) p q h (g, b, k, m) =
      (omega arith, b, Ordered-mono l p q h k, m)
  Ordered-mono (operation (Operation.divide l r)) p q h (g, b, k, m) =
      (omega arith, b, Ordered-mono l p q h k, m)
  Ordered-mono (operation (Operation.exponentiate l r)) p q h (g, b, k, m) =
      (omega arith, b, Ordered-mono l p q h k, m)
  Ordered-mono (operation (Operation.modulo l r)) p q h (g, b, k, m) =
      (omega arith, b, Ordered-mono l p q h k, m)
  Ordered-mono (operation (Operation.multiply l r)) p q h (g, b, k, m) =
      (omega arith, b, Ordered-mono l p q h k, m)
  Ordered-mono (operation (Operation.subtract l r)) p q h (g, b, k, m) =
      (omega arith, b, Ordered-mono l p q h k, m)
