-- ===== src/Sql/Grammar/Precedence.antt =====
-- What precedence climbing builds: each operator binds its operands by precedence and associativity.
use mynode.Base.{
  ℕ, zero, suc, ◌+◌, ◌≤◌, ◌<◌, String, ◌≡◌, refl, Option, none, some, arith, Bool-cases,
  Option-cases, inl, inr, leb, leb→le,
}
use mathlib.Core.Path.{subst}
use mynode.Base.Int.{ℤ}
use mynode.Base.Text.{size}
use mynode.Base.Result.{Result, ok, err, Exec, continue, ◌>>=◌}
use mynode.Sql.Token.{Token, keyword, number, text, false_word, null_word, true_word}
use mynode.Sql.Ast.{Expression, Literal, literal}
use mynode.Sql.Operators.{
  PrefixOperator, InfixOperator, PostfixOperator, Operator, prefix_operator, infix_operator,
  postfix_operator, build_prefix, build_infix, build_postfix,
}
use mynode.Sql.Parser.{
  Reader, next, next_if_operator, take_operator, parse_expression_atom, atom, all_digits,
  parse_integer,
}
use mynode.Sql.Grammar.{try, postfix_loop, infix_loop, operand, parse_expression, expression}
use mynode.Sql.Grammar.Ordered.{
  root, Binds, Ordered, build_infix-Ordered, Ordered-root, Ordered-mono,
}

module _ {O : Type 0} (o : Operator O) where
  -- The operator that is taken has at least the precedence asked for, and any operator that is left
  -- has less.
  taken-le :
      {F : Type 0} (reader : Reader F) (p : ℕ) (x : Option O) (s : String) (op : O)
      → (take_operator reader o p x s).0 ≡ some op
      → p ≤ o.prec op
  unfolding take_operator
  taken-le reader p none s op h = absurd cc
  taken-le reader p (some op') s op h = elim (Bool-cases (leb p (o.prec op'))) [
    | inl high ↦
        let taken : some op' ≡ some op = rw high at h in
        let same : op' ≡ op = cc in rw (← same) (leb→le p (o.prec op') high)
    | inr low ↦ absurd (let never : none ≡ some op = rw low at h in cc)
  ]

  left-lt :
      {F : Type 0} (reader : Reader F) (p q : ℕ) (x : Option O) (s : String) (op : O)
      → (take_operator reader o p x s).0 ≡ some op
      → (take_operator reader o q x s).0 ≡ none
      → o.prec op < q
  unfolding take_operator
  left-lt reader p q none s op h g = absurd cc
  left-lt reader p q (some op') s op h g = elim (Bool-cases (leb p (o.prec op'))) [
    | inl high ↦
        let taken : some op' ≡ some op = rw high at h in
        let same : op' ≡ op = cc in
        elim (Bool-cases (leb q (o.prec op'))) [
          | inl higher ↦ absurd (let never : some op' ≡ none = rw higher at g in cc)
          | inr lower ↦ rw (← same) (ground arith)
        ]
    | inr low ↦ absurd (let never : none ≡ some op = rw low at h in cc)
  ]

  left-same :
      {F : Type 0} (reader : Reader F) (p : ℕ) (x : Option O) (s : String)
      → (take_operator reader o p x s).0 ≡ none
      → (take_operator reader o p x s).1 ≡ s
  unfolding take_operator
  left-same reader p none s h = refl
  left-same reader p (some op') s h = elim (Bool-cases (leb p (o.prec op'))) [
    | inl high ↦ absurd (let never : some op' ≡ none = rw high at h in cc)
    | inr low ↦ rw low refl
  ]

-- A success whose value and rest are such.
abbrev Gives : {A : Type 0} → (A → String → Type 0) → Result A × String → Type 0
Gives P (ok a, s) = P a s
Gives P (err e, s) = Unit

continue-Gives :
    {A B : Type 0} (P : A → String → Type 0) (Q : B → String → Type 0) (r : Result A × String)
    (k : A → Exec String B)
    → Gives P r
    → ((a : A) (s : String) → P a s → Gives Q (k a s))
    → Gives Q (continue r.0 k r.1)
continue-Gives P Q (ok a, s) k h g = g a s h
continue-Gives P Q (err e, s) k h g = tt

anything : {A : Type 0} (r : Result A × String) → Gives (λ a s. Unit) r
anything (ok a, s) = tt
anything (err e, s) = tt

module _ {F : Type 0} (reader : Reader F) where
  -- The next token is no binary operator of this precedence or a higher one.
  Ends : ℕ → String → Type 0
  Ends p s = (next_if_operator reader infix_operator p s).0 ≡ none

  -- The binary operator that comes next, if any, may stand to the right of the tree.
  Ready : Expression F → String → Type 0
  Ready e s =
      (o : InfixOperator)
      → root e ≡ some o
      → Ends (infix_operator.prec o + infix_operator.assoc o) s

  -- What parsing at a precedence gives.
  Parsed : ℕ → Expression F → String → Type 0
  Parsed p e s = Ordered e p × Ends p s

  Operand : ℕ → Expression F → String → Type 0
  Operand p e s = Ordered e p × (root e ≡ none)

  literal-Gives :
      (p : ℕ) (r : Result ℤ) (s : String)
      → Gives (Operand p) (continue r (λ i s. (ok (literal (Literal.integer i)), s)) s)
  unfolding Operand Ordered root
  literal-Gives p (ok i) s = (tt, refl)
  literal-Gives p (err e) s = tt

  build_postfix-Operand :
      (op : PostfixOperator) (lhs : Expression F) (p : ℕ) (s t : String)
      → p ≤ 8
      → Operand p lhs s
      → Operand p (build_postfix op lhs) t
  unfolding Operand Ordered root
  build_postfix-Operand PostfixOperator.factorial lhs p s t h (ordered, unary) =
      ((h, unary, ordered), refl)

  atom-Gives : (p : ℕ) (t : Token) (s : String) → Gives (Operand p) (atom reader t s)
  unfolding atom parse_integer Operand Ordered root
  atom-Gives p (number n) s = elim (Bool-cases (all_digits n)) [
    | inl integer ↦ rw (atom, integer) (literal-Gives p (parse_integer n) s)
    | inr other ↦ elim (Option-cases (reader.parse_float n)) [
      | inl invalid ↦ rw (atom, other, invalid) tt
      | inr (f, float) ↦ rw (atom, other, float) (tt, refl)
    ]
  ]
  atom-Gives p (text t) s = (tt, refl)
  atom-Gives p (keyword false_word) s = (tt, refl)
  atom-Gives p (keyword null_word) s = (tt, refl)
  atom-Gives p (keyword true_word) s = (tt, refl)
  atom-Gives p (keyword k) s = tt
  atom-Gives p t s = tt

  postfix_loop-Gives :
      (g p : ℕ) (lhs : Expression F) (s : String)
      → Operand p lhs s
      → Gives (Operand p) (postfix_loop reader g p lhs s)
  unfolding postfix_loop next_if_operator Operand
  postfix_loop-Gives zero p lhs s h = tt
  postfix_loop-Gives (suc g) p lhs s h =
      let r = next_if_operator reader postfix_operator p s in
      elim (Option-cases r.0) [
        | inl absent ↦ rw (postfix_loop, absent) h
        | inr (op, present) ↦
            let high : p ≤ 8 = taken-le postfix_operator reader p _ s op present in
            rw (postfix_loop, present)
              (postfix_loop-Gives g p (build_postfix op lhs) r.1
                (build_postfix-Operand op lhs p s r.1 high h))
      ]

  Ready-Binds :
      (p : ℕ) (op : InfixOperator) (lhs : Expression F) (s : String)
      → (next_if_operator reader infix_operator p s).0 ≡ some op
      → Ready lhs s
      → Binds op (root lhs)
  unfolding next_if_operator Ready Ends
  Ready-Binds p op lhs s present ready = elim (Option-cases (root lhs)) [
    | inl unary ↦ rw unary tt
    | inr (left, is_root) ↦
        rw is_root (left-lt infix_operator reader p _ _ s op present (ready left is_root))
  ]

  infix_loop-Gives :
      (rhs : ℕ → Exec String (Expression F))
      → ((p : ℕ) (s : String) → Gives (Parsed p) (rhs p s))
      → (g p : ℕ) (lhs : Expression F) (s : String) → Ordered lhs p
      → Ready lhs s
      → Gives (Parsed p) (infix_loop reader rhs g p lhs s)
  unfolding infix_loop next_if_operator Parsed Ready Ends
  infix_loop-Gives rhs parses zero p lhs s h ready = tt
  infix_loop-Gives rhs parses (suc g) p lhs s h ready =
      let r = next_if_operator reader infix_operator p s in
      elim (Option-cases r.0) [
        | inl absent ↦
            rw (infix_loop, absent) (h, rw (left-same infix_operator reader p _ s absent) absent)
        | inr (op, present) ↦
            let q = infix_operator.prec op + infix_operator.assoc op in
            let high = taken-le infix_operator reader p _ s op present in
            let binds : Binds op (root lhs) = Ready-Binds p op lhs s present ready in
            rw (infix_loop, present)
              (continue-Gives (Parsed q) (Parsed p) (rhs q r.1) _ (parses q r.1)
                (λ e t (ordered, ends).
                  let (tree, top) = build_infix-Ordered op lhs e p high binds h ordered in
                  infix_loop-Gives rhs parses g p (build_infix op lhs e) t tree (λ o is_root.
                    let same : op ≡ o = cc in
                    subst (λ o. Ends (infix_operator.prec o + infix_operator.assoc o) t) same
                      ends)))
      ]

  build_prefix-Operand :
      (op : PrefixOperator) (e : Expression F) (p : ℕ) (s : String)
      → p ≤ 9
      → Ordered e 9
      → Operand p (build_prefix op e) s
  unfolding Operand Ordered root
  build_prefix-Operand PrefixOperator.plus e p s h g = (Ordered-mono e p 9 h g, Ordered-root e g)
  build_prefix-Operand PrefixOperator.minus e p s h g = ((h, g), refl)
  build_prefix-Operand PrefixOperator.not e p s h g = ((h, g), refl)

  operand-Gives :
      (rhs : ℕ → Exec String (Expression F))
      → ((p : ℕ) (s : String) → Gives (Parsed p) (rhs p s))
      → (p : ℕ) (s : String)
      → Gives
          (Operand p)
          ((try (next_if_operator reader prefix_operator p) >>= operand reader rhs) s)
  unfolding operand next_if_operator parse_expression_atom Parsed
  operand-Gives rhs parses p s =
      let r = next_if_operator reader prefix_operator p s in
      elim (Option-cases r.0) [
        | inl absent ↦
            rw (operand, absent)
              (continue-Gives (λ t u. Unit) (Operand p) (next reader r.1) _
                (anything (next reader r.1)) (λ t u _. atom-Gives p t u))
        | inr (op, present) ↦
            let high : p ≤ 9 = taken-le prefix_operator reader p _ s op present in
            rw (operand, present)
              (continue-Gives (Parsed 9) (Operand p) (rhs 9 r.1) _ (parses 9 r.1)
                (λ e t (ordered, ends). build_prefix-Operand op e p t high ordered))
      ]

  parse_expression-Gives : (f p : ℕ) (s : String) → Gives (Parsed p) (parse_expression reader f p s)
  unfolding parse_expression Operand Ready
  parse_expression-Gives zero p s = tt
  parse_expression-Gives (suc f) p s =
      let rhs = parse_expression reader f in
      let parses = parse_expression-Gives f in
      let first = (try (next_if_operator reader prefix_operator p) >>= operand reader rhs) s in
      let second = continue first.0 (λ lhs t. postfix_loop reader (suc (size t)) p lhs t) first.1 in
      continue-Gives (Operand p) (Parsed p) second _
        (continue-Gives (Operand p) (Operand p) first _ (operand-Gives rhs parses p s)
          (λ lhs t h. postfix_loop-Gives (suc (size t)) p lhs t h))
        (λ lhs t (ordered, unary).
          infix_loop-Gives rhs parses (suc (size t)) p lhs t ordered
            (λ o is_root. absurd (let never : none ≡ some o = cc in cc)))

  -- In a tree that is parsed from an expression every operator binds by precedence and
  -- associativity: the root of a right operand binds closer than the operator to its left, or as
  -- close where that associates to the right; the root of a left operand binds closer than the
  -- operator to its right, or as close where it associates to the left; a prefix operator binds
  -- closest and then a postfix operator, which does not apply to a binary operation. After the
  -- expression no binary operator is left to take.
  pub expression-Ordered :
      (s t : String) (e : Expression F)
      → expression reader s ≡ (ok e, t)
      → Ordered e 0 × ((next_if_operator reader infix_operator 0 t).0 ≡ none)
  unfolding expression Parsed Ends
  expression-Ordered s t e h =
      subst (Gives (Parsed 0)) h (parse_expression-Gives (suc (size s)) 0 s)
