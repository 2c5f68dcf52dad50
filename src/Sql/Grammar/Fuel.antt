-- ===== src/Sql/Grammar/Fuel.antt =====
-- The fuel of the expression parser is enough: every round of a loop takes a token.
use mynode.Base.{
  ℕ, zero, suc, ◌+◌, ◌≤◌, ◌<◌, String, ◌≡◌, Bool, Option, none, some, arith, Bool-cases,
  Option-cases, inl, inr, leb,
}
use mynode.Base.Text.{size}
use mynode.Base.Result.{Result, ok, err, Exec, continue, ◌>>=◌}
use mynode.Sql.Token.{Token, keyword, number, text, false_word, null_word, true_word}
use mynode.Sql.Lexer as Lexer
use mynode.Sql.Ast.{Expression}
use mynode.Sql.Operators.{
  Operator, prefix_operator, infix_operator, postfix_operator, build_infix, build_postfix,
}
use mynode.Sql.Parser.{
  Reader, peek, next, next_if, next_if_operator, take_operator, parse_expression_atom, atom,
  all_digits, parse_integer,
}
use mynode.Sql.Peek.{Item-cases, next_if_lem}
use mynode.Sql.Progress.{Takes, Takes-le, Takes-lt, next-lt}
use mynode.Sql.Errors.{Within, next-IsQueryError}
use mynode.Sql.Grammar.{try, postfix_loop, infix_loop, operand, parse_expression, expression}

pub Within-mono : {A : Type 0} (m n : ℕ) (r : Result A × String) → m ≤ n → Within m r → Within n r
Within-mono m n (ok a, s) h w = omega arith
Within-mono m n (err e, s) h w = w

-- `?`, and what comes after it.
pub continue-Within :
    {A B : Type 0} (m n : ℕ) (r : Result A × String) (k : A → Exec String B)
    → Within m r
    → ((a : A) (t : String) → size t < m → Within n (k a t))
    → Within n (continue r.0 k r.1)
continue-Within m n (ok a, t) k w h = h a t w
continue-Within m n (err e, t) k w h = w

-- The same after a method that returns an option.
pub try-Within :
    {A B : Type 0} (m n : ℕ) (r : Option A × String) (k : Option A → Exec String B)
    → Takes m r
    → ((t : String) → size t ≤ m → Within n (k none t))
    → ((a : A) (t : String) → size t < m → Within n (k (some a) t))
    → Within n (k r.0 r.1)
try-Within m n (none, t) k w f g = f t w
try-Within m n (some a, t) k w f g = g a t w

ok-lt :
    {A : Type 0} (n : ℕ) (r : Result A × String) (a : A) → r.0 ≡ ok a → Within n r → size r.1 < n
ok-lt n (ok b, s) a e w = w
ok-lt n (err x, s) a e w = absurd cc

module _ {F : Type 0} (reader : Reader F) where
  pub next-Within : (s : String) → Within (size s) (next reader s)
  unfolding next
  next-Within s = elim (Item-cases (Lexer.next reader.unicode s).0) [
    | inl end ↦ rw (next, end) tt
    | inr (inl (t, token)) ↦ rw (next, token) (next-lt reader.unicode s t token)
    | inr (inr (e, error)) ↦ rw (next, error) (next-IsQueryError reader.unicode s e error)
  ]

  pub next_if-Takes : (p : Token → Bool) (s : String) → Takes (size s) (next_if reader p s)
  next_if-Takes p s = elim (next_if_lem reader p s) [
    | inl (left, _) ↦ rw left (omega arith)
    | inr (t, token, _, taken) ↦ rw taken (ok-lt (size s) (next reader s) t token (next-Within s))
  ]

  next_if_operator-Takes :
      {O : Type 0} (o : Operator O) (p : ℕ) (s : String)
      → Takes (size s) (next_if_operator reader o p s)
  unfolding next_if_operator peek take_operator next
  next_if_operator-Takes o p s = elim (Item-cases (Lexer.next reader.unicode s).0) [
    | inl end ↦ rw (next_if_operator, end) (omega arith)
    | inr (inl (t, token)) ↦ elim (Option-cases (o.from t)) [
      | inl other ↦ rw (next_if_operator, token, other) (omega arith)
      | inr (op, operator) ↦ elim (Bool-cases (leb p (o.prec op))) [
        | inl high ↦ rw (next_if_operator, token, operator, high) (next-lt reader.unicode s t token)
        | inr low ↦ rw (next_if_operator, token, operator, low) (omega arith)
      ]
    ]
    | inr (inr (e, error)) ↦ rw (next_if_operator, error) (omega arith)
  ]

  -- An atom is made of a token that is already taken.
  atom-Within : (t : Token) (s : String) → Within (suc (size s)) (atom reader t s)
  unfolding atom parse_integer
  atom-Within (number n) s = elim (Bool-cases (all_digits n)) [
    | inl integer ↦ rw (atom, integer) (ground (arith))
    | inr other ↦ elim (Option-cases (reader.parse_float n)) [
      | inl invalid ↦ rw (atom, other, invalid) tt
      | inr (f, float) ↦ rw (atom, other, float) (omega arith)
    ]
  ]
  atom-Within (text t) s = omega arith
  atom-Within (keyword false_word) s = omega arith
  atom-Within (keyword null_word) s = omega arith
  atom-Within (keyword true_word) s = omega arith
  atom-Within (keyword k) s = tt
  atom-Within t s = tt

  parse_expression_atom-Within : (s : String) → Within (size s) (parse_expression_atom reader s)
  unfolding parse_expression_atom
  parse_expression_atom-Within s =
      continue-Within (size s) (size s) (next reader s) (atom reader) (next-Within s) (λ t u h.
        Within-mono (suc (size u)) (size s) (atom reader t u) (omega arith) (atom-Within t u))

  postfix_loop-Within :
      (g p : ℕ) (lhs : Expression F) (s : String)
      → size s < g
      → Within (suc (size s)) (postfix_loop reader g p lhs s)
  unfolding postfix_loop
  postfix_loop-Within zero p lhs s h = absurd (omega arith)
  postfix_loop-Within (suc g) p lhs s h =
      let r = next_if_operator reader postfix_operator p s in
      let left = next_if_operator-Takes postfix_operator p s in
      elim (Option-cases r.0) [
        | inl absent ↦ rw (postfix_loop, absent) (omega (arith, Takes-le (size s) r left))
        | inr (op, present) ↦
            let shorter = Takes-lt (size s) r op present left in
            rw (postfix_loop, present)
              (Within-mono (suc (size r.1)) (suc (size s)) _ (omega arith)
                (postfix_loop-Within g p (build_postfix op lhs) r.1 (omega arith)))
      ]

  -- `rhs` leaves no more characters than it finds, where there are fewer than `f`.
  abbrev Parses : ℕ → (ℕ → Exec String (Expression F)) → Type 0
  Parses f rhs = (p : ℕ) (s : String) → size s < f → Within (suc (size s)) (rhs p s)

  infix_loop-Within :
      (f : ℕ) (rhs : ℕ → Exec String (Expression F))
      → Parses f rhs
      → (g p : ℕ) (lhs : Expression F) (s : String) → size s < g
      → size s ≤ f
      → Within (suc (size s)) (infix_loop reader rhs g p lhs s)
  unfolding infix_loop
  infix_loop-Within f rhs parses zero p lhs s h k = absurd (omega arith)
  infix_loop-Within f rhs parses (suc g) p lhs s h k =
      let r = next_if_operator reader infix_operator p s in
      let left = next_if_operator-Takes infix_operator p s in
      elim (Option-cases r.0) [
        | inl absent ↦ rw (infix_loop, absent) (omega (arith, Takes-le (size s) r left))
        | inr (op, present) ↦
            let shorter = Takes-lt (size s) r op present left in
            let q = infix_operator.prec op + infix_operator.assoc op in
            rw (infix_loop, present)
              (continue-Within (suc (size r.1)) (suc (size s)) (rhs q r.1) _
                (parses q r.1 (omega arith))
                (λ e t b. Within-mono (suc (size t)) (suc (size s)) _ (omega arith) (
                  infix_loop-Within f rhs parses g p (build_infix op lhs e) t (omega arith)
                    (omega arith))))
      ]

  operand-Within :
      (f : ℕ) (rhs : ℕ → Exec String (Expression F))
      → Parses f rhs
      → (p : ℕ) (s : String) → size s ≤ f
      → Within
          (suc (size s))
          ((try (next_if_operator reader prefix_operator p) >>= operand reader rhs) s)
  unfolding operand
  operand-Within f rhs parses p s k =
      try-Within (size s) (suc (size s)) (next_if_operator reader prefix_operator p s)
        (operand reader rhs) (next_if_operator-Takes prefix_operator p s)
        (λ t h.
          Within-mono (size t) (suc (size s)) _ (omega arith) (parse_expression_atom-Within t))
        (λ op t h.
          continue-Within (suc (size t)) (suc (size s)) (rhs 9 t) _ (parses 9 t (omega arith))
            (λ e u b. omega arith))

  parse_expression-Within : (f : ℕ) → Parses f (parse_expression reader f)
  unfolding parse_expression
  parse_expression-Within zero p s h = absurd (omega arith)
  parse_expression-Within (suc f) p s h =
      let rhs = parse_expression reader f in
      let parses = parse_expression-Within f in
      let first = (try (next_if_operator reader prefix_operator p) >>= operand reader rhs) s in
      let second = continue first.0 (λ lhs t. postfix_loop reader (suc (size t)) p lhs t) first.1 in
      continue-Within (suc (size s)) (suc (size s)) second _
        (continue-Within (suc (size s)) (suc (size s)) first _
          (operand-Within f rhs parses p s (omega arith))
          (λ lhs t b.
            Within-mono (suc (size t)) (suc (size s)) _ (omega arith)
              (postfix_loop-Within (suc (size t)) p lhs t (omega arith))))
        (λ lhs t b.
          Within-mono (suc (size t)) (suc (size s)) _ (omega arith)
            (infix_loop-Within f rhs parses (suc (size t)) p lhs t (omega arith) (omega arith)))

  pub expression-Within : (s : String) → Within (suc (size s)) (expression reader s)
  unfolding expression
  expression-Within s = parse_expression-Within (suc (size s)) 0 s (omega arith)
