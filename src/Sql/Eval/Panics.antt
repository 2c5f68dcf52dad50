-- ===== src/Sql/Eval/Panics.antt =====
-- Which expressions may panic: those that divide, and in a build with checks for overflow all with
-- arithmetic.
use Prim.{⊥}
use mynode.Base.{ℕ, zero, suc, Option, none, some, ◌≡◌, ◌≢◌, refl, Bool, true, false, ◌||◌}
use mathlib.Core.Path.{subst}
use mynode.Base.Int.{
  ℤ, pos, residue, bind, overflow, add_ℤ, mul_ℤ, neg_ℤ, add_i64, sub_i64, mul_i64, neg_i64, pow_i64,
}
use mynode.Base.Outcome.{Outcome, returned, failed, panicked, and_then, or_panic}
use mynode.Sql.Value.{Float, Value}
use mynode.Sql.Eval.{
  Expression, constant, compare_eq, compare_gt, compare_gte, compare_lt, compare_lte, compare_ne,
  add, divide, exponentiate, modulo, multiply, subtract, factorial, negate, Comparison, Arithmetic,
  integer_or_panic, factorial_i64, upto, cannot, cannot_one, both, and_values, or_values, not_value,
  compare_values, arithmetic, exponentiate_values, factorial_value, negate_value, evaluate,
  add_numbers, subtract_numbers, multiply_numbers, equal, not_equal, less, less_or_equal, greater,
  greater_or_equal,
}

-- Whether an operator that may panic is in the expression: a quotient or a remainder, and with checks
-- for overflow any arithmetic.
unfoldable pub can_panic : {F : Type 0} → Bool → Expression F → Bool
can_panic checks (constant c) = false
can_panic checks (Expression.and lhs rhs) = can_panic checks lhs || can_panic checks rhs
can_panic checks (Expression.or lhs rhs) = can_panic checks lhs || can_panic checks rhs
can_panic checks (compare_eq lhs rhs) = can_panic checks lhs || can_panic checks rhs
can_panic checks (compare_gt lhs rhs) = can_panic checks lhs || can_panic checks rhs
can_panic checks (compare_gte lhs rhs) = can_panic checks lhs || can_panic checks rhs
can_panic checks (compare_lt lhs rhs) = can_panic checks lhs || can_panic checks rhs
can_panic checks (compare_lte lhs rhs) = can_panic checks lhs || can_panic checks rhs
can_panic checks (compare_ne lhs rhs) = can_panic checks lhs || can_panic checks rhs
can_panic checks (add lhs rhs) = checks || (can_panic checks lhs || can_panic checks rhs)
can_panic checks (exponentiate lhs rhs) = checks || (can_panic checks lhs || can_panic checks rhs)
can_panic checks (multiply lhs rhs) = checks || (can_panic checks lhs || can_panic checks rhs)
can_panic checks (subtract lhs rhs) = checks || (can_panic checks lhs || can_panic checks rhs)
can_panic checks (divide lhs rhs) = true
can_panic checks (modulo lhs rhs) = true
can_panic checks (Expression.not e) = can_panic checks e
can_panic checks (factorial e) = checks || can_panic checks e
can_panic checks (negate e) = checks || can_panic checks e

abbrev NoPanic : {A : Type 0} → Outcome A → Type 0
NoPanic panicked = ⊥
NoPanic _ = Unit

either : (a b : Bool) → (a || b) ≡ false → (a ≡ false) × (b ≡ false)
either false b h = (refl, h)
either true b h = absurd cc

-- Without checks, sums, products and powers do not panic.
abbrev IsTotal : Option ℤ → Type 0
IsTotal none = ⊥
IsTotal (some i) = Unit

overflow-IsTotal : (checks : Bool) (z : ℤ) → checks ≡ false → IsTotal (overflow checks z)
overflow-IsTotal checks z h = rw h tt

bind-IsTotal :
    (o : Option ℤ) (k : ℤ → Option ℤ) → IsTotal o → ((i : ℤ) → IsTotal (k i)) → IsTotal (bind o k)
bind-IsTotal (some i) k h g = g i
bind-IsTotal none k h g = h

pow-IsTotal : (checks : Bool) (a : ℤ) (n : ℕ) → checks ≡ false → IsTotal (pow_i64 checks a n)
unfolding pow_i64 mul_i64
pow-IsTotal checks a zero h = tt
pow-IsTotal checks a (suc n) h =
    bind-IsTotal (pow_i64 checks a n) _ (pow-IsTotal checks a n h)
      (λ p. overflow-IsTotal checks (mul_ℤ p a) h)

factorial-IsTotal : (checks : Bool) (n : ℕ) → checks ≡ false → IsTotal (factorial_i64 checks n)
unfolding factorial_i64 mul_i64
factorial-IsTotal checks zero h = tt
factorial-IsTotal checks (suc n) h =
    bind-IsTotal (factorial_i64 checks n) _ (factorial-IsTotal checks n h)
      (λ p. overflow-IsTotal checks (mul_ℤ p (pos (suc n))) h)

or_panic-NoPanic : (o : Option ℤ) → IsTotal o → NoPanic (or_panic o)
or_panic-NoPanic none h = h
or_panic-NoPanic (some i) h = tt

module _ {F : Type 0} (f : Float F) where
  and_then-NoPanic :
      (x : Outcome (Value F)) (k : Value F → Outcome (Value F))
      → NoPanic x
      → ((v : Value F) → NoPanic (k v))
      → NoPanic (and_then x k)
  and_then-NoPanic (returned v) k h g = g v
  and_then-NoPanic (failed e) k h g = tt
  and_then-NoPanic panicked k h g = h

  both-NoPanic :
      (x y : Outcome (Value F)) (k : Value F → Value F → Outcome (Value F))
      → NoPanic x
      → NoPanic y
      → ((v w : Value F) → NoPanic (k v w))
      → NoPanic (both f x y k)
  both-NoPanic x y k h g l =
      and_then-NoPanic x (λ v. and_then y λ w. k v w) h (λ v. and_then-NoPanic y (k v) g (l v))

  and_values-NoPanic : (v w : Value F) → NoPanic (and_values f v w)
  unfolding and_values cannot
  and_values-NoPanic (Value.boolean a) (Value.boolean b) = tt
  and_values-NoPanic v w = tt

  or_values-NoPanic : (v w : Value F) → NoPanic (or_values f v w)
  unfolding or_values cannot
  or_values-NoPanic (Value.boolean a) (Value.boolean b) = tt
  or_values-NoPanic v w = tt

  integer-NoPanic : (o : Option ℤ) → IsTotal o → NoPanic (integer_or_panic f o)
  integer-NoPanic none h = h
  integer-NoPanic (some i) h = tt

  exponentiate_values-NoPanic :
      (v w : Value F) → f.overflow_checks ≡ false → NoPanic (exponentiate_values f v w)
  unfolding exponentiate_values cannot
  exponentiate_values-NoPanic (Value.integer a) (Value.integer b) h =
      integer-NoPanic _ (pow-IsTotal f.overflow_checks a (residue 32 b) h)
  exponentiate_values-NoPanic (Value.integer a) (Value.float b) h = tt
  exponentiate_values-NoPanic (Value.float a) (Value.integer b) h = tt
  exponentiate_values-NoPanic (Value.float a) (Value.float b) h = tt
  exponentiate_values-NoPanic v w h = tt

  compare_values-NoPanic : (c : Comparison F) (v w : Value F) → NoPanic (compare_values f c v w)
  unfolding compare_values cannot
  compare_values-NoPanic c (Value.integer a) (Value.integer b) = tt
  compare_values-NoPanic c (Value.integer a) (Value.float b) = tt
  compare_values-NoPanic c (Value.float a) (Value.integer b) = tt
  compare_values-NoPanic c (Value.float a) (Value.float b) = tt
  compare_values-NoPanic c v w = tt

  numbered :
      (r : Outcome ℤ)
      → NoPanic r
      → NoPanic {A = Value F} (and_then r λ i. returned (Value.integer i))
  numbered (returned i) h = tt
  numbered (failed e) h = tt
  numbered panicked h = h

  arithmetic-NoPanic :
      (o : Arithmetic F)
      → ((a b : ℤ) → NoPanic (o.on_integers a b))
      → (v w : Value F) → NoPanic (arithmetic f o v w)
  unfolding arithmetic cannot
  arithmetic-NoPanic o h (Value.integer a) (Value.integer b) = numbered (o.on_integers a b) (h a b)
  arithmetic-NoPanic o h (Value.integer a) (Value.float b) = tt
  arithmetic-NoPanic o h (Value.float a) (Value.integer b) = tt
  arithmetic-NoPanic o h (Value.float a) (Value.float b) = tt
  arithmetic-NoPanic o h v w = tt

  not_value-NoPanic : (v : Value F) → NoPanic (not_value f v)
  unfolding not_value cannot_one
  not_value-NoPanic (Value.boolean a) = tt
  not_value-NoPanic v = tt

  factorial_value-NoPanic :
      (v : Value F) → f.overflow_checks ≡ false → NoPanic (factorial_value f v)
  unfolding factorial_value cannot_one
  factorial_value-NoPanic (Value.integer a) h =
      integer-NoPanic _ (factorial-IsTotal f.overflow_checks (upto a) h)
  factorial_value-NoPanic v h = tt

  negate_value-NoPanic : (v : Value F) → f.overflow_checks ≡ false → NoPanic (negate_value f v)
  unfolding negate_value cannot_one neg_i64
  negate_value-NoPanic (Value.integer a) h =
      integer-NoPanic _ (overflow-IsTotal f.overflow_checks (neg_ℤ a) h)
  negate_value-NoPanic (Value.float a) h = tt
  negate_value-NoPanic v h = tt

  evaluate-NoPanic :
      (e : Expression F) → can_panic f.overflow_checks e ≡ false → NoPanic (evaluate f e)
  unfolding evaluate can_panic add_i64 sub_i64 mul_i64
  evaluate-NoPanic (constant c) h = tt
  evaluate-NoPanic (Expression.and l r) h =
      let (left, right) =
        either (can_panic f.overflow_checks l) (can_panic f.overflow_checks r) h in
      both-NoPanic (evaluate f l) (evaluate f r) _ (evaluate-NoPanic l left)
        (evaluate-NoPanic r right) and_values-NoPanic
  evaluate-NoPanic (Expression.or l r) h =
      let (left, right) =
        either (can_panic f.overflow_checks l) (can_panic f.overflow_checks r) h in
      both-NoPanic (evaluate f l) (evaluate f r) _ (evaluate-NoPanic l left)
        (evaluate-NoPanic r right) or_values-NoPanic
  evaluate-NoPanic (compare_eq l r) h =
      let (left, right) =
        either (can_panic f.overflow_checks l) (can_panic f.overflow_checks r) h in
      both-NoPanic (evaluate f l) (evaluate f r) _ (evaluate-NoPanic l left)
        (evaluate-NoPanic r right) (compare_values-NoPanic (equal f))
  evaluate-NoPanic (compare_gt l r) h =
      let (left, right) =
        either (can_panic f.overflow_checks l) (can_panic f.overflow_checks r) h in
      both-NoPanic (evaluate f l) (evaluate f r) _ (evaluate-NoPanic l left)
        (evaluate-NoPanic r right) (compare_values-NoPanic (greater f))
  evaluate-NoPanic (compare_gte l r) h =
      let (left, right) =
        either (can_panic f.overflow_checks l) (can_panic f.overflow_checks r) h in
      both-NoPanic (evaluate f l) (evaluate f r) _ (evaluate-NoPanic l left)
        (evaluate-NoPanic r right) (compare_values-NoPanic (greater_or_equal f))
  evaluate-NoPanic (compare_lt l r) h =
      let (left, right) =
        either (can_panic f.overflow_checks l) (can_panic f.overflow_checks r) h in
      both-NoPanic (evaluate f l) (evaluate f r) _ (evaluate-NoPanic l left)
        (evaluate-NoPanic r right) (compare_values-NoPanic (less f))
  evaluate-NoPanic (compare_lte l r) h =
      let (left, right) =
        either (can_panic f.overflow_checks l) (can_panic f.overflow_checks r) h in
      both-NoPanic (evaluate f l) (evaluate f r) _ (evaluate-NoPanic l left)
        (evaluate-NoPanic r right) (compare_values-NoPanic (less_or_equal f))
  evaluate-NoPanic (compare_ne l r) h =
      let (left, right) =
        either (can_panic f.overflow_checks l) (can_panic f.overflow_checks r) h in
      both-NoPanic (evaluate f l) (evaluate f r) _ (evaluate-NoPanic l left)
        (evaluate-NoPanic r right) (compare_values-NoPanic (not_equal f))
  evaluate-NoPanic (exponentiate l r) h =
      let (unchecked, operands) = either f.overflow_checks _ h in
      let (left, right) =
        either (can_panic f.overflow_checks l) (can_panic f.overflow_checks r) operands in
      both-NoPanic (evaluate f l) (evaluate f r) _ (evaluate-NoPanic l left)
        (evaluate-NoPanic r right) (λ v w. exponentiate_values-NoPanic v w unchecked)
  evaluate-NoPanic (add l r) h =
      let (unchecked, operands) = either f.overflow_checks _ h in
      let (left, right) =
        either (can_panic f.overflow_checks l) (can_panic f.overflow_checks r) operands in
      both-NoPanic (evaluate f l) (evaluate f r) _ (evaluate-NoPanic l left)
        (evaluate-NoPanic r right)
        (arithmetic-NoPanic (add_numbers f)
          (λ a b. or_panic-NoPanic _ (overflow-IsTotal f.overflow_checks (add_ℤ a b) unchecked)))
  evaluate-NoPanic (multiply l r) h =
      let (unchecked, operands) = either f.overflow_checks _ h in
      let (left, right) =
        either (can_panic f.overflow_checks l) (can_panic f.overflow_checks r) operands in
      both-NoPanic (evaluate f l) (evaluate f r) _ (evaluate-NoPanic l left)
        (evaluate-NoPanic r right)
        (arithmetic-NoPanic (multiply_numbers f)
          (λ a b. or_panic-NoPanic _ (overflow-IsTotal f.overflow_checks (mul_ℤ a b) unchecked)))
  evaluate-NoPanic (subtract l r) h =
      let (unchecked, operands) = either f.overflow_checks _ h in
      let (left, right) =
        either (can_panic f.overflow_checks l) (can_panic f.overflow_checks r) operands in
      both-NoPanic (evaluate f l) (evaluate f r) _ (evaluate-NoPanic l left)
        (evaluate-NoPanic r right)
        (arithmetic-NoPanic (subtract_numbers f) (λ a b.
          or_panic-NoPanic _ (overflow-IsTotal f.overflow_checks (add_ℤ a (neg_ℤ b)) unchecked)))
  evaluate-NoPanic (divide l r) h = absurd cc
  evaluate-NoPanic (modulo l r) h = absurd cc
  evaluate-NoPanic (Expression.not e) h =
      and_then-NoPanic (evaluate f e) (not_value f) (evaluate-NoPanic e h) not_value-NoPanic
  evaluate-NoPanic (factorial e) h =
      let (unchecked, operand) = either f.overflow_checks _ h in
      and_then-NoPanic (evaluate f e) (factorial_value f) (evaluate-NoPanic e operand)
        (λ v. factorial_value-NoPanic v unchecked)
  evaluate-NoPanic (negate e) h =
      let (unchecked, operand) = either f.overflow_checks _ h in
      and_then-NoPanic (evaluate f e) (negate_value f) (evaluate-NoPanic e operand)
        (λ v. negate_value-NoPanic v unchecked)

  -- An expression without a quotient and without a remainder does not panic in a build without
  -- checks for overflow; in a build with them, one that has no arithmetic besides does not.
  pub evaluate-panicked :
      (e : Expression F) → can_panic f.overflow_checks e ≡ false → evaluate f e ≢ panicked
  evaluate-panicked e h panic = subst NoPanic panic (evaluate-NoPanic e h)
