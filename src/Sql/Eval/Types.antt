-- ===== src/Sql/Eval/Types.antt =====
-- What an expression evaluates to by its type: the types that the operators take and give.
use Prim.{⊥}
use mathlib.Core.Path.{subst}
use mynode.Base.{Bool, ◌≡◌, refl, Option, none, some}
use mynode.Base.Int.{ℤ, div_i64}
use mynode.Base.Result.{value}
use mynode.Base.Outcome.{Outcome, returned, failed, panicked, and_then, or_panic}
use mynode.Sql.Value.{Float, Value}
use mynode.Sql.Eval.{
  Expression, constant, compare_eq, compare_gt, compare_gte, compare_lt, compare_lte, compare_ne,
  add, divide, exponentiate, modulo, multiply, subtract, factorial, negate, Arithmetic, Comparison,
  modulo_i64, integer_or_panic, cannot, cannot_one, both, and_values, or_values, not_value,
  compare_values, arithmetic, exponentiate_values, factorial_value, negate_value, evaluate,
  add_numbers, subtract_numbers, multiply_numbers, divide_numbers, modulo_numbers, equal, not_equal,
  less, less_or_equal, greater, greater_or_equal,
}

pub data ValueType : Type 0 where
  null boolean integer float text : ValueType

abbrev pub kind : {F : Type 0} → Value F → ValueType
kind Value.null = ValueType.null
kind (Value.boolean _) = ValueType.boolean
kind (Value.integer _) = ValueType.integer
kind (Value.float _) = ValueType.float
kind (Value.text _) = ValueType.text

-- The type of the result of an operator; `none` where the operator does not take the operands.
abbrev logical : ValueType → ValueType → Option ValueType
logical ValueType.boolean ValueType.boolean = some ValueType.boolean
logical _ _ = none

abbrev numeric : ValueType → ValueType → Option ValueType
numeric ValueType.integer ValueType.integer = some ValueType.integer
numeric ValueType.integer ValueType.float = some ValueType.float
numeric ValueType.float ValueType.integer = some ValueType.float
numeric ValueType.float ValueType.float = some ValueType.float
numeric _ _ = none

abbrev comparable : ValueType → ValueType → Option ValueType
comparable ValueType.integer ValueType.integer = some ValueType.boolean
comparable ValueType.integer ValueType.float = some ValueType.boolean
comparable ValueType.float ValueType.integer = some ValueType.boolean
comparable ValueType.float ValueType.float = some ValueType.boolean
comparable _ _ = none

abbrev negated : ValueType → Option ValueType
negated ValueType.boolean = some ValueType.boolean
negated _ = none

abbrev signed_number : ValueType → Option ValueType
signed_number ValueType.integer = some ValueType.integer
signed_number ValueType.float = some ValueType.float
signed_number _ = none

abbrev whole_number : ValueType → Option ValueType
whole_number ValueType.integer = some ValueType.integer
whole_number _ = none

abbrev typed : Option ValueType → (ValueType → Option ValueType) → Option ValueType
typed none op = none
typed (some t) op = op t

abbrev typed_both :
    Option ValueType
    → Option ValueType
    → (ValueType → ValueType → Option ValueType)
    → Option ValueType
typed_both a b op = typed a λ t. typed b λ u. op t u

-- The type of an expression, from the types of its constants alone.
unfoldable pub type_of : {F : Type 0} → Expression F → Option ValueType
type_of (constant c) = some (kind c)
type_of (Expression.and lhs rhs) = typed_both (type_of lhs) (type_of rhs) logical
type_of (Expression.or lhs rhs) = typed_both (type_of lhs) (type_of rhs) logical
type_of (Expression.not e) = typed (type_of e) negated
type_of (compare_eq lhs rhs) = typed_both (type_of lhs) (type_of rhs) comparable
type_of (compare_gt lhs rhs) = typed_both (type_of lhs) (type_of rhs) comparable
type_of (compare_gte lhs rhs) = typed_both (type_of lhs) (type_of rhs) comparable
type_of (compare_lt lhs rhs) = typed_both (type_of lhs) (type_of rhs) comparable
type_of (compare_lte lhs rhs) = typed_both (type_of lhs) (type_of rhs) comparable
type_of (compare_ne lhs rhs) = typed_both (type_of lhs) (type_of rhs) comparable
type_of (add lhs rhs) = typed_both (type_of lhs) (type_of rhs) numeric
type_of (divide lhs rhs) = typed_both (type_of lhs) (type_of rhs) numeric
type_of (exponentiate lhs rhs) = typed_both (type_of lhs) (type_of rhs) numeric
type_of (modulo lhs rhs) = typed_both (type_of lhs) (type_of rhs) numeric
type_of (multiply lhs rhs) = typed_both (type_of lhs) (type_of rhs) numeric
type_of (subtract lhs rhs) = typed_both (type_of lhs) (type_of rhs) numeric
type_of (factorial e) = typed (type_of e) whole_number
type_of (negate e) = typed (type_of e) signed_number

-- A typed expression gives a value of its type, one without a type the error `Value`; either may panic.
abbrev pub Agrees : {F : Type 0} → Option ValueType → Outcome (Value F) → Type 0
Agrees (some t) (returned v) = kind v ≡ t
Agrees none (returned v) = ⊥
Agrees (some t) (failed e) = ⊥
Agrees none (failed (value _)) = Unit
Agrees none (failed _) = ⊥
Agrees t panicked = Unit

abbrev NoError : {A : Type 0} → Outcome A → Type 0
NoError (failed _) = ⊥
NoError _ = Unit

or_panic-NoError : {A : Type 0} (o : Option A) → NoError (or_panic o)
or_panic-NoError none = tt
or_panic-NoError (some a) = tt

module _ {F : Type 0} (f : Float F) where
  and_then-Agrees :
      (t : Option ValueType) (x : Outcome (Value F)) (op : ValueType → Option ValueType)
      (k : Value F → Outcome (Value F))
      → Agrees t x
      → ((v : Value F) → Agrees (op (kind v)) (k v))
      → Agrees (typed t op) (and_then x k)
  and_then-Agrees (some t) (returned v) op k h g = subst (λ u. Agrees (op u) (k v)) h (g v)
  and_then-Agrees none (failed (value _)) op k h g = tt
  and_then-Agrees t panicked op k h g = tt
  and_then-Agrees t x op k h g = absurd h

  both-Agrees :
      (t u : Option ValueType) (x y : Outcome (Value F))
      (op : ValueType → ValueType → Option ValueType) (k : Value F → Value F → Outcome (Value F))
      → Agrees t x
      → Agrees u y
      → ((v w : Value F) → Agrees (op (kind v) (kind w)) (k v w))
      → Agrees (typed_both t u op) (both f x y k)
  both-Agrees t u x y op k h g agrees =
      and_then-Agrees t x (λ a. typed u λ b. op a b) (λ v. and_then y λ w. k v w) h
        (λ v. and_then-Agrees u y (op (kind v)) (k v) g (agrees v))

  and_values-Agrees : (v w : Value F) → Agrees (logical (kind v) (kind w)) (and_values f v w)
  unfolding and_values cannot
  and_values-Agrees (Value.boolean a) (Value.boolean b) = refl
  and_values-Agrees v w = tt

  or_values-Agrees : (v w : Value F) → Agrees (logical (kind v) (kind w)) (or_values f v w)
  unfolding or_values cannot
  or_values-Agrees (Value.boolean a) (Value.boolean b) = refl
  or_values-Agrees v w = tt

  not_value-Agrees : (v : Value F) → Agrees (negated (kind v)) (not_value f v)
  unfolding not_value cannot_one
  not_value-Agrees (Value.boolean b) = refl
  not_value-Agrees v = tt

  integer_or_panic-Agrees : (o : Option ℤ) → Agrees (some ValueType.integer) (integer_or_panic f o)
  integer_or_panic-Agrees none = tt
  integer_or_panic-Agrees (some i) = refl

  negate_value-Agrees : (v : Value F) → Agrees (signed_number (kind v)) (negate_value f v)
  unfolding negate_value cannot_one
  negate_value-Agrees (Value.integer i) = integer_or_panic-Agrees _
  negate_value-Agrees (Value.float x) = refl
  negate_value-Agrees v = tt

  factorial_value-Agrees : (v : Value F) → Agrees (whole_number (kind v)) (factorial_value f v)
  unfolding factorial_value cannot_one
  factorial_value-Agrees (Value.integer i) = integer_or_panic-Agrees _
  factorial_value-Agrees v = tt

  compare_values-Agrees :
      (c : Comparison F) (v w : Value F)
      → Agrees (comparable (kind v) (kind w)) (compare_values f c v w)
  unfolding compare_values cannot
  compare_values-Agrees c (Value.integer a) (Value.integer b) = refl
  compare_values-Agrees c (Value.integer a) (Value.float b) = refl
  compare_values-Agrees c (Value.float a) (Value.integer b) = refl
  compare_values-Agrees c (Value.float a) (Value.float b) = refl
  compare_values-Agrees c v w = tt

  integer-Agrees :
      (x : Outcome ℤ)
      → NoError x
      → Agrees {F = F} (some ValueType.integer) (and_then x λ i. returned (Value.integer i))
  integer-Agrees (returned i) h = refl
  integer-Agrees (failed e) h = absurd h
  integer-Agrees panicked h = tt

  arithmetic-Agrees :
      (o : Arithmetic F)
      → ((a b : ℤ) → NoError (o.on_integers a b))
      → (v w : Value F) → Agrees (numeric (kind v) (kind w)) (arithmetic f o v w)
  unfolding arithmetic cannot
  arithmetic-Agrees o h (Value.integer a) (Value.integer b) =
      integer-Agrees (o.on_integers a b) (h a b)
  arithmetic-Agrees o h (Value.integer a) (Value.float b) = refl
  arithmetic-Agrees o h (Value.float a) (Value.integer b) = refl
  arithmetic-Agrees o h (Value.float a) (Value.float b) = refl
  arithmetic-Agrees o h v w = tt

  exponentiate_values-Agrees :
      (v w : Value F) → Agrees (numeric (kind v) (kind w)) (exponentiate_values f v w)
  unfolding exponentiate_values cannot
  exponentiate_values-Agrees (Value.integer a) (Value.integer b) = integer_or_panic-Agrees _
  exponentiate_values-Agrees (Value.integer a) (Value.float b) = refl
  exponentiate_values-Agrees (Value.float a) (Value.integer b) = refl
  exponentiate_values-Agrees (Value.float a) (Value.float b) = refl
  exponentiate_values-Agrees v w = tt

  modulo_i64-NoError : (checks : Bool) (a b : ℤ) → NoError (modulo_i64 checks a b)
  unfolding modulo_i64
  modulo_i64-NoError checks a b = or_panic-NoError _

  -- Evaluation is decided by the type: an expression of a type evaluates to a value of that type
  -- or panics, and never to an error; one without a type evaluates to the error Value or panics,
  -- and never to a value.
  pub evaluate-Agrees : (e : Expression F) → Agrees (type_of e) (evaluate f e)
  unfolding evaluate type_of
  evaluate-Agrees (constant c) = refl
  evaluate-Agrees (Expression.and l r) =
      both-Agrees (type_of l) (type_of r) (evaluate f l) (evaluate f r) logical (and_values f)
        (evaluate-Agrees l) (evaluate-Agrees r) and_values-Agrees
  evaluate-Agrees (Expression.or l r) =
      both-Agrees (type_of l) (type_of r) (evaluate f l) (evaluate f r) logical (or_values f)
        (evaluate-Agrees l) (evaluate-Agrees r) or_values-Agrees
  evaluate-Agrees (compare_eq l r) =
      both-Agrees (type_of l) (type_of r) (evaluate f l) (evaluate f r) comparable
        (compare_values f (equal f)) (evaluate-Agrees l) (evaluate-Agrees r)
        (compare_values-Agrees (equal f))
  evaluate-Agrees (compare_gt l r) =
      both-Agrees (type_of l) (type_of r) (evaluate f l) (evaluate f r) comparable
        (compare_values f (greater f)) (evaluate-Agrees l) (evaluate-Agrees r)
        (compare_values-Agrees (greater f))
  evaluate-Agrees (compare_gte l r) =
      both-Agrees (type_of l) (type_of r) (evaluate f l) (evaluate f r) comparable
        (compare_values f (greater_or_equal f)) (evaluate-Agrees l) (evaluate-Agrees r)
        (compare_values-Agrees (greater_or_equal f))
  evaluate-Agrees (compare_lt l r) =
      both-Agrees (type_of l) (type_of r) (evaluate f l) (evaluate f r) comparable
        (compare_values f (less f)) (evaluate-Agrees l) (evaluate-Agrees r)
        (compare_values-Agrees (less f))
  evaluate-Agrees (compare_lte l r) =
      both-Agrees (type_of l) (type_of r) (evaluate f l) (evaluate f r) comparable
        (compare_values f (less_or_equal f)) (evaluate-Agrees l) (evaluate-Agrees r)
        (compare_values-Agrees (less_or_equal f))
  evaluate-Agrees (compare_ne l r) =
      both-Agrees (type_of l) (type_of r) (evaluate f l) (evaluate f r) comparable
        (compare_values f (not_equal f)) (evaluate-Agrees l) (evaluate-Agrees r)
        (compare_values-Agrees (not_equal f))
  evaluate-Agrees (add l r) =
      both-Agrees (type_of l) (type_of r) (evaluate f l) (evaluate f r) numeric
        (arithmetic f (add_numbers f)) (evaluate-Agrees l) (evaluate-Agrees r)
        (arithmetic-Agrees (add_numbers f) (λ a b. or_panic-NoError _))
  evaluate-Agrees (divide l r) =
      both-Agrees (type_of l) (type_of r) (evaluate f l) (evaluate f r) numeric
        (arithmetic f (divide_numbers f)) (evaluate-Agrees l) (evaluate-Agrees r)
        (arithmetic-Agrees (divide_numbers f) (λ a b. or_panic-NoError (div_i64 a b)))
  evaluate-Agrees (modulo l r) =
      both-Agrees (type_of l) (type_of r) (evaluate f l) (evaluate f r) numeric
        (arithmetic f (modulo_numbers f)) (evaluate-Agrees l) (evaluate-Agrees r)
        (arithmetic-Agrees (modulo_numbers f) (λ a b. modulo_i64-NoError f.overflow_checks a b))
  evaluate-Agrees (multiply l r) =
      both-Agrees (type_of l) (type_of r) (evaluate f l) (evaluate f r) numeric
        (arithmetic f (multiply_numbers f)) (evaluate-Agrees l) (evaluate-Agrees r)
        (arithmetic-Agrees (multiply_numbers f) (λ a b. or_panic-NoError _))
  evaluate-Agrees (subtract l r) =
      both-Agrees (type_of l) (type_of r) (evaluate f l) (evaluate f r) numeric
        (arithmetic f (subtract_numbers f)) (evaluate-Agrees l) (evaluate-Agrees r)
        (arithmetic-Agrees (subtract_numbers f) (λ a b. or_panic-NoError _))
  evaluate-Agrees (exponentiate l r) =
      both-Agrees (type_of l) (type_of r) (evaluate f l) (evaluate f r) numeric
        (exponentiate_values f) (evaluate-Agrees l) (evaluate-Agrees r) exponentiate_values-Agrees
  evaluate-Agrees (Expression.not e) =
      and_then-Agrees (type_of e) (evaluate f e) negated (not_value f) (evaluate-Agrees e)
        not_value-Agrees
  evaluate-Agrees (factorial e) =
      and_then-Agrees (type_of e) (evaluate f e) whole_number (factorial_value f)
        (evaluate-Agrees e) factorial_value-Agrees
  evaluate-Agrees (negate e) =
      and_then-Agrees (type_of e) (evaluate f e) signed_number (negate_value f) (evaluate-Agrees e)
        negate_value-Agrees
