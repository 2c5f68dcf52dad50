-- ===== src/Sql/Eval.antt =====
-- sql/expression.rs: `Expression` and its evaluation. Whether an overflow of integers panics or wraps
-- around is the build's.
pub mod Types
pub mod Panics
pub mod Modulo
use mynode.Base.{
  ℕ, zero, suc, ◌%◌, ◌^◌, String, Bool, true, false, ◌&&◌, ◌||◌, not as negation, Option, none,
  some, [], ◌∷◌,
}
use mynode.Base.Text.{format}
use mynode.Base.Int.{
  ℤ, pos, negsuc, bind, eq_ℤ, ltb_ℤ, leb_ℤ, residue, wrap, add_i64, sub_i64, mul_i64, neg_i64,
  pow_i64, div_i64, rem_i64,
}
use mynode.Base.Result.{Error, value}
use mynode.Base.Outcome.{Outcome, returned, failed, panicked, and_then, or_panic}
use mynode.Sql.Value.{Float, Value, boolean, integer, float, display}

pub data Expression (F : Type 0) : Type 0 where
  constant : Value F → Expression F
  and or : Expression F → Expression F → Expression F
  not : Expression F → Expression F
  compare_eq compare_gt compare_gte compare_lt compare_lte compare_ne :
      Expression F → Expression F → Expression F
  add divide exponentiate modulo multiply subtract : Expression F → Expression F → Expression F
  factorial negate : Expression F → Expression F

-- `(1..=i).fold(1, |a, b| a * b)`.
unfoldable pub factorial_i64 : Bool → ℕ → Option ℤ
factorial_i64 checks zero = some (pos 1)
factorial_i64 checks (suc n) = bind (factorial_i64 checks n) λ p. mul_i64 checks p (pos (suc n))

abbrev pub upto : ℤ → ℕ
upto (pos n) = n
upto (negsuc n) = 0

-- `((lhs % rhs) + rhs) % rhs`.
unfoldable pub modulo_i64 : Bool → ℤ → ℤ → Outcome ℤ
modulo_i64 checks a b =
    or_panic (bind (rem_i64 a b) λ r. bind (add_i64 checks r b) λ sum. rem_i64 sum b)

-- An operator on numbers, on integers and on floating point numbers.
pub record Arithmetic (F : Type 0) : Type 0 where
  pub name : String
  pub on_integers : ℤ → ℤ → Outcome ℤ
  pub on_floats : F → F → F

pub record Comparison (F : Type 0) : Type 0 where
  pub on_integers : ℤ → ℤ → Bool
  pub on_floats : F → F → Bool

module _ {F : Type 0} (f : Float F) where
  unfoldable pub cannot : {A : Type 0} → String → Value F → Value F → Outcome A
  cannot verb lhs rhs =
      failed (value (format ("Can't " ∷ verb ∷ " " ∷ display f lhs ∷ " and " ∷ display f rhs ∷ [])))

  unfoldable pub cannot_one : {A : Type 0} → String → Value F → Outcome A
  cannot_one verb v = failed (value (format ("Can't " ∷ verb ∷ " " ∷ display f v ∷ [])))

  -- `match (lhs.evaluate()?, rhs.evaluate()?)`.
  abbrev pub both :
      Outcome (Value F)
      → Outcome (Value F)
      → (Value F → Value F → Outcome (Value F))
      → Outcome (Value F)
  both lhs rhs k = and_then lhs λ a. and_then rhs λ b. k a b

  abbrev pub integer_or_panic : Option ℤ → Outcome (Value F)
  integer_or_panic none = panicked
  integer_or_panic (some i) = returned (integer i)

  unfoldable pub and_values : Value F → Value F → Outcome (Value F)
  unfolding cannot
  and_values (boolean a) (boolean b) = returned (boolean (a && b))
  and_values a b = cannot "and" a b

  unfoldable pub or_values : Value F → Value F → Outcome (Value F)
  unfolding cannot
  or_values (boolean a) (boolean b) = returned (boolean (a || b))
  or_values a b = cannot "or" a b

  unfoldable pub not_value : Value F → Outcome (Value F)
  unfolding cannot_one
  not_value (boolean b) = returned (boolean (negation b))
  not_value v = cannot_one "negate" v

  unfoldable pub compare_values : Comparison F → Value F → Value F → Outcome (Value F)
  unfolding cannot
  compare_values c (integer a) (integer b) = returned (boolean (c.on_integers a b))
  compare_values c (integer a) (float b) = returned (boolean (c.on_floats (f.of_integer a) b))
  compare_values c (float a) (integer b) = returned (boolean (c.on_floats a (f.of_integer b)))
  compare_values c (float a) (float b) = returned (boolean (c.on_floats a b))
  compare_values c a b = cannot "compare" a b

  unfoldable pub arithmetic : Arithmetic F → Value F → Value F → Outcome (Value F)
  unfolding cannot
  arithmetic o (integer a) (integer b) = and_then (o.on_integers a b) λ i. returned (integer i)
  arithmetic o (integer a) (float b) = returned (float (o.on_floats (f.of_integer a) b))
  arithmetic o (float a) (integer b) = returned (float (o.on_floats a (f.of_integer b)))
  arithmetic o (float a) (float b) = returned (float (o.on_floats a b))
  arithmetic o a b = cannot o.name a b

  -- The exponent of integers is `rhs as u32`, that of a power of floats by an integer `rhs as i32`.
  unfoldable pub exponentiate_values : Value F → Value F → Outcome (Value F)
  unfolding cannot pow_i64
  exponentiate_values (integer a) (integer b) =
      integer_or_panic (pow_i64 f.overflow_checks a (residue 32 b))
  exponentiate_values (integer a) (float b) =
      returned (float (f.powi (f.of_integer a) (f.as_i32 b)))
  exponentiate_values (float a) (integer b) = returned (float (f.powi a (wrap 31 b)))
  exponentiate_values (float a) (float b) = returned (float (f.powf a b))
  exponentiate_values a b = cannot "exponentiate" a b

  unfoldable pub factorial_value : Value F → Outcome (Value F)
  unfolding cannot_one factorial_i64
  factorial_value (integer i) = integer_or_panic (factorial_i64 f.overflow_checks (upto i))
  factorial_value v = cannot_one "take factorial of" v

  unfoldable pub negate_value : Value F → Outcome (Value F)
  unfolding cannot_one neg_i64
  negate_value (integer i) = integer_or_panic (neg_i64 f.overflow_checks i)
  negate_value (float x) = returned (float (f.neg x))
  negate_value v = cannot_one "negate" v

  abbrev pub checked : (Bool → ℤ → ℤ → Option ℤ) → ℤ → ℤ → Outcome ℤ
  checked op a b = or_panic (op f.overflow_checks a b)

  abbrev pub add_numbers : Arithmetic F
  add_numbers = record { name = "add"; on_integers = checked add_i64; on_floats = f.add }

  abbrev pub subtract_numbers : Arithmetic F
  subtract_numbers = record { name = "subtract"; on_integers = checked sub_i64; on_floats = f.sub }

  abbrev pub multiply_numbers : Arithmetic F
  multiply_numbers = record { name = "multiply"; on_integers = checked mul_i64; on_floats = f.mul }

  abbrev pub divide_numbers : Arithmetic F
  divide_numbers = record {
    name = "divide";
    on_integers = λ a b. or_panic (div_i64 a b);
    on_floats = f.div;
  }

  abbrev pub modulo_numbers : Arithmetic F
  modulo_numbers = record {
    name = "take modulo of";
    on_integers = modulo_i64 f.overflow_checks;
    on_floats = λ a b. f.rem (f.add (f.rem a b) b) b;
  }

  abbrev pub equal : Comparison F
  equal = record { on_integers = eq_ℤ; on_floats = f.eq }

  abbrev pub not_equal : Comparison F
  not_equal = record {
    on_integers = λ a b. negation (eq_ℤ a b);
    on_floats = λ a b. negation (f.eq a b);
  }

  abbrev pub less : Comparison F
  less = record { on_integers = ltb_ℤ; on_floats = f.lt }

  abbrev pub less_or_equal : Comparison F
  less_or_equal = record { on_integers = leb_ℤ; on_floats = f.le }

  abbrev pub greater : Comparison F
  greater = record { on_integers = λ a b. ltb_ℤ b a; on_floats = λ a b. f.lt b a }

  abbrev pub greater_or_equal : Comparison F
  greater_or_equal = record { on_integers = λ a b. leb_ℤ b a; on_floats = λ a b. f.le b a }

  unfoldable pub evaluate : Expression F → Outcome (Value F)
  unfolding and_values or_values not_value compare_values arithmetic exponentiate_values
      factorial_value negate_value modulo_i64 add_i64 sub_i64 mul_i64 div_i64 rem_i64
  evaluate (constant c) = returned c
  evaluate (Expression.and lhs rhs) = both (evaluate lhs) (evaluate rhs) and_values
  evaluate (Expression.not e) = and_then (evaluate e) not_value
  evaluate (Expression.or lhs rhs) = both (evaluate lhs) (evaluate rhs) or_values
  evaluate (compare_eq lhs rhs) = both (evaluate lhs) (evaluate rhs) (compare_values equal)
  evaluate (compare_gt lhs rhs) = both (evaluate lhs) (evaluate rhs) (compare_values greater)
  evaluate (compare_gte lhs rhs) =
      both (evaluate lhs) (evaluate rhs) (compare_values greater_or_equal)
  evaluate (compare_lt lhs rhs) = both (evaluate lhs) (evaluate rhs) (compare_values less)
  evaluate (compare_lte lhs rhs) = both (evaluate lhs) (evaluate rhs) (compare_values less_or_equal)
  evaluate (compare_ne lhs rhs) = both (evaluate lhs) (evaluate rhs) (compare_values not_equal)
  evaluate (add lhs rhs) = both (evaluate lhs) (evaluate rhs) (arithmetic add_numbers)
  evaluate (divide lhs rhs) = both (evaluate lhs) (evaluate rhs) (arithmetic divide_numbers)
  evaluate (exponentiate lhs rhs) = both (evaluate lhs) (evaluate rhs) exponentiate_values
  evaluate (factorial e) = and_then (evaluate e) factorial_value
  evaluate (modulo lhs rhs) = both (evaluate lhs) (evaluate rhs) (arithmetic modulo_numbers)
  evaluate (multiply lhs rhs) = both (evaluate lhs) (evaluate rhs) (arithmetic multiply_numbers)
  evaluate (negate e) = and_then (evaluate e) negate_value
  evaluate (subtract lhs rhs) = both (evaluate lhs) (evaluate rhs) (arithmetic subtract_numbers)
