-- ===== src/Base/Int.antt =====
-- Signed integers over the native numbers, and `i64`: sums and products out of range wrap around or
-- panic, as the build has it; a division by zero, and the one quotient that is out of range, panic.
use Prim.Native.Nat.{ℕ, zero, suc, ◌+◌, ◌-◌, ◌*◌, ◌/◌, ◌%◌, ◌^◌, ◌<◌}
use Prim.Native.String.{String, ◌++◌}
use mathlib.Core.Path.{◌≡◌}
use mathlib.Core.Bool.{Bool, true, false, ◌&&◌}
use mathlib.Core.Option.{Option, none, some}
use native.Mathlib.Omega.{arith}
use mynode.Base.Tests.{ltb, leb, ◌==◌, if◌then◌else◌}
use mynode.Base.Text.{to_string}

-- A number, or minus one more than a number.
pub data ℤ : Type 0 where
  pos negsuc : ℕ → ℤ

abbrev pub pos_part : ℤ → ℕ
pos_part (pos n) = n
pos_part (negsuc n) = 0

abbrev pub neg_part : ℤ → ℕ
neg_part (pos n) = 0
neg_part (negsuc n) = suc n

-- a - b, as an integer.
abbrev pub sub_ℕ : ℕ → ℕ → ℤ
sub_ℕ a b = if leb b a then pos (a - b) else negsuc (b - a - 1)

-- Minus a number, or the number.
abbrev pub signed : Bool → ℕ → ℤ
signed true n = sub_ℕ 0 n
signed false n = pos n

abbrev pub is_negative : ℤ → Bool
is_negative (pos _) = false
is_negative (negsuc _) = true

abbrev pub abs : ℤ → ℕ
abs z = pos_part z + neg_part z

abbrev pub eq_ℤ : ℤ → ℤ → Bool
eq_ℤ a b = pos_part a + neg_part b == pos_part b + neg_part a

abbrev pub ltb_ℤ : ℤ → ℤ → Bool
ltb_ℤ a b = ltb (pos_part a + neg_part b) (pos_part b + neg_part a)

abbrev pub leb_ℤ : ℤ → ℤ → Bool
leb_ℤ a b = leb (pos_part a + neg_part b) (pos_part b + neg_part a)

abbrev pub neg_ℤ : ℤ → ℤ
neg_ℤ z = sub_ℕ (neg_part z) (pos_part z)

abbrev pub add_ℤ : ℤ → ℤ → ℤ
add_ℤ a b = sub_ℕ (pos_part a + pos_part b) (neg_part a + neg_part b)

abbrev pub mul_ℤ : ℤ → ℤ → ℤ
mul_ℤ a b =
    sub_ℕ (pos_part a * pos_part b + neg_part a * neg_part b)
      (pos_part a * neg_part b + neg_part a * pos_part b)

-- `none` is a panic.
abbrev pub bind : {A B : Type 0} → Option A → (A → Option B) → Option B
bind none f = none
bind (some a) f = f a

-- The residue modulo 2 ^ w, for `as` conversions and sums that wrap around.
abbrev pub residue : ℕ → ℤ → ℕ
residue w (pos n) = n % 2 ^ w
residue w (negsuc n) = 2 ^ w - 1 - n % 2 ^ w

-- The signed integer of w + 1 bits with the same residue.
abbrev pub wrap : ℕ → ℤ → ℤ
wrap w z = let m = residue (suc w) z in if ltb m (2 ^ w) then pos m else negsuc (2 ^ suc w - 1 - m)

abbrev pub InI64 : ℤ → Type 0
InI64 (pos n) = n < 2 ^ 63
InI64 (negsuc n) = n < 2 ^ 63

-- What a sum or product of i64 is: one that is out of range wraps around, or it panics (`none`) in a
-- build that checks for overflow, as a debug build does.
abbrev pub overflow : Bool → ℤ → Option ℤ
overflow checks z =
    if checks && (if eq_ℤ (wrap 63 z) z then false else true) then none else some (wrap 63 z)

unfoldable pub add_i64 : Bool → ℤ → ℤ → Option ℤ
add_i64 checks a b = overflow checks (add_ℤ a b)

unfoldable pub sub_i64 : Bool → ℤ → ℤ → Option ℤ
sub_i64 checks a b = overflow checks (add_ℤ a (neg_ℤ b))

unfoldable pub mul_i64 : Bool → ℤ → ℤ → Option ℤ
mul_i64 checks a b = overflow checks (mul_ℤ a b)

unfoldable pub neg_i64 : Bool → ℤ → Option ℤ
neg_i64 checks a = overflow checks (neg_ℤ a)

-- `i64::pow`; where a power overflows, so do the greater ones.
unfoldable pub pow_i64 : Bool → ℤ → ℕ → Option ℤ
unfolding mul_i64
pow_i64 checks a zero = some (pos 1)
pow_i64 checks a (suc n) = bind (pow_i64 checks a n) λ p. mul_i64 checks p a

-- Whether `/` and `%` panic.
abbrev pub division_panics : ℤ → ℤ → Bool
division_panics a (pos n) = n == 0
division_panics (pos m) (negsuc n) = false
division_panics (negsuc m) (negsuc n) = (n == 0) && (m == 2 ^ 63 - 1)

-- `/` and `%` round towards zero; `none` is a panic.
unfoldable pub div_i64 : ℤ → ℤ → Option ℤ
div_i64 a b =
    if division_panics a b
    then none
    else some (
        signed (if is_negative a then (if is_negative b then false else true) else is_negative b)
          (abs a / abs b))

unfoldable pub rem_i64 : ℤ → ℤ → Option ℤ
rem_i64 a b = if division_panics a b then none else some (signed (is_negative a) (abs a % abs b))

pub wrap_id : (z : ℤ) → InI64 z → wrap 63 z ≡ z
wrap_id (pos n) h = ground arith
wrap_id (negsuc n) h = ground arith

-- `i64::to_string`.
abbrev pub int_to_string : ℤ → String
int_to_string (pos n) = to_string n
int_to_string (negsuc n) = "-" ++ to_string (suc n)
