-- ===== src/Sql/Eval/Modulo.antt =====
-- The modulo of integers, which the code makes of two remainders and a sum.
use native.Mathlib.Nat.{mod-lt, mod-eq_of_lt, add-mod_right, suc-mod, mod_self}
use mynode.Base.{
  Bool, ℕ, zero, suc, ◌+◌, ◌-◌, ◌%◌, ◌^◌, ◌≤◌, ◌<◌, ◌≡◌, ap, ◌∙◌, ◌⊎◌, some, arith, Bool-cases, inl,
  inr, ◌==◌,
}
use mynode.Base.Int.{ℤ, pos, negsuc, bind, add_i64, rem_i64, sub_ℕ}
use mynode.Base.Outcome.{returned, or_panic}
use mynode.Sql.Eval.{modulo_i64}

-- The number from 0 to b - 1 that differs from `a` by a multiple of `b`.
abbrev pub euclid : ℤ → ℕ → ℕ
euclid (pos n) b = n % b
euclid (negsuc n) b = b - 1 - n % b

-- The remainder of a sum that is a number, on the way to the result.
step :
    (checks : Bool) (r : ℤ) (m b : ℕ)
    → zero < b
    → add_i64 checks r (pos b) ≡ some (pos m)
    → or_panic (bind (add_i64 checks r (pos b)) λ sum. rem_i64 sum (pos b)) ≡ returned (pos (m % b))
unfolding rem_i64
step checks r m b h e = rw e (ground arith)

add_pos :
    (checks : Bool) (m b : ℕ)
    → m < b
    → b ≤ 2 ^ 62
    → add_i64 checks (pos m) (pos b) ≡ some (pos (m + b))
unfolding add_i64
add_pos checks m b h k = ground arith

add_neg :
    (checks : Bool) (m b : ℕ)
    → suc m < b
    → b ≤ 2 ^ 62
    → add_i64 checks (negsuc m) (pos b) ≡ some (pos (b - suc m))
unfolding add_i64
add_neg checks m b h k = ground arith

rem_pos : (n b : ℕ) → zero < b → rem_i64 (pos n) (pos b) ≡ some (pos (n % b))
unfolding rem_i64
rem_pos n b h = ground arith

rem_neg : (n b : ℕ) → zero < b → rem_i64 (negsuc n) (pos b) ≡ some (sub_ℕ zero (suc n % b))
unfolding rem_i64
rem_neg n b h = ground arith

-- The remainder of minus a number.
suc-mod_cases :
    (n b : ℕ)
    → zero < b
    → ((suc n % b ≡ zero) × (n % b ≡ b - 1)) ⊎ ((suc n % b ≡ suc (n % b)) × (suc (n % b) < b))
suc-mod_cases n b h =
    let below : n % b < b = mod-lt n h in
    elim (Bool-cases (suc (n % b) == b)) [
      | inl last ↦
          let e : suc (n % b) ≡ b = ground arith in
          inl (suc-mod n b ∙ ap (λ m. m % b) e ∙ mod_self b, omega arith)
      | inr other ↦
          let less : suc (n % b) < b = ground arith in inr (suc-mod n b ∙ mod-eq_of_lt less, less)
    ]

negative : (m : ℕ) → sub_ℕ zero (suc m) ≡ negsuc m
negative m = ground arith

-- Where the divisor is above zero and at most 2^62, the modulo of an integer is the number from
-- zero to the divisor less one that differs from the integer by a multiple of the divisor, in a
-- build with checks for overflow as in one without.
pub modulo_i64-euclid :
    (checks : Bool) (a : ℤ) (b : ℕ)
    → zero < b
    → b ≤ 2 ^ 62
    → modulo_i64 checks a (pos b) ≡ returned (pos (euclid a b))
unfolding modulo_i64
modulo_i64-euclid checks (pos n) b h k =
    rw (modulo_i64, rem_pos n b h)
      (step checks (pos (n % b)) (n % b + b) b h (add_pos checks (n % b) b (mod-lt n h) k)
        ∙ ap (λ m. returned (pos m)) (add-mod_right (n % b) b ∙ mod-eq_of_lt (mod-lt n h)))
modulo_i64-euclid checks (negsuc n) b h k = elim (suc-mod_cases n b h) [
  | inl (last, e) ↦
      rw (modulo_i64, rem_neg n b h, last)
        (step checks (pos 0) b b h (add_pos checks 0 b h k ∙ ap (λ m. some (pos m)) (omega arith))
          ∙ ap (λ m. returned (pos m)) (mod_self b ∙ omega (arith, e)))
  | inr (next, less) ↦
      rw
        (
          modulo_i64,
          rem_neg n b h ∙ ap (λ m. some (sub_ℕ zero m)) next ∙ ap some (negative (n % b)),
        )
        (step checks (negsuc (n % b)) (b - suc (n % b)) b h (add_neg checks (n % b) b less k)
          ∙ ap (λ m. returned (pos m)) (mod-eq_of_lt (omega arith) ∙ omega arith))
]
