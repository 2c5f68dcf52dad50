-- ===== src/Base/Text.antt =====
-- `u64::to_string` (the standard library's), by which log.rs makes the keys of entries.
use Prim.Native.Nat.{ℕ, zero, suc, ◌+◌, ◌-◌, ◌*◌, ◌/◌, ◌%◌, ◌<◌}
use Prim.Native.Char.{Char, code}
use Prim.Native.String.{String, ◌++◌}
use mathlib.Core.Path.{◌≡◌, refl, ap, sym, ◌∙◌}
use mathlib.Core.List.{List, [], ◌∷◌}
use mathlib.Core.Logic.{◌≢◌, inl, inr}
use mathlib.Core.Bool.{Bool, true, false, ◌&&◌}
use native.Mathlib.Omega.{arith}
use mynode.Base.Tests.{ltb, leb, if◌then◌else◌, Bool-cases}

-- `format!`: the parts of a message, one after the other.
abbrev pub format : List String → String
format [] = ""
format (part ∷ parts) = part ++ format parts

-- The number of characters.
abbrev pub size : String → ℕ
size String.[] = 0
size (String.◌∷◌ c s) = suc (size s)

-- The character of a decimal digit.
digit : ℕ → Char
digit zero = "0"
digit (suc zero) = "1"
digit (suc (suc zero)) = "2"
digit (suc (suc (suc zero))) = "3"
digit (suc (suc (suc (suc zero)))) = "4"
digit (suc (suc (suc (suc (suc zero))))) = "5"
digit (suc (suc (suc (suc (suc (suc zero)))))) = "6"
digit (suc (suc (suc (suc (suc (suc (suc zero))))))) = "7"
digit (suc (suc (suc (suc (suc (suc (suc (suc zero)))))))) = "8"
digit _ = "9"

-- The digits of `n` in front of `out`; the fuel bounds their number.
digits : ℕ → ℕ → String → String
digits zero n out = out
digits (suc f) n out =
    let rest = digits f (n / 10) (String.◌∷◌ (digit (n % 10)) out) in
    if ltb n 10 then String.◌∷◌ (digit n) out else rest

-- A number has fewer digits than `n + 1`.
unfoldable pub to_string : ℕ → String
unfolding digits digit
to_string n = digits (suc n) n ""

-- The number that a text of digits stands for, after the digits read so far.
read : ℕ → String → ℕ
read n String.[] = n
read n (String.◌∷◌ c s) = read (n * 10 + (code c - 48)) s

unfoldable pub is_numeric : String → Bool
is_numeric String.[] = true
is_numeric (String.◌∷◌ c s) = (leb 48 (code c) && leb (code c) 57) && is_numeric s

code-digit : (d : ℕ) → d < 10 → code (digit d) ≡ 48 + d
unfolding digit
code-digit zero h = refl
code-digit (suc zero) h = refl
code-digit (suc (suc zero)) h = refl
code-digit (suc (suc (suc zero))) h = refl
code-digit (suc (suc (suc (suc zero)))) h = refl
code-digit (suc (suc (suc (suc (suc zero))))) h = refl
code-digit (suc (suc (suc (suc (suc (suc zero)))))) h = refl
code-digit (suc (suc (suc (suc (suc (suc (suc zero))))))) h = refl
code-digit (suc (suc (suc (suc (suc (suc (suc (suc zero)))))))) h = refl
code-digit (suc (suc (suc (suc (suc (suc (suc (suc (suc zero))))))))) h = refl
code-digit (suc (suc (suc (suc (suc (suc (suc (suc (suc (suc d)))))))))) h = absurd (omega arith)

read-digits : (f n : ℕ) (out : String) → n < f → read 0 (digits f n out) ≡ read n out
unfolding digits read
read-digits zero n out h = elim h [ ]
read-digits (suc f) n out h = elim (Bool-cases (ltb n 10)) [
  | inl small ↦ rw small (ap (λ m. read m out) (ground (arith, code-digit n)))
  | inr large ↦ rw large (
      read-digits f (n / 10) _ (ground arith)
      ∙ ap (λ m. read m out) (ground (arith, code-digit (n % 10))))
]

is_numeric-digits : (f n : ℕ) (out : String) → n < f → is_numeric (digits f n out) ≡ is_numeric out
unfolding digits is_numeric
is_numeric-digits zero n out h = elim h [ ]
is_numeric-digits (suc f) n out h = elim (Bool-cases (ltb n 10)) [
  | inl small ↦ rw small (ground (arith, code-digit n))
  | inr large ↦
      rw large (is_numeric-digits f (n / 10) _ (ground arith) ∙ ground (arith, code-digit (n % 10)))
]

-- Two numbers with the same decimal text are equal.
pub to_string_inj : (m n : ℕ) → to_string m ≡ to_string n → m ≡ n
unfolding to_string read
to_string_inj m n e =
    sym (read-digits (suc m) m "" (omega arith))
    ∙ ap (read 0) e
    ∙ read-digits (suc n) n "" (omega arith)

-- The decimal text of a number is no text with another character than a digit.
pub to_string-ne : (n : ℕ) (s : String) → is_numeric s ≡ false → to_string n ≢ s
unfolding to_string is_numeric
to_string-ne n s h e =
    let numeric : is_numeric (digits (suc n) n "") ≡ true =
      is_numeric-digits (suc n) n "" (omega arith) in
    let other : is_numeric (digits (suc n) n "") ≡ false = ap is_numeric e ∙ h in ground arith

pub to_string-ne-term : (n : ℕ) → to_string n ≢ "term"
unfolding is_numeric
to_string-ne-term n = to_string-ne n "term" refl

pub to_string-ne-voted_for : (n : ℕ) → to_string n ≢ "voted_for"
unfolding is_numeric
to_string-ne-voted_for n = to_string-ne n "voted_for" refl

pub to_string-ne-apply_index : (n : ℕ) → to_string n ≢ "apply_index"
unfolding is_numeric
to_string-ne-apply_index n = to_string-ne n "apply_index" refl

to_string_1605 : to_string 1605 ≡ "1605"
unfolding to_string
to_string_1605 = refl
