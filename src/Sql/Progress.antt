-- ===== src/Sql/Progress.antt =====
-- Every token that the lexer yields takes characters from its input.
use Prim.Native.Char.{Char}
use mynode.Base.{
  ℕ, ◌≤◌, ◌<◌, String, ◌≡◌, Bool, ◌||◌, Option, none, some, arith, Bool-cases, Option-cases, inl,
  inr,
}
use mynode.Base.Text.{size}
use mynode.Base.Result.{Result, ok, err}
use mynode.Sql.Token.{Token}
use mynode.Sql.Lexer.{
  Unicode, is_char, is_digit, next_if, next_if_token, push, take_while, next_while, scan_point,
  scan_exponent, scan_number, scan_quoted, scan_string, extend_symbol, widen, symbol, scan_symbol,
  scan_ident, consume_whitespace, scan_at, scan, no_token, yielded, next,
}

-- What is left is no longer than `n`, and shorter where something was found.
abbrev pub Takes : {A : Type 0} → ℕ → Option A × String → Type 0
Takes n (none, s) = size s ≤ n
Takes n (some _, s) = size s < n

abbrev pub TakesResult : {A : Type 0} → ℕ → Result (Option A) × String → Type 0
TakesResult n (ok none, s) = size s ≤ n
TakesResult n (ok (some _), s) = size s < n
TakesResult n (err _, s) = size s ≤ n

pub next_if-Takes : (p : Char → Bool) (s : String) → Takes (size s) (next_if p s)
unfolding next_if
next_if-Takes p String.[] = omega arith
next_if-Takes p (String.◌∷◌ c s) = elim (Bool-cases (p c)) [
  | inl yes_c ↦ rw yes_c (omega arith)
  | inr no_c ↦ rw no_c (omega arith)
]

take_while-le : (p : Char → Bool) (s : String) → size (take_while p s).1 ≤ size s
unfolding take_while
take_while-le p String.[] = omega arith
take_while-le p (String.◌∷◌ c s) = ground (arith, take_while-le p s)

pub Takes-le : {A : Type 0} (n : ℕ) (r : Option A × String) → Takes n r → size r.1 ≤ n
Takes-le n (none, s) h = h
Takes-le n (some c, s) h = omega arith

pub Takes-lt :
    {A : Type 0} (n : ℕ) (r : Option A × String) (a : A) → r.0 ≡ some a → Takes n r → size r.1 < n
Takes-lt n (none, s) a e h = absurd cc
Takes-lt n (some c, s) a e h = h

scan_point-le : (num s : String) → size (scan_point num s).1 ≤ size s
unfolding scan_point
scan_point-le num s =
    let dot = next_if (is_char ".") s in
    let left = Takes-le (size s) dot (next_if-Takes (is_char ".") s) in
    elim (Option-cases dot.0) [
      | inl absent ↦ rw (scan_point, absent) left
      | inr (c, present) ↦
          rw (scan_point, present) (omega (arith, left, take_while-le is_digit dot.1))
    ]

scan_exponent-le : (num s : String) → size (scan_exponent num s).1 ≤ size s
unfolding scan_exponent
scan_exponent-le num s =
    let is_e = λ (c : Char). is_char "e" c || is_char "E" c in
    let is_sign = λ (c : Char). is_char "+" c || is_char "-" c in
    let exp = next_if is_e s in
    let sign = next_if is_sign exp.1 in
    let left = Takes-le (size s) exp (next_if-Takes is_e s) in
    elim (Option-cases exp.0) [
      | inl absent ↦ rw (scan_exponent, absent) left
      | inr (c, present) ↦
          rw (scan_exponent, present)
            (omega (
              arith,
              left,
              Takes-le (size exp.1) sign (next_if-Takes is_sign exp.1),
              take_while-le is_digit sign.1,
            ))
    ]

-- What a run of characters leaves is shorter, if it took one.
non_empty-Takes : (p : Char → Bool) (s : String) → Takes (size s) (next_while p s)
unfolding next_while take_while
non_empty-Takes p String.[] = omega arith
non_empty-Takes p (String.◌∷◌ c s) = elim (Bool-cases (p c)) [
  | inl taken ↦ rw taken (omega (arith, take_while-le p s))
  | inr left ↦ rw left (omega arith)
]

scan_number-Takes : (s : String) → Takes (size s) (scan_number s)
unfolding scan_number
scan_number-Takes s =
    let num = next_while is_digit s in
    let left = non_empty-Takes is_digit s in
    elim (Option-cases num.0) [
      | inl absent ↦ rw (scan_number, absent) (Takes-le (size s) num left)
      | inr (n, present) ↦
          rw (scan_number, present)
            (omega (
              arith,
              Takes-lt (size s) num n present left,
              scan_point-le n num.1,
              scan_exponent-le (scan_point n num.1).0 (scan_point n num.1).1,
            ))
    ]

scan_quoted-le : (v s : String) → size (scan_quoted v s).1 ≤ size s
unfolding scan_quoted
scan_quoted-le v String.[] = omega arith
scan_quoted-le v (String.◌∷◌ c String.[]) = elim (Bool-cases (is_char "'" c)) [
  | inl quote ↦ rw quote (omega arith)
  | inr other ↦ rw other (omega arith)
]
scan_quoted-le v (String.◌∷◌ c (String.◌∷◌ d s)) =
    let escaped = scan_quoted-le (push (some d) v) s in
    let plain = scan_quoted-le (push (some c) v) (String.◌∷◌ d s) in
    elim (Bool-cases (is_char "'" c)) [
      | inr other ↦ rw other (omega (arith, plain))
      | inl quote ↦ rw quote (elim (Bool-cases (is_char "'" d)) [
        | inl doubled ↦ rw doubled (omega (arith, escaped))
        | inr closed ↦ rw closed (omega arith)
      ])
    ]

TakesResult-lt :
    {A : Type 0} (n : ℕ) (r : Result (Option A) × String) → size r.1 < n → TakesResult n r
TakesResult-lt n (ok none, s) h = omega arith
TakesResult-lt n (ok (some _), s) h = h
TakesResult-lt n (err _, s) h = omega arith

scan_string-TakesResult : (s : String) → TakesResult (size s) (scan_string s)
unfolding scan_string
scan_string-TakesResult s =
    let quote = next_if (is_char "'") s in
    let left = next_if-Takes (is_char "'") s in
    elim (Option-cases quote.0) [
      | inl absent ↦ rw (scan_string, absent) (Takes-le (size s) quote left)
      | inr (c, present) ↦
          rw (scan_string, present)
            (TakesResult-lt (size s) (scan_quoted "" quote.1)
              (omega (arith, Takes-lt (size s) quote c present left, scan_quoted-le "" quote.1)))
    ]

extend_symbol-le :
    (sign : String) (t : Token) (k : String → Token × String) (s : String)
    → ((u : String) → size (k u).1 ≤ size u)
    → size (extend_symbol sign t k s).1 ≤ size s
unfolding extend_symbol
extend_symbol-le sign t k s h =
    let r = next_if (is_char sign) s in
    let left = Takes-le (size s) r (next_if-Takes (is_char sign) s) in
    elim (Option-cases r.0) [
      | inl absent ↦ rw (extend_symbol, absent) (omega (arith, h r.1, left))
      | inr (c, present) ↦ rw (extend_symbol, present) left
    ]

widen-le : (t : Token) (s : String) → size (widen t s).1 ≤ size s
unfolding widen
widen-le Token.exclamation s =
    extend_symbol-le "=" Token.not_equal (λ s. (Token.exclamation, s)) s (λ u. omega arith)
widen-le Token.less_than s =
    let equal = extend_symbol "=" Token.less_than_or_equal (λ s. (Token.less_than, s)) in
    extend_symbol-le ">" Token.less_or_greater_than equal s (λ u.
      extend_symbol-le "=" Token.less_than_or_equal (λ s. (Token.less_than, s)) u
        (λ v. omega arith))
widen-le Token.greater_than s =
    extend_symbol-le "=" Token.greater_than_or_equal (λ s. (Token.greater_than, s)) s
      (λ u. omega arith)
widen-le t s = omega arith

next_if_token-Takes : (k : Char → Option Token) (s : String) → Takes (size s) (next_if_token k s)
unfolding next_if_token
next_if_token-Takes k String.[] = omega arith
next_if_token-Takes k (String.◌∷◌ c s) = elim (Option-cases (k c)) [
  | inl absent ↦ rw (next_if_token, absent) (omega arith)
  | inr (t, present) ↦ rw (next_if_token, present) (omega arith)
]

scan_symbol-Takes : (s : String) → Takes (size s) (scan_symbol s)
unfolding scan_symbol
scan_symbol-Takes s =
    let first = next_if_token symbol s in
    let left = next_if_token-Takes symbol s in
    elim (Option-cases first.0) [
      | inl absent ↦ rw (scan_symbol, absent) (Takes-le (size s) first left)
      | inr (t, present) ↦
          rw (scan_symbol, present)
            (omega (arith, Takes-lt (size s) first t present left, widen-le t first.1))
    ]

TakesResult-some :
    {A : Type 0} (n : ℕ) (r : Result (Option A) × String) (a : A)
    → r.0 ≡ ok (some a)
    → TakesResult n r
    → size r.1 < n
TakesResult-some n (ok none, s) a e h = absurd cc
TakesResult-some n (ok (some b), s) a e h = h
TakesResult-some n (err x, s) a e h = absurd cc

module _ (unicode : Unicode) where
  scan_ident-Takes : (s : String) → Takes (size s) (scan_ident unicode s)
  unfolding scan_ident
  scan_ident-Takes s =
      let first = next_if unicode.is_alphabetic s in
      let left = next_if-Takes unicode.is_alphabetic s in
      let is_more = λ (c : Char). unicode.is_alphanumeric c || is_char "_" c in
      elim (Option-cases first.0) [
        | inl absent ↦ rw (scan_ident, absent) (Takes-le (size s) first left)
        | inr (t, present) ↦
            rw (scan_ident, present)
              (omega (arith, Takes-lt (size s) first t present left, take_while-le is_more first.1))
      ]

  Takes-ok : (n : ℕ) (r : Option Token × String) → Takes n r → TakesResult n (ok r.0, r.1)
  Takes-ok n (none, s) h = h
  Takes-ok n (some t, s) h = h

  scan_at-TakesResult : (s : String) → TakesResult (size s) (scan_at unicode s)
  unfolding scan_at
  scan_at-TakesResult String.[] = omega arith
  scan_at-TakesResult (String.◌∷◌ c rest) =
      let s = String.◌∷◌ c rest in
      elim (Bool-cases (is_char "'" c)) [
        | inl quote ↦ rw quote (scan_string-TakesResult s)
        | inr a ↦ rw a (elim (Bool-cases (is_digit c)) [
          | inl digit ↦ rw digit (Takes-ok (size s) (scan_number s) (scan_number-Takes s))
          | inr b ↦ rw b (elim (Bool-cases (unicode.is_alphabetic c)) [
            | inl letter ↦ rw letter (Takes-ok (size s) (scan_ident unicode s) (scan_ident-Takes s))
            | inr d ↦ rw d (Takes-ok (size s) (scan_symbol s) (scan_symbol-Takes s))
          ])
        ])
      ]

  consume_whitespace-le : (s : String) → size (consume_whitespace unicode s) ≤ size s
  unfolding consume_whitespace
  consume_whitespace-le s =
      Takes-le (size s) (next_while unicode.is_whitespace s)
        (non_empty-Takes unicode.is_whitespace s)

  scan-lt :
      (s : String) (t : Token) → (scan unicode s).0 ≡ ok (some t) → size (scan unicode s).1 < size s
  unfolding scan
  scan-lt s t h =
      let s' = consume_whitespace unicode s in
      omega (
        arith,
        TakesResult-some (size s') (scan_at unicode s') t h (scan_at-TakesResult s'),
        consume_whitespace-le s,
      )

  yielded_ok :
      (r : Result (Option Token)) (s : String) (t : Token)
      → yielded unicode r s ≡ some (ok t)
      → r ≡ ok (some t)
  unfolding yielded no_token
  yielded_ok (ok none) String.[] t h = cc
  yielded_ok (ok none) (String.◌∷◌ c s) t h = absurd cc
  yielded_ok (ok (some u)) s t h = cc
  yielded_ok (err x) s t h = absurd cc

  -- A token that is yielded takes at least one character from the input.
  pub next-lt :
      (s : String) (t : Token) → (next unicode s).0 ≡ some (ok t) → size (next unicode s).1 < size s
  unfolding next
  next-lt s t h = scan-lt s t (yielded_ok (scan unicode s).0 (scan unicode s).1 t h)
