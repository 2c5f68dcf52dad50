-- ===== src/Sql/Lexer.antt =====
-- sql/parser/lexer.rs: `Lexer`, whose state is the input that is left.
use Prim.Native.Char.{Char, code}
use Prim.Native.String.{◌++◌}
use mynode.Base.{
  String, [], ◌∷◌, Bool, false, ◌&&◌, ◌||◌, Option, none, some, leb, ◌==◌, if◌then◌else◌,
}
use mynode.Base.Text.{format}
use mynode.Base.Result.{Result, ok, err, parse}
use mynode.Sql.Token.{
  Token, number, text, ident, keyword, period, equals, greater_than, greater_than_or_equal,
  less_than, less_than_or_equal, less_or_greater_than, plus, minus, asterisk, slash, caret, percent,
  exclamation, not_equal, question, open_paren, close_paren, comma, from_str,
}

-- What the standard library reads from the tables of Unicode.
pub record Unicode : Type 0 where
  pub is_whitespace : Char → Bool
  pub is_alphabetic : Char → Bool
  pub is_alphanumeric : Char → Bool
  pub to_uppercase : String → String

abbrev pub is_char : String → Char → Bool
is_char String.[] c = false
is_char (String.◌∷◌ d s) c = code d == code c

-- `c.is_digit(10)`.
abbrev pub is_digit : Char → Bool
is_digit c = leb 48 (code c) && leb (code c) 57

abbrev pub push : Option Char → String → String
push none s = s
push (some c) s = s ++ String.◌∷◌ c String.[]

unfoldable pub next_if : (Char → Bool) → String → Option Char × String
next_if predicate String.[] = (none, String.[])
next_if predicate (String.◌∷◌ c rest) =
    if predicate c then (some c, rest) else (none, String.◌∷◌ c rest)

unfoldable pub next_if_token : (Char → Option Token) → String → Option Token × String
next_if_token tokenizer String.[] = (none, String.[])
next_if_token tokenizer (String.◌∷◌ c rest) = elim (tokenizer c) [
  | none ↦ (none, String.◌∷◌ c rest)
  | some token ↦ (some token, rest)
]

-- The characters that are taken while the predicate holds, and what is left.
unfoldable pub take_while : (Char → Bool) → String → String × String
take_while predicate String.[] = (String.[], String.[])
take_while predicate (String.◌∷◌ c rest) =
    let r = take_while predicate rest in
    if predicate c then (String.◌∷◌ c r.0, r.1) else (String.[], String.◌∷◌ c rest)

abbrev pub non_empty : String → Option String
non_empty String.[] = none
non_empty s = some s

unfoldable pub next_while : (Char → Bool) → String → Option String × String
unfolding take_while
next_while predicate s = let r = take_while predicate s in (non_empty r.0, r.1)

-- A character that is optional, and then what is scanned after it, with the text so far.
unfoldable pub scan_point : String → String → String × String
unfolding next_if take_while
scan_point num s =
    let sep = next_if (is_char ".") s in
    elim sep.0 [
      | none ↦ (num, sep.1)
      | some c ↦ let dec = take_while is_digit sep.1 in (push (some c) num ++ dec.0, dec.1)
    ]

unfoldable pub scan_exponent : String → String → String × String
unfolding next_if take_while
scan_exponent num s =
    let exp = next_if (λ c. is_char "e" c || is_char "E" c) s in
    elim exp.0 [
      | none ↦ (num, exp.1)
      | some c ↦
          let sign = next_if (λ c. is_char "+" c || is_char "-" c) exp.1 in
          let dec = take_while is_digit sign.1 in (push sign.0 (push (some c) num) ++ dec.0, dec.1)
    ]

unfoldable pub scan_number : String → Option Token × String
unfolding next_while scan_point scan_exponent
scan_number s =
    let num = next_while is_digit s in
    elim num.0 [
      | none ↦ (none, num.1)
      | some n ↦
          let point = scan_point n num.1 in
          let all = scan_exponent point.0 point.1 in (some (number all.0), all.1)
    ]

-- The loop of `scan_string`, after the opening quote: a doubled quote is a quote in the text.
unfoldable pub scan_quoted : String → String → Result (Option Token) × String
scan_quoted s String.[] = (err (parse "Unexpected end of string literal"), String.[])
scan_quoted s (String.◌∷◌ c String.[]) =
    if is_char "'" c
    then (ok (some (text s)), String.[])
    else (err (parse "Unexpected end of string literal"), String.[])
scan_quoted s (String.◌∷◌ c (String.◌∷◌ d rest)) =
    let closed : Result (Option Token) × String = (ok (some (text s)), String.◌∷◌ d rest) in
    let escaped : Result (Option Token) × String = scan_quoted (push (some d) s) rest in
    let plain : Result (Option Token) × String =
      scan_quoted (push (some c) s) (String.◌∷◌ d rest) in
    if is_char "'" c then (if is_char "'" d then escaped else closed) else plain

unfoldable pub scan_string : String → Result (Option Token) × String
unfolding next_if scan_quoted
scan_string s =
    let quote = next_if (is_char "'") s in
    elim quote.0 [ none ↦ (ok none, quote.1) | some _ ↦ scan_quoted "" quote.1 ]

-- The tokens of one character.
unfoldable pub symbol : Char → Option Token
symbol c =
    if is_char "." c
    then some period
    else if is_char "=" c
    then some equals
    else if is_char ">" c
    then some greater_than
    else if is_char "<" c
    then some less_than
    else if is_char "+" c
    then some plus
    else if is_char "-" c
    then some minus
    else if is_char "*" c
    then some asterisk
    else if is_char "/" c
    then some slash
    else if is_char "^" c
    then some caret
    else if is_char "%" c
    then some percent
    else if is_char "!" c
    then some exclamation
    else if is_char "?" c
    then some question
    else if is_char "(" c
    then some open_paren
    else if is_char ")" c
    then some close_paren
    else if is_char "," c
    then some comma
    else none

-- `longer` where the next character is the one given, and else what `otherwise` makes.
unfoldable pub extend_symbol : String → Token → (String → Token × String) → String → Token × String
unfolding next_if
extend_symbol sign longer otherwise s =
    let r = next_if (is_char sign) s in elim r.0 [ some _ ↦ (longer, r.1) | none ↦ otherwise r.1 ]

-- The tokens of two characters.
unfoldable pub widen : Token → String → Token × String
unfolding extend_symbol
widen exclamation s = extend_symbol "=" not_equal (λ s. (exclamation, s)) s
widen less_than s =
    extend_symbol ">" less_or_greater_than
      (extend_symbol "=" less_than_or_equal (λ s. (less_than, s))) s
widen greater_than s = extend_symbol "=" greater_than_or_equal (λ s. (greater_than, s)) s
widen token s = (token, s)

unfoldable pub scan_symbol : String → Option Token × String
unfolding next_if_token symbol widen
scan_symbol s =
    let first = next_if_token symbol s in
    elim first.0 [
      | none ↦ (none, first.1)
      | some token ↦ let r = widen token first.1 in (some r.0, r.1)
    ]

module _ (unicode : Unicode) where
  -- A keyword where the name is one, else an identifier.
  unfoldable pub name_token : String → Token
  name_token name = elim (from_str unicode.to_uppercase name) [
    | some k ↦ keyword k
    | none ↦ ident name
  ]

  unfoldable pub scan_ident : String → Option Token × String
  unfolding next_if take_while name_token
  scan_ident s =
      let first = next_if unicode.is_alphabetic s in
      elim first.0 [
        | none ↦ (none, first.1)
        | some c ↦
            let more = take_while (λ c. unicode.is_alphanumeric c || is_char "_" c) first.1 in
            (some (name_token (String.◌∷◌ c more.0)), more.1)
      ]

  unfoldable pub consume_whitespace : String → String
  unfolding next_while
  consume_whitespace s = (next_while unicode.is_whitespace s).1

  unfoldable pub scan_at : String → Result (Option Token) × String
  scan_at String.[] = (ok none, String.[])
  scan_at (String.◌∷◌ c rest) =
      let s = String.◌∷◌ c rest in
      if is_char "'" c
      then scan_string s
      else if is_digit c
      then (let r = scan_number s in (ok r.0, r.1))
      else if unicode.is_alphabetic c
      then (let r = scan_ident s in (ok r.0, r.1))
      else (let r = scan_symbol s in (ok r.0, r.1))

  unfoldable pub scan : String → Result (Option Token) × String
  unfolding scan_at
  scan s = scan_at (consume_whitespace s)

  -- What the iterator yields when no token was found.
  unfoldable pub no_token : String → Option (Result Token)
  no_token String.[] = none
  no_token (String.◌∷◌ c rest) =
      some (err (parse (format ("Unexpected character " ∷ String.◌∷◌ c String.[] ∷ []))))

  unfoldable pub yielded : Result (Option Token) → String → Option (Result Token)
  yielded (ok (some token)) s = some (ok token)
  yielded (ok none) s = no_token s
  yielded (err e) s = some (err e)

  unfoldable pub next : String → Option (Result Token) × String
  unfolding no_token yielded
  next s = let r = scan s in (yielded r.0 r.1, r.1)
