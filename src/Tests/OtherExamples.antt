-- ===== src/Tests/OtherExamples.antt =====
-- The theorems of the store in memory and of the lexer, at concrete inputs.
use Prim.Native.Char.{code}
use mynode.Base.{ℕ, leb, ◌≡◌, refl, some, List, [], ◌∷◌, map}
use mynode.Base.Result.{ok}
use mynode.Store.{KvPair}
use mynode.Store.KvMemory.{iter_prefix, iter_prefix-extends, keep, extends}
use mynode.Sql.Token.{text}
use mynode.Sql.Lexer.{scan_string}
use mynode.Sql.Lexer.{Unicode, is_char}
use mynode.Sql.Parser.{Reader}
use mynode.Sql.Literal.{scan_string-escape, quote, escape}

abbrev pairs : List KvPair
pairs = ("ab", 1 ∷ []) ∷ ("b", 2 ∷ []) ∷ []

iter_prefix-extends_example :
    iter_prefix "a" (record { pairs = pairs }) ≡ map ok (keep (extends "a") pairs)
iter_prefix-extends_example = iter_prefix-extends "a" (record { pairs = pairs })

scan_string-escape_example :
    scan_string (quote (escape "it's" (quote " x"))) ≡ (ok (some (text "it's")), " x")
scan_string-escape_example = scan_string-escape "it's" " x" refl

-- Letters are the characters that are neither digits, blanks nor signs, as far as the example needs it.
abbrev pub ascii : Unicode
ascii = record {
  is_whitespace = is_char " ";
  is_alphabetic = λ c. leb 65 (code c);
  is_alphanumeric = λ c. leb 65 (code c);
  to_uppercase = λ s. s;
}

abbrev pub reader : Reader ℕ
reader = record { unicode = ascii; parse_float = λ s. some 0 }
