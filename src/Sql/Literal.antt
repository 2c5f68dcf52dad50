-- ===== src/Sql/Literal.antt =====
-- String literals of the lexer: what is quoted is read back.
use Prim.Native.Char.{Char}
use Prim.Native.String.{◌++◌}
use Prim.Native.String.append
use package.text.Mathlib.TextLemmas.{append-nil, append_assoc}
use mynode.Base.{
  String, ◌≡◌, refl, sym, ap, ◌∙◌, Bool, true, false, some, if◌then◌else◌, Bool-cases, inl, inr,
}
use mynode.Base.Result.{ok}
use mynode.Sql.Token.{text}
use mynode.Sql.Lexer.{is_char, push, scan_quoted, scan_string}

-- A text as it stands between quotes, in front of what follows: each quote is written twice.
unfoldable pub escape : String → String → String
escape String.[] after = after
escape (String.◌∷◌ c s) after =
    let rest = escape s after in
    if is_char "'" c then String.◌∷◌ c (String.◌∷◌ c rest) else String.◌∷◌ c rest

abbrev pub quote : String → String
quote after = String.◌∷◌ "'" after

-- Whether the text goes on with a quote.
abbrev pub starts_with_quote : String → Bool
starts_with_quote String.[] = false
starts_with_quote (String.◌∷◌ c s) = is_char "'" c

scan_quoted-plain :
    (c : Char) (value s : String)
    → is_char "'" c ≡ false
    → scan_quoted value (String.◌∷◌ c s) ≡ scan_quoted (push (some c) value) s
unfolding scan_quoted
scan_quoted-plain c value String.[] h = rw h refl
scan_quoted-plain c value (String.◌∷◌ d s) h = rw h refl

scan_quoted-escaped :
    (c d : Char) (value s : String)
    → is_char "'" c ≡ true
    → is_char "'" d ≡ true
    → scan_quoted value (String.◌∷◌ c (String.◌∷◌ d s)) ≡ scan_quoted (push (some d) value) s
unfolding scan_quoted
scan_quoted-escaped c d value s h k = rw (h, k) refl

scan_quoted-closed :
    (value rest : String)
    → starts_with_quote rest ≡ false
    → scan_quoted value (quote rest) ≡ (ok (some (text value)), rest)
unfolding scan_quoted
scan_quoted-closed value String.[] h = refl
scan_quoted-closed value (String.◌∷◌ d rest) h =
    let other : is_char "'" d ≡ false = h in rw other refl

push_append : (c : Char) (value s : String) → push (some c) value ++ s ≡ value ++ String.◌∷◌ c s
push_append c value s =
    append_assoc value (String.◌∷◌ c String.[]) s
    ∙ ap (λ t. value ++ t) (append.cons c String.[] s ∙ ap (String.◌∷◌ c) (append.nil s))

scan_quoted-escape :
    (s value rest : String)
    → starts_with_quote rest ≡ false
    → scan_quoted value (escape s (quote rest)) ≡ (ok (some (text (value ++ s))), rest)
unfolding escape
scan_quoted-escape String.[] value rest h =
    scan_quoted-closed value rest h ∙ ap (λ v. (ok (some (text v)), rest)) (sym (append-nil value))
scan_quoted-escape (String.◌∷◌ c s) value rest h =
    let rec : scan_quoted (push (some c) value) (escape s (quote rest))
        ≡ (ok (some (text (value ++ String.◌∷◌ c s))), rest) =
      scan_quoted-escape s (push (some c) value) rest h
      ∙ ap (λ v. (ok (some (text v)), rest)) (push_append c value s) in
    elim (Bool-cases (is_char "'" c)) [
      | inl doubled ↦
          let first = scan_quoted-escaped c c value (escape s (quote rest)) doubled doubled in
          rw doubled (first ∙ rec)
      | inr plain ↦
          let first = scan_quoted-plain c value (escape s (quote rest)) plain in
          rw plain (first ∙ rec)
    ]

-- A text that is quoted, with each quote in it doubled, is scanned as the string literal of that
-- text, and the rest of the input is left, where it does not start with a quote.
pub scan_string-escape :
    (s rest : String)
    → starts_with_quote rest ≡ false
    → scan_string (quote (escape s (quote rest))) ≡ (ok (some (text s)), rest)
unfolding scan_string
scan_string-escape s rest h =
    scan_quoted-escape s "" rest h ∙ ap (λ v. (ok (some (text v)), rest)) (append.nil s)
