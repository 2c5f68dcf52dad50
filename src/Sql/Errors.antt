-- ===== src/Sql/Errors.antt =====
-- The errors of the lexer, and what a method of the parser leaves and returns.
use Prim.{⊥}
use mynode.Base.{ℕ, ◌<◌, String, ◌≡◌, Option, none, some, Bool-cases, Option-cases, inl, inr}
use mynode.Base.Text.{size}
use mynode.Base.Result.{Error, Result, ok, err, parse, value}
use mathlib.Core.Path.{subst}
use mynode.Sql.Token.{Token}
use mynode.Sql.Lexer.{
  Unicode, is_char, is_digit, next_if, push, scan_quoted, scan_string, scan_at, scan,
  consume_whitespace, no_token, yielded, next,
}

-- The errors that are the fault of a query.
abbrev pub IsQueryError : Error → Type 0
IsQueryError (parse _) = Unit
IsQueryError (value _) = Unit
IsQueryError _ = ⊥

-- A success leaves fewer than `n` characters; an error is the fault of the query.
abbrev pub Within : {A : Type 0} → ℕ → Result A × String → Type 0
Within n (ok _, s) = size s < n
Within n (err e, s) = IsQueryError e

abbrev ErrorIn : {A : Type 0} → Result A → Type 0
ErrorIn (ok _) = Unit
ErrorIn (err e) = IsQueryError e

scan_quoted-ErrorIn : (v s : String) → ErrorIn (scan_quoted v s).0
unfolding scan_quoted
scan_quoted-ErrorIn v String.[] = tt
scan_quoted-ErrorIn v (String.◌∷◌ c String.[]) = elim (Bool-cases (is_char "'" c)) [
  | inl quote ↦ rw quote tt
  | inr other ↦ rw other tt
]
scan_quoted-ErrorIn v (String.◌∷◌ c (String.◌∷◌ d s)) =
    let escaped = scan_quoted-ErrorIn (push (some d) v) s in
    let plain = scan_quoted-ErrorIn (push (some c) v) (String.◌∷◌ d s) in
    elim (Bool-cases (is_char "'" c)) [
      | inr other ↦ rw other plain
      | inl quote ↦ rw quote (elim (Bool-cases (is_char "'" d)) [
        | inl doubled ↦ rw doubled escaped
        | inr closed ↦ rw closed tt
      ])
    ]

scan_string-ErrorIn : (s : String) → ErrorIn (scan_string s).0
unfolding scan_string
scan_string-ErrorIn s =
    let first = next_if (is_char "'") s in
    elim (Option-cases first.0) [
      | inl absent ↦ rw (scan_string, absent) tt
      | inr (c, present) ↦ rw (scan_string, present) (scan_quoted-ErrorIn "" first.1)
    ]

module _ (unicode : Unicode) where
  scan_at-ErrorIn : (s : String) → ErrorIn (scan_at unicode s).0
  unfolding scan_at
  scan_at-ErrorIn String.[] = tt
  scan_at-ErrorIn (String.◌∷◌ c rest) = elim (Bool-cases (is_char "'" c)) [
    | inl quote ↦ rw quote (scan_string-ErrorIn (String.◌∷◌ c rest))
    | inr a ↦ rw a (elim (Bool-cases (is_digit c)) [
      | inl digit ↦ rw digit tt
      | inr b ↦ rw b (elim (Bool-cases (unicode.is_alphabetic c)) [
        | inl letter ↦ rw letter tt
        | inr d ↦ rw d tt
      ])
    ])
  ]

  abbrev ErrorInItem : Option (Result Token) → Type 0
  ErrorInItem none = Unit
  ErrorInItem (some r) = ErrorIn r

  yielded-ErrorIn :
      (r : Result (Option Token)) (s : String) → ErrorIn r → ErrorInItem (yielded unicode r s)
  unfolding yielded no_token
  yielded-ErrorIn (ok none) String.[] h = tt
  yielded-ErrorIn (ok none) (String.◌∷◌ c s) h = tt
  yielded-ErrorIn (ok (some t)) s h = tt
  yielded-ErrorIn (err e) s h = h

  -- The lexer's errors are errors in the query.
  pub next-IsQueryError :
      (s : String) (e : Error) → (next unicode s).0 ≡ some (err e) → IsQueryError e
  unfolding next scan
  next-IsQueryError s e h =
      let r = scan unicode s in
      let item = yielded-ErrorIn r.0 r.1 (scan_at-ErrorIn (consume_whitespace unicode s)) in
      subst ErrorInItem h item
