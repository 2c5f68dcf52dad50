-- ===== src/Sql/Peek.antt =====
-- What the parser takes when it looks at a token before it takes it.
use mynode.Base.{
  String, ◌≡◌, refl, sym, ap, ◌∙◌, Bool, true, false, Option, none, some, ◌⊎◌, inl, inr, Bool-cases,
}
use mynode.Base.Result.{Error, Result, ok, err}
use mynode.Sql.Token.{Token}
use mynode.Sql.Lexer as Lexer
use mynode.Sql.Parser.{Reader, next, next_if, peek, next_ok}

pub Item-cases :
    (o : Option (Result Token))
    → (o ≡ none) ⊎ (((t : Token) × (o ≡ some (ok t))) ⊎ ((e : Error) × (o ≡ some (err e))))
Item-cases none = inl refl
Item-cases (some (ok t)) = inr (inl (t, refl))
Item-cases (some (err e)) = inr (inr (e, refl))

-- The test of a token that was read.
abbrev accepts : (Token → Bool) → Result Token → Bool
accepts predicate (ok t) = predicate t
accepts predicate (err _) = false

module _ {F : Type 0} (reader : Reader F) where
  -- A test of the next token takes nothing where there is no token or it fails the test, and
  -- otherwise takes exactly the token that comes next.
  pub next_if_lem :
      (predicate : Token → Bool) (s : String)
      → (((next_if reader predicate s ≡ (none, s))
            × ((t : Token) → (next reader s).0 ≡ ok t → predicate t ≡ false))
          ⊎ ((t : Token) × ((next reader s).0 ≡ ok t)
              × (predicate t ≡ true)
              × (next_if reader predicate s ≡ (some t, (next reader s).1))))
  unfolding next_if next peek
  next_if_lem predicate s = elim (Item-cases (Lexer.next reader.unicode s).0) [
    | inl end ↦ inl (rw (next_if, end) refl, rw end (λ t h. absurd cc))
    | inr (inl (t, token)) ↦ elim (Bool-cases (predicate t)) [
      | inl passes ↦
          let taken : (next reader s).0 ≡ ok t = rw token refl in
          inr (
            t,
            taken,
            passes,
            rw (next_if, token, passes)
                (ap (λ o. (o, (next reader s).1)) (ap (next_ok reader) taken)),
          )
      | inr fails ↦ inl (
        rw (next_if, token, fails) refl,
        rw token (λ u h. ap (accepts predicate) (sym h) ∙ fails),
      )
    ]
    | inr (inr (e, error)) ↦ inl (rw (next_if, error) refl, rw error (λ t h. absurd cc))
  ]
