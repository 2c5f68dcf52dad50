-- ===== src/Sql/Statements/Reads.antt =====
-- The methods of the parser that read a token, and how methods are put together: none leaves more
-- characters than it finds, and its errors are the query's.
use mynode.Base.{
  ℕ, suc, ◌<◌, String, ◌≡◌, Bool, true, false, Option, none, some, arith, Bool-cases, inl, inr,
  if◌then◌else◌,
}
use mynode.Base.Text.{size}
use mynode.Base.Result.{Exec, ◌>>=◌, pure, reads}
use mynode.Sql.Token.{
  Token, Keyword, keyword, ident, boolean_word, integer_word, float_word, varchar_word,
}
use mynode.Sql.Lexer as Lexer
use mynode.Sql.Parser.{
  Reader, peek, next, next_ident, as_ident, next_expect, expect_token, expect_end, next_if_token,
  token_eq,
}
use mynode.Sql.Peek.{Item-cases}
use mynode.Sql.Progress.{Takes, Takes-le}
use mynode.Sql.Errors.{Within, next-IsQueryError}
use mynode.Sql.Grammar.{try}
use mynode.Sql.Grammar.Fuel.{Within-mono, continue-Within, next-Within, next_if-Takes}
use mynode.Sql.Statements.{is_some, keyword_of, as_datatype, expect}

-- A method that leaves no more characters than it finds, where its errors are the query's.
abbrev pub Reads : {A : Type 0} → Exec String A → Type 0
Reads m = (s : String) → Within (suc (size s)) (m s)

-- One after the other.
pub bind-Reads :
    {A B : Type 0} (m : Exec String A) (k : A → Exec String B)
    → Reads m
    → ((a : A) → Reads (k a))
    → Reads (m >>= k)
bind-Reads m k h g s =
    continue-Within (suc (size s)) (suc (size s)) (m s) k (h s)
      (λ a t b. Within-mono (suc (size t)) (suc (size s)) (k a t) (omega arith) (g a t))

pub pure-Reads : {A : Type 0} (a : A) → Reads (pure a)
pure-Reads a s = omega arith

pub if-Reads :
    {A : Type 0} (b : Bool) (m k : Exec String A) → Reads m → Reads k → Reads (if b then m else k)
if-Reads true m k g h = g
if-Reads false m k g h = h

pub try-Reads :
    {A : Type 0} (m : String → Option A × String)
    → ((s : String) → Takes (size s) (m s))
    → Reads (try m)
try-Reads m h s = omega (arith, Takes-le (size s) (m s) (h s))

-- A comma and more of a list, or its end.
pub comma-Within :
    {A : Type 0} (n : ℕ) (r : Option Token × String) (more : Exec String A) (done : Exec String A)
    → Takes n r
    → ((s : String) → size s < n → Within (suc (size s)) (more s))
    → Reads done
    → Within (suc n) ((if is_some r.0 then more else done) r.1)
comma-Within n (none, s) more done h f g = Within-mono (suc (size s)) (suc n) _ (omega arith) (g s)
comma-Within n (some t, s) more done h f g =
    Within-mono (suc (size s)) (suc n) _ (omega arith) (f s h)

pub keyword_of-lt :
    (n : ℕ) (r : Option Token × String) (k : Keyword)
    → keyword_of r.0 ≡ some k
    → Takes n r
    → size r.1 < n
keyword_of-lt n (none, s) k e h = absurd cc
keyword_of-lt n (some t, s) k e h = h

pub as_datatype-Reads : (t : Token) → Reads (as_datatype t)
unfolding as_datatype
as_datatype-Reads (keyword boolean_word) s = omega arith
as_datatype-Reads (keyword integer_word) s = omega arith
as_datatype-Reads (keyword float_word) s = omega arith
as_datatype-Reads (keyword varchar_word) s = omega arith
as_datatype-Reads (keyword k) s = tt
as_datatype-Reads t s = tt

module _ {F : Type 0} (reader : Reader F) where
  pub next-Reads : Reads (next reader)
  next-Reads s =
      Within-mono (size s) (suc (size s)) (next reader s) (omega arith) (next-Within reader s)

  pub expect_token-Reads : (t u : Token) → Reads (expect_token reader t u)
  unfolding expect_token
  expect_token-Reads t u s = elim (Bool-cases (token_eq u t)) [
    | inl same ↦ rw (expect_token, same) (omega arith)
    | inr other ↦ rw (expect_token, other) tt
  ]

  pub expect-Reads : (t : Token) → Reads (expect reader t)
  unfolding expect next_expect
  expect-Reads t =
      bind-Reads (next reader >>= expect_token reader t) _
        (bind-Reads (next reader) (expect_token reader t) next-Reads (expect_token-Reads t))
        (λ a. pure-Reads tt)

  pub expect_end-Reads : (o : Option Token) → Reads (expect_end reader o)
  unfolding expect_end
  expect_end-Reads none s = omega arith
  expect_end-Reads (some t) s = tt

  pub as_ident-Reads : (t : Token) → Reads (as_ident reader t)
  unfolding as_ident
  as_ident-Reads (ident n) s = omega arith
  as_ident-Reads t s = tt

  pub next_ident-Reads : Reads (next_ident reader)
  unfolding next_ident
  next_ident-Reads = bind-Reads (next reader) (as_ident reader) next-Reads as_ident-Reads

  pub peek-Reads : Reads (reads (peek reader))
  unfolding peek
  peek-Reads s = elim (Item-cases (Lexer.next reader.unicode s).0) [
    | inl end ↦ rw (peek, end) (omega arith)
    | inr (inl (t, token)) ↦ rw (peek, token) (omega arith)
    | inr (inr (e, error)) ↦ rw (peek, error) (next-IsQueryError reader.unicode s e error)
  ]

  pub next_if_token-Takes : (t : Token) (s : String) → Takes (size s) (next_if_token reader t s)
  unfolding next_if_token
  next_if_token-Takes t s = next_if-Takes reader _ s
