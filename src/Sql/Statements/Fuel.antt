-- ===== src/Sql/Statements/Fuel.antt =====
-- The fuel of the statement parser is enough, and its `unwrap` finds a clause: what a query is
-- parsed to is a statement or an error in the query.
use mynode.Base.{
  ℕ, zero, suc, ◌<◌, ◌&&◌, String, ◌≡◌, refl, Bool, true, false, Option, none, some, List, [], ◌∷◌,
  arith, Bool-cases, inl, inr, if◌then◌else◌,
}
use mynode.Base.Text.{size}
use mynode.Base.Result.{ok, err, Exec, continue, ◌>>=◌, pure, reads, Exec-cases}
use mynode.Sql.Token.{
  Token, keyword, ident, asterisk, comma, open_paren, close_paren, as_word, create_word, drop_word,
  insert_word, into_word, select_word, values_word, from_word,
}
use mynode.Sql.Lexer as Lexer
use mynode.Sql.Ast.{SelectClause, Statement}
use mynode.Sql.Parser.{
  Reader, peek, next, next_ident, next_expect, expect_end, next_if_token, token_eq,
  parse_clause_from, from_clause,
}
use mynode.Sql.Peek.{Item-cases, next_if_lem}
use mynode.Sql.Progress.{Takes-le}
use mynode.Sql.Errors.{Within, next-IsQueryError}
use mynode.Sql.Grammar.{try, expression}
use mynode.Sql.Grammar.Fuel.{
  Within-mono, continue-Within, try-Within, next-Within, next_if-Takes, expression-Within,
}
use mynode.Sql.Statements.{
  is_some, expect, list_rest, list_loop, value_row, value_rows, insert_columns,
  parse_statement_insert, label, select_item, select_items, select_clause, parse_clause_select,
  select_from, parse_statement_select, statement_at, parse_statement, parse,
}
use mynode.Sql.Statements.Reads.{
  Reads, bind-Reads, pure-Reads, try-Reads, comma-Within, next-Reads, expect-Reads,
  expect_end-Reads, next_ident-Reads, peek-Reads, next_if_token-Takes,
}
use mynode.Sql.Statements.Tables.{parse_ddl-Reads}

module _ {F : Type 0} (reader : Reader F) where
  list_rest-Within :
      {A : Type 0} (more : Exec String (List A)) (s : String)
      → Within (suc (size s)) (more s)
      → (t : Token) → Within (suc (size s)) (list_rest reader more t s)
  unfolding list_rest
  list_rest-Within more s h close_paren = omega arith
  list_rest-Within more s h comma = h
  list_rest-Within more s h t = tt

  -- A list in parentheses, from its first item.
  list_loop-Within :
      {A : Type 0} (item : Exec String A)
      → Reads item
      → (g : ℕ) (s : String) → size s < g
      → Within (suc (size s)) (list_loop reader item g s)
  unfolding list_loop list_rest
  list_loop-Within item reads_item zero s h = absurd (omega arith)
  list_loop-Within item reads_item (suc g) s h =
      continue-Within (suc (size s)) (suc (size s)) (item s) _ (reads_item s) (λ x t b.
        continue-Within (suc (size s)) (suc (size s))
          (continue (next reader t).0 (list_rest reader (list_loop reader item g))
            (next reader t).1)
          _
          (continue-Within (size t) (suc (size s)) (next reader t) _ (next-Within reader t)
            (λ token u k. Within-mono (suc (size u)) (suc (size s)) _ (omega arith) (
              list_rest-Within (list_loop reader item g) u
                (list_loop-Within item reads_item g u (omega arith)) token)))
          (λ xs v l. omega arith))

  insert_columns-Reads : (o : Option Token) → Reads (insert_columns reader o)
  unfolding insert_columns
  insert_columns-Reads none s = omega arith
  insert_columns-Reads (some t) s =
      continue-Within (suc (size s)) (suc (size s))
        (list_loop reader (next_ident reader) (suc (size s)) s) _
        (list_loop-Within (next_ident reader) (next_ident-Reads reader) (suc (size s)) s
          (omega arith))
        (λ columns u b. omega arith)

  value_row-Reads : Reads (value_row reader)
  unfolding value_row
  value_row-Reads = bind-Reads (expect reader open_paren) _ (expect-Reads reader open_paren) (λ _ s.
      list_loop-Within (expression reader) (expression-Within reader) (suc (size s)) s
        (omega arith))

  value_rows-Within :
      (g : ℕ) (s : String) → size s < g → Within (suc (size s)) (value_rows reader g s)
  unfolding value_rows
  value_rows-Within zero s h = absurd (omega arith)
  value_rows-Within (suc g) s h =
      continue-Within (suc (size s)) (suc (size s)) (value_row reader s) _ (value_row-Reads s)
        (λ row t b. Within-mono (suc (size t)) (suc (size s)) _ (omega arith) (
          comma-Within (size t) (next_if_token reader comma t)
            (value_rows reader g >>= λ rows. pure (row ∷ rows)) (pure (row ∷ []))
            (next_if_token-Takes reader comma t)
            (λ u k.
              continue-Within (suc (size u)) (suc (size u)) (value_rows reader g u) _
                (value_rows-Within g u (omega arith)) (λ rows v l. omega arith))
            (λ u. omega arith)))

  parse_statement_insert-Reads : Reads (parse_statement_insert reader)
  unfolding parse_statement_insert
  parse_statement_insert-Reads =
      bind-Reads (expect reader (keyword insert_word)) _ (expect-Reads reader (keyword insert_word))
        (λ _.
          bind-Reads (expect reader (keyword into_word)) _ (expect-Reads reader (keyword into_word))
            (λ _. bind-Reads (next_ident reader) _ (next_ident-Reads reader) (λ table.
              bind-Reads (try (next_if_token reader open_paren)) _
                (try-Reads (next_if_token reader open_paren)
                  (next_if_token-Takes reader open_paren))
                (λ paren.
                  bind-Reads (insert_columns reader paren) _ (insert_columns-Reads paren)
                    (λ columns.
                      bind-Reads (expect reader (keyword values_word)) _
                        (expect-Reads reader (keyword values_word))
                        (λ _.
                          bind-Reads (λ s. value_rows reader (suc (size s)) s)
                            (λ rows. pure (Statement.insert table columns rows))
                            (λ s. value_rows-Within (suc (size s)) s (omega arith))
                            (λ rows. pure-Reads (Statement.insert table columns rows))))))))

  label-Reads : (o : Option Token) → Reads (label reader o)
  unfolding label
  label-Reads (some (keyword as_word)) s =
      bind-Reads (next reader) _ (next-Reads reader)
        (λ _. bind-Reads (next_ident reader) _ (next_ident-Reads reader) (λ name t. omega arith)) s
  label-Reads (some (ident _)) s =
      bind-Reads (next_ident reader) _ (next_ident-Reads reader) (λ name t. omega arith) s
  label-Reads o s = omega arith

  select_item-Reads : Reads (select_item reader)
  unfolding select_item
  select_item-Reads = bind-Reads (expression reader) _ (expression-Within reader) (λ e.
      bind-Reads (reads (peek reader)) _ (peek-Reads reader)
        (λ token. bind-Reads (label reader token) _ (label-Reads token) (λ name s. omega arith)))

  select_items-Within :
      (g : ℕ) (first : Bool) (s : String)
      → size s < g
      → Within (suc (size s)) (select_items reader g first s)
  unfolding select_items
  select_items-Within zero first s h = absurd (omega arith)
  select_items-Within (suc g) first s h =
      let star = next_if_token reader asterisk s in
      let left = Takes-le (size s) star (next_if_token-Takes reader asterisk s) in
      let items : Within (suc (size star.1)) (
          (select_item reader >>= λ item. try (next_if_token reader comma) >>= λ more.
          if is_some more
          then (select_items reader g false >>= λ items. pure (item ∷ items))
          else pure (item ∷ []))
            star.1) =
        continue-Within (suc (size star.1)) (suc (size star.1)) (select_item reader star.1) _
          (select_item-Reads star.1)
          (λ item t b. Within-mono (suc (size t)) (suc (size star.1)) _ (omega arith) (
            comma-Within (size t) (next_if_token reader comma t)
              (select_items reader g false >>= λ items. pure (item ∷ items)) (pure (item ∷ []))
              (next_if_token-Takes reader comma t)
              (λ u k.
                continue-Within (suc (size u)) (suc (size u)) (select_items reader g false u) _
                  (select_items-Within g false u (omega arith)) (λ items v l. omega arith))
              (λ u. omega arith))) in
      elim (Bool-cases (is_some star.0 && first)) [
        | inl all ↦ rw (select_items, all) (omega (arith, left))
        | inr some_of ↦
            rw (select_items, some_of)
              (Within-mono (suc (size star.1)) (suc (size s)) _ (omega (arith, left)) items)
      ]

  parse_clause_from-Reads : Reads (parse_clause_from reader)
  unfolding parse_clause_from from_clause
  parse_clause_from-Reads s =
      try-Within (size s) (suc (size s)) (next_if_token reader (keyword from_word) s)
        (from_clause reader) (next_if_token-Takes reader (keyword from_word) s) (λ t b. omega arith)
        (λ token t b.
          Within-mono (suc (size t)) (suc (size s)) _ (omega arith)
            (bind-Reads (next_ident reader) _ (next_ident-Reads reader) (λ table u. omega arith) t))

  select_from-Reads : (clause : SelectClause F) → Reads (select_from reader (some clause))
  unfolding select_from
  select_from-Reads clause =
      bind-Reads (parse_clause_from reader) _ parse_clause_from-Reads (λ from s. omega arith)

  -- A clause that was asked for is one that `unwrap` finds.
  select_rest-Reads : (t : Token) → Reads (select_clause reader (some t) >>= select_from reader)
  unfolding select_clause
  select_rest-Reads t s =
      let items = select_items reader (suc (size s)) true s in
      let left = select_items-Within (suc (size s)) true s (omega arith) in
      elim (Exec-cases items) [
        | inl (xs, u, done) ↦
            let shorter : size u < suc (size s) = rw done at left in
            rw done
              (Within-mono (suc (size u)) (suc (size s)) _ (omega arith) (select_from-Reads _ u))
        | inr (e, u, failed) ↦
            let query : Within {A = Unit} (suc (size s)) (err e, u) = rw failed at left in
            rw failed query
      ]

  parse_statement_select-Within :
      (s : String)
      → (next reader s).0 ≡ ok (keyword select_word)
      → Within (suc (size s)) (parse_statement_select reader s)
  unfolding parse_statement_select parse_clause_select next_if_token
  parse_statement_select-Within s h =
      let is_select = λ (t : Token). token_eq t (keyword select_word) in
      let left = next_if-Takes reader is_select s in
      elim (next_if_lem reader is_select s) [
        | inl (_, other) ↦ absurd (let never = other (keyword select_word) h in cc)
        | inr (t, _, _, taken) ↦
            let s' = (next reader s).1 in
            let shorter : size s' < size s = rw taken at left in
            rw taken (
              Within-mono (suc (size s')) (suc (size s))
                ((select_clause reader (some t) >>= select_from reader) s') (omega arith)
                (select_rest-Reads t s'))
      ]

  statement_at-Within :
      (t : Token) (s : String)
      → (next reader s).0 ≡ ok t
      → Within (suc (size s)) (statement_at reader (some t) s)
  unfolding statement_at
  statement_at-Within (keyword create_word) s h = (parse_ddl-Reads reader) s
  statement_at-Within (keyword drop_word) s h = (parse_ddl-Reads reader) s
  statement_at-Within (keyword insert_word) s h = parse_statement_insert-Reads s
  statement_at-Within (keyword select_word) s h = parse_statement_select-Within s h
  statement_at-Within (keyword k) s h = tt
  statement_at-Within t s h = tt

  parse_statement-Reads : Reads (parse_statement reader)
  unfolding parse_statement peek next statement_at
  parse_statement-Reads s = elim (Item-cases (Lexer.next reader.unicode s).0) [
    | inl end ↦ rw (parse_statement, end) tt
    | inr (inl (t, token)) ↦
        rw (parse_statement, token) (statement_at-Within t s (rw (next, token) refl))
    | inr (inr (e, error)) ↦
        rw (parse_statement, error) (next-IsQueryError reader.unicode s e error)
  ]

  -- Whatever the query, the parser comes to a statement or to an error in the query, of the kinds
  -- Parse and Value: its loops and its recursion end within the fuel that the length of the query
  -- gives them, and the unwrap on the select clause never finds None. A statement leaves no more
  -- characters than the query has.
  pub parse-Within : (query : String) → Within (suc (size query)) (parse reader query)
  unfolding parse next_expect
  parse-Within query =
      bind-Reads (parse_statement reader) _ parse_statement-Reads
        (λ statement.
          bind-Reads (reads (peek reader) >>= expect_end reader) _
            (bind-Reads (reads (peek reader)) (expect_end reader) (peek-Reads reader)
              (expect_end-Reads reader))
            (λ end s. omega arith))
        query
