-- ===== src/Sql/Statements/Tables.antt =====
-- CREATE TABLE and DROP TABLE in the parser: the fuel of their loops is enough.
use mynode.Base.{ℕ, zero, suc, ◌<◌, String, [], ◌∷◌, arith, Option-cases, inl, inr}
use mynode.Base.Text.{size}
use mynode.Base.Result.{◌>>=◌, pure}
use mynode.Sql.Token.{
  Token, Keyword, keyword, comma, open_paren, close_paren, create_word, drop_word, key_word,
  not_word, null_word, primary_word, table_word,
}
use mynode.Sql.Ast.{ColumnSpec}
use mynode.Sql.Parser.{
  Reader, next, next_ident, next_if_token, next_if_keyword, parse_ddl_drop_table,
}
use mynode.Sql.Progress.{Takes, Takes-le}
use mynode.Sql.Errors.{Within}
use mynode.Sql.Grammar.Fuel.{Within-mono, continue-Within, next_if-Takes}
use mynode.Sql.Statements.{
  keyword_of, as_datatype, is_nullable, is_not_nullable, expect, column_keyword, column_keywords,
  parse_ddl_columnspec, columnspecs, parse_ddl_create_table, parse_ddl, ddl, ddl_create, ddl_drop,
}
use mynode.Sql.Statements.Reads.{
  Reads, bind-Reads, if-Reads, comma-Within, keyword_of-lt, as_datatype-Reads, next-Reads,
  expect-Reads, next_ident-Reads, next_if_token-Takes,
}

module _ {F : Type 0} (reader : Reader F) where
  pub column_keyword-Reads : (k : Keyword) (c : ColumnSpec) → Reads (column_keyword reader k c)
  unfolding column_keyword
  column_keyword-Reads primary_word c =
      bind-Reads (expect reader (keyword key_word)) _ (expect-Reads reader (keyword key_word))
        (λ _ s. omega arith)
  column_keyword-Reads null_word c =
      if-Reads (is_not_nullable c.nullable) _ _ (λ s. tt) (λ s. omega arith)
  column_keyword-Reads not_word c =
      bind-Reads (expect reader (keyword null_word)) _ (expect-Reads reader (keyword null_word))
        (λ _. if-Reads (is_nullable c.nullable) _ _ (λ s. tt) (λ s. omega arith))
  column_keyword-Reads k c = λ s. tt

  pub column_keywords-Within :
      (g : ℕ) (c : ColumnSpec) (s : String)
      → size s < g
      → Within (suc (size s)) (column_keywords reader g c s)
  unfolding column_keywords next_if_keyword
  column_keywords-Within zero c s h = absurd (omega arith)
  column_keywords-Within (suc g) c s h =
      let r = next_if_keyword reader s in
      let left : Takes (size s) r = next_if-Takes reader _ s in
      elim (Option-cases (keyword_of r.0)) [
        | inl absent ↦ rw (column_keywords, absent) (omega (arith, Takes-le (size s) r left))
        | inr (k, present) ↦
            let shorter = keyword_of-lt (size s) r k present left in
            rw (column_keywords, present)
              (continue-Within (suc (size r.1)) (suc (size s)) (column_keyword reader k c r.1) _
                (column_keyword-Reads k c r.1)
                (λ d t b.
                  Within-mono (suc (size t)) (suc (size s)) _ (omega arith)
                    (column_keywords-Within g d t (omega arith))))
      ]

  pub parse_ddl_columnspec-Reads : Reads (parse_ddl_columnspec reader)
  unfolding parse_ddl_columnspec
  parse_ddl_columnspec-Reads = bind-Reads (next_ident reader) _ (next_ident-Reads reader) (λ name.
      bind-Reads (next reader >>= as_datatype) _
        (bind-Reads (next reader) as_datatype (next-Reads reader) as_datatype-Reads)
        (λ datatype s. column_keywords-Within (suc (size s)) _ s (omega arith)))

  pub columnspecs-Within :
      (g : ℕ) (s : String) → size s < g → Within (suc (size s)) (columnspecs reader g s)
  unfolding columnspecs
  columnspecs-Within zero s h = absurd (omega arith)
  columnspecs-Within (suc g) s h =
      continue-Within (suc (size s)) (suc (size s)) (parse_ddl_columnspec reader s) _
        (parse_ddl_columnspec-Reads s)
        (λ column t b. Within-mono (suc (size t)) (suc (size s)) _ (omega arith) (
          comma-Within (size t) (next_if_token reader comma t)
            (columnspecs reader g >>= λ columns. pure (column ∷ columns)) (pure (column ∷ []))
            (next_if_token-Takes reader comma t)
            (λ u k.
              continue-Within (suc (size u)) (suc (size u)) (columnspecs reader g u) _
                (columnspecs-Within g u (omega arith)) (λ cs v l. omega arith))
            (λ u. omega arith)))

  pub parse_ddl_create_table-Reads : Reads (parse_ddl_create_table reader)
  unfolding parse_ddl_create_table
  parse_ddl_create_table-Reads = bind-Reads (next_ident reader) _ (next_ident-Reads reader) (λ name.
      bind-Reads (expect reader open_paren) _ (expect-Reads reader open_paren) (λ _.
        bind-Reads (λ s. columnspecs reader (suc (size s)) s) _
          (λ s. columnspecs-Within (suc (size s)) s (omega arith))
          (λ columns.
            bind-Reads (expect reader close_paren) _ (expect-Reads reader close_paren)
              (λ _ s. omega arith))))

  pub parse_ddl_drop_table-Reads : Reads (parse_ddl_drop_table reader)
  unfolding parse_ddl_drop_table
  parse_ddl_drop_table-Reads =
      bind-Reads (next_ident reader) _ (next_ident-Reads reader) (λ name s. omega arith)

  pub ddl_create-Reads : (t : Token) → Reads (ddl_create reader t)
  unfolding ddl_create
  ddl_create-Reads (keyword table_word) s = parse_ddl_create_table-Reads s
  ddl_create-Reads (keyword k) s = tt
  ddl_create-Reads t s = tt

  pub ddl_drop-Reads : (t : Token) → Reads (ddl_drop reader t)
  unfolding ddl_drop
  ddl_drop-Reads (keyword table_word) s = parse_ddl_drop_table-Reads s
  ddl_drop-Reads (keyword k) s = tt
  ddl_drop-Reads t s = tt

  pub ddl-Reads : (t : Token) → Reads (ddl reader t)
  unfolding ddl
  ddl-Reads (keyword create_word) s =
      bind-Reads (next reader) _ (next-Reads reader) ddl_create-Reads s
  ddl-Reads (keyword drop_word) s = bind-Reads (next reader) _ (next-Reads reader) ddl_drop-Reads s
  ddl-Reads (keyword k) s = tt
  ddl-Reads t s = tt

  pub parse_ddl-Reads : Reads (parse_ddl reader)
  unfolding parse_ddl
  parse_ddl-Reads = bind-Reads (next reader) (ddl reader) (next-Reads reader) ddl-Reads
