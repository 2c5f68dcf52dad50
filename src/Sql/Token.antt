-- ===== src/Sql/Token.antt =====
-- sql/parser/lexer.rs: `Token` and `Keyword`, with the texts they are written as.
use mynode.Base.{
  String, ◌≡◌, refl, sym, ap, ◌∙◌, ◌↔◌, Option, none, some, List, [], ◌∷◌, str_eq, eq_iff,
  if◌then◌else◌, Bool-cases, inl, inr, arith,
}

pub data Keyword : Type 0 where
  and_word as_word boolean_word create_word drop_word false_word float_word : Keyword
  from_word insert_word integer_word into_word key_word not_word null_word : Keyword
  or_word primary_word select_word table_word true_word values_word varchar_word : Keyword

pub data Token : Type 0 where
  number text ident : String → Token
  keyword : Keyword → Token
  period equals greater_than greater_than_or_equal less_than less_than_or_equal : Token
  less_or_greater_than plus minus asterisk slash caret percent exclamation : Token
  not_equal question open_paren close_paren comma : Token

-- The arms of the match of `Keyword::from_str`, in their order.
keywords : List (String × Keyword)
keywords =
    ("AS", as_word)
    ∷ ("AND", and_word)
    ∷ ("BOOLEAN", boolean_word)
    ∷ ("CREATE", create_word)
    ∷ ("DROP", drop_word)
    ∷ ("FALSE", false_word)
    ∷ ("FLOAT", float_word)
    ∷ ("FROM", from_word)
    ∷ ("INSERT", insert_word)
    ∷ ("INTO", into_word)
    ∷ ("INTEGER", integer_word)
    ∷ ("KEY", key_word)
    ∷ ("NOT", not_word)
    ∷ ("NULL", null_word)
    ∷ ("OR", or_word)
    ∷ ("PRIMARY", primary_word)
    ∷ ("SELECT", select_word)
    ∷ ("TABLE", table_word)
    ∷ ("TRUE", true_word)
    ∷ ("VALUES", values_word)
    ∷ ("VARCHAR", varchar_word)
    ∷ []

-- A match of a text on string literals: the first arm with that text.
match_arm : String → List (String × Keyword) → Option Keyword
match_arm word [] = none
match_arm word ((literal, k) ∷ arms) = if str_eq literal word then some k else match_arm word arms

-- `Keyword::from_str`; the case mapping of Unicode, `str::to_uppercase`, is a parameter.
unfoldable pub from_str : (String → String) → String → Option Keyword
unfolding keywords match_arm
from_str to_uppercase name = match_arm (to_uppercase name) keywords

-- `Keyword::to_str`.
unfoldable pub to_str : Keyword → String
to_str as_word = "AS"
to_str and_word = "AND"
to_str boolean_word = "BOOLEAN"
to_str create_word = "CREATE"
to_str drop_word = "DROP"
to_str false_word = "FALSE"
to_str float_word = "FLOAT"
to_str from_word = "FROM"
to_str insert_word = "INSERT"
to_str integer_word = "INTEGER"
to_str into_word = "INTO"
to_str key_word = "KEY"
to_str not_word = "NOT"
to_str null_word = "NULL"
to_str or_word = "OR"
to_str primary_word = "PRIMARY"
to_str select_word = "SELECT"
to_str table_word = "TABLE"
to_str true_word = "TRUE"
to_str values_word = "VALUES"
to_str varchar_word = "VARCHAR"

-- `Display` of a token.
unfoldable pub display : Token → String
display (number n) = n
display (text s) = s
display (ident s) = s
display (keyword k) = to_str k
display period = "."
display equals = "="
display greater_than = ">"
display greater_than_or_equal = ">="
display less_than = "<"
display less_than_or_equal = "<="
display less_or_greater_than = "<>"
display plus = "+"
display minus = "-"
display asterisk = "*"
display slash = "/"
display caret = "^"
display percent = "%"
display exclamation = "!"
display not_equal = "!="
display question = "?"
display open_paren = "("
display close_paren = ")"
display comma = ","

match_arm-to_str : (k : Keyword) → match_arm (to_str k) keywords ≡ some k
unfolding match_arm keywords to_str
match_arm-to_str as_word = refl
match_arm-to_str and_word = refl
match_arm-to_str boolean_word = refl
match_arm-to_str create_word = refl
match_arm-to_str drop_word = refl
match_arm-to_str false_word = refl
match_arm-to_str float_word = refl
match_arm-to_str from_word = refl
match_arm-to_str insert_word = refl
match_arm-to_str integer_word = refl
match_arm-to_str into_word = refl
match_arm-to_str key_word = refl
match_arm-to_str not_word = refl
match_arm-to_str null_word = refl
match_arm-to_str or_word = refl
match_arm-to_str primary_word = refl
match_arm-to_str select_word = refl
match_arm-to_str table_word = refl
match_arm-to_str true_word = refl
match_arm-to_str values_word = refl
match_arm-to_str varchar_word = refl

-- Every arm gives the keyword that its literal writes.
abbrev ArmsWrite : List (String × Keyword) → Type 0
ArmsWrite [] = Unit
ArmsWrite ((literal, k) ∷ arms) = (literal ≡ to_str k) × ArmsWrite arms

match_arm_sound :
    (word : String) (k : Keyword) (arms : List (String × Keyword))
    → ArmsWrite arms
    → match_arm word arms ≡ some k
    → word ≡ to_str k
unfolding match_arm
match_arm_sound word k [] w h = cc
match_arm_sound word k ((literal, j) ∷ arms) w h = elim (Bool-cases (str_eq literal word)) [
  | inl same ↦
      let found : j ≡ k = grind (arith, same, h) in
      sym ((eq_iff literal word).0 same) ∙ w.0 ∙ ap to_str found
  | inr other ↦ match_arm_sound word k arms w.1 (grind (arith, other, h))
]

keywords-ArmsWrite : ArmsWrite keywords
unfolding keywords to_str
keywords-ArmsWrite = (
  refl,
  (
    refl,
    (
      refl,
      (
        refl,
        (
          refl,
          (
            refl,
            (
              refl,
              (
                refl,
                (
                  refl,
                  (
                    refl,
                    (
                      refl,
                      (
                        refl,
                        (refl, (refl, (refl, (refl, (refl, (refl, (refl, (refl, (refl, tt))))))))),
                      ),
                    ),
                  ),
                ),
              ),
            ),
          ),
        ),
      ),
    ),
  ),
)

-- A name is read as a keyword exactly where its upper-case form is how that keyword is written.
from_str-to_str :
    (to_uppercase : String → String) (name : String) (k : Keyword)
    → (from_str to_uppercase name ≡ some k) ↔ (to_uppercase name ≡ to_str k)
unfolding from_str
from_str-to_str to_uppercase name k = (
  (λ h. match_arm_sound (to_uppercase name) k keywords keywords-ArmsWrite h),
  (λ e. rw e (match_arm-to_str k)),
)
