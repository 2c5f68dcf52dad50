-- ===== src/Sql/Storage/Keys.antt =====
-- The keys of tables and rows. A name without a period, which is what the lexer reads as an
-- identifier, can be read off the key of a row.
use Prim.Native.Char.{Char, code}
use Prim.Native.String.{◌++◌}
use Prim.Native.String.append as append_laws
use text.Mathlib.TextLemmas.{
  append_cancel_left, append_cancel_right, append_assoc, append-nil as append-nil_right,
}
use mynode.Base.{
  String, ◌≡◌, refl, sym, ap, ◌∙◌, Bool, true, false, not, ◌&&◌, ◌||◌, ◌==◌, ==_iff, ==-refl, ltb,
  if◌then◌else◌, eq_iff, arith, Bool-cases, inl, inr,
}
use mynode.Store.KvMemory.{extends, compare-cons}
use mynode.Sql.Storage.{key_table, key_row}

abbrev is_period : Char → Bool
is_period c = code c == 46

unfoldable pub has_period : String → Bool
has_period String.[] = false
has_period (String.◌∷◌ c s) = is_period c || has_period s

abbrev first : Char → String → Char
first c String.[] = c
first _ (String.◌∷◌ d _) = d

-- The characters in front of the first period.
unfoldable pub before_period : String → String
before_period String.[] = ""
before_period (String.◌∷◌ c s) =
    let rest = before_period s in if is_period c then "" else String.◌∷◌ c rest

both_true : (a b : Bool) → (a && b) ≡ true → (a ≡ true) × (b ≡ true)
both_true true b h = (refl, h)
both_true false b h = absurd cc

both : (a b : Bool) → a ≡ true → b ≡ true → (a && b) ≡ true
both true b h g = g
both false b h g = h

both_false : (a b : Bool) → (a || b) ≡ false → (a ≡ false) × (b ≡ false)
both_false false b h = (refl, h)
both_false true b h = absurd cc

append-cons : (c : Char) (s t : String) → String.◌∷◌ c s ++ t ≡ String.◌∷◌ c (s ++ t)
append-cons c s t = λ i. append_laws.cons c s t i

append-nil : (t : String) → "" ++ t ≡ t
append-nil t = λ i. append_laws.nil t i

before_period-period : (s : String) → before_period ("." ++ s) ≡ ""
unfolding before_period
before_period-period s = rw (append-cons "." "" s) refl

before_period-append : (a s : String) → has_period a ≡ false → before_period (a ++ ("." ++ s)) ≡ a
unfolding before_period has_period
before_period-append String.[] s h = rw (append-nil ("." ++ s)) (before_period-period s)
before_period-append (String.◌∷◌ c a) s h = elim (Bool-cases (is_period c)) [
  | inl period ↦ absurd (let never : true ≡ false = rw period at h in cc)
  | inr other ↦
      let more : has_period a ≡ false = rw other at h in
      rw (append-cons c a ("." ++ s), other) (ap (String.◌∷◌ c) (before_period-append a s more))
]

-- The name of the table can be read off the key of a row, and then the value of the primary key.
pub before_period-key_row :
    (table id : String) → has_period table ≡ false → before_period (key_row table id) ≡ table
unfolding key_row
before_period-key_row table id h = before_period-append table (id ++ "") h

-- Rows have the same key only where their tables have the same name and their primary keys are
-- displayed alike, for names without a period.
pub key_row_inj :
    (a b i j : String)
    → has_period a ≡ false
    → has_period b ≡ false
    → key_row a i ≡ key_row b j
    → (a ≡ b) × (i ≡ j)
unfolding key_row
key_row_inj a b i j h k e =
    let same : a ≡ b =
      sym (before_period-key_row a i h) ∙ ap before_period e ∙ before_period-key_row b j k in
    let rest : a ++ ("." ++ (i ++ "")) ≡ a ++ ("." ++ (j ++ "")) =
      e ∙ ap (λ t. t ++ ("." ++ (j ++ ""))) (sym same) in
    (same, append_cancel_right i j "" (append_cancel_left "." _ _ (append_cancel_left a _ _ rest)))

-- A row has the key of a table only where its table is named `schema`.
pub key_row-key_table :
    (a i b : String)
    → has_period a ≡ false
    → key_row a i ≡ key_table b
    → (a ≡ "schema") × (i ≡ "table." ++ b)
unfolding key_table key_row has_period
key_row-key_table a i b h e =
    let rest = b ++ "" in
    let inner : ".table" ++ ("." ++ rest) ≡ "." ++ (("table." ++ b) ++ "") =
      sym (append_assoc ".table" "." rest)
      ∙ append_assoc "." "table." rest
      ∙ ap (λ t. "." ++ t) (sym (append_assoc "table." b "")) in
    let key : key_table b ≡ key_row "schema" ("table." ++ b) =
      append_assoc "schema" ".table" ("." ++ rest) ∙ ap (λ t. "schema" ++ t) inner in
    key_row_inj a "schema" i ("table." ++ b) h refl (e ∙ key)

-- Characters with the same code are the same.
code_inj : (c d : Char) → code c ≡ code d → c ≡ d
code_inj c d h =
    let texts : String.◌∷◌ c "" ≡ String.◌∷◌ d "" =
      (eq_iff (String.◌∷◌ c "") (String.◌∷◌ d "")).0 (rw (compare-cons c d "" "") (ground arith)) in
    ap (first c) texts

-- A key that starts with a name and a period belongs to that name.
pub extends-before_period :
    (a k : String) → has_period a ≡ false → extends (a ++ ".") k ≡ true → before_period k ≡ a
unfolding extends before_period has_period
extends-before_period String.[] String.[] h e = absurd (let never : false ≡ true = e in cc)
extends-before_period (String.◌∷◌ d a) String.[] h e =
    absurd (let never : false ≡ true = rw (append-cons d a ".") at e in cc)
extends-before_period String.[] (String.◌∷◌ c k) h e =
    let same : ((46 == code c) && extends "" k) ≡ true = e in
    let first = (both_true (46 == code c) (extends "" k) same).0 in
    let period : is_period c ≡ true = ground arith in rw period refl
extends-before_period (String.◌∷◌ d a) (String.◌∷◌ c k) h e =
    let same : ((code d == code c) && extends (a ++ ".") k) ≡ true =
      rw (append-cons d a ".") at e in
    let (equal, more) = both_true (code d == code c) (extends (a ++ ".") k) same in
    let (other, none) = both_false (is_period d) (has_period a) h in
    let codes : code d ≡ code c = (==_iff (code d) (code c)).0 equal in
    let other_c : is_period c ≡ false = ap (λ n. n == 46) (sym codes) ∙ other in
    rw other_c (
      ap (λ c. String.◌∷◌ c (before_period k)) (code_inj c d (sym codes))
      ∙ ap (String.◌∷◌ d) (extends-before_period a k none more))

-- A key of a table's row starts with the table's name and a period.
extends-append : (a s : String) → extends "" s ≡ true → extends (a ++ ".") (a ++ ("." ++ s)) ≡ true
unfolding extends
extends-append String.[] s h =
    rw (append-nil ("." ++ s), append-nil ".", append-cons "." "" s, append-nil s) h
extends-append (String.◌∷◌ c a) s h =
    rw (append-cons c a ".", append-cons c a ("." ++ s))
      ((both (code c == code c) (extends (a ++ ".") (a ++ ("." ++ s))) (==-refl (code c))
        (extends-append a s h)))

-- Whether a text starts with the greatest character, which the store's iterator does not reach.
unfoldable pub starts_with_max : String → Bool
starts_with_max String.[] = false
starts_with_max (String.◌∷◌ c s) = not (ltb (code c) 0x10FFFF)

starts_with_max-extends : (s : String) → starts_with_max s ≡ false → extends "" s ≡ true
unfolding starts_with_max extends
starts_with_max-extends String.[] h = refl
starts_with_max-extends (String.◌∷◌ c s) h = ground arith

pub key_row-extends :
    (a id : String) → starts_with_max id ≡ false → extends (a ++ ".") (key_row a id) ≡ true
unfolding key_row
key_row-extends a id h =
    extends-append a (id ++ "")
      (ap (extends "") (append-nil_right id) ∙ starts_with_max-extends id h)
