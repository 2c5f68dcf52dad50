-- ===== src/Sql/Plan/Tables.antt =====
-- The tables that the planner builds from CREATE TABLE.
use Prim.{⊥}
use mathlib.Core.Path.{subst}
use mynode.Base.{
  ℕ, suc, String, ◌≡◌, ◌≢◌, ◌↔◌, refl, sym, ap, ◌∙◌, ◌⊎◌, Bool, true, false, none, some,
  Option-cases, List, [], ◌∷◌, map, if◌then◌else◌, str_eq, eq_iff, Bool-cases, inl, inr,
}
use mynode.Base.Result.{Result, ok, err, value}
use mynode.Base.Outcome.{Outcome, returned, failed, panicked, of_result, continue, Run}
use mynode.Sql.Ast.{ColumnSpec}
use mynode.Sql.Value.{Row}
use mynode.Sql.Schema.{Column, Table, position, get_primary_key_index}
use mynode.Sql.Storage.{Backend, get_table, create_row, key_value, get_elem?, some_key}
use mynode.Sql.Plan.{primary_keys, column_from, is_nullable, table_with_key, build_schema_table}

abbrev head : ColumnSpec → List ColumnSpec → ColumnSpec
head c [] = c
head _ (c ∷ _) = c

position-primary_key :
    (columns : List ColumnSpec) (key : ColumnSpec) (more : List ColumnSpec)
    → primary_keys columns ≡ key ∷ more
    → (i : ℕ) × (position key.name (map column_from columns) ≡ some i)
unfolding primary_keys position column_from
position-primary_key [] key more h = absurd cc
position-primary_key (c ∷ columns) key more h =
    let keys_if =
      λ (b : Bool). (if b then c ∷ primary_keys columns else primary_keys columns) ≡ key ∷ more in
    elim (Bool-cases c.primary_key) [
      | inl primary ↦
          let keys : c ∷ primary_keys columns ≡ key ∷ more = subst keys_if primary h in
          let same : c.name ≡ key.name = ap (λ k. k.name) (ap (head c) keys) in
          (0, rw ((eq_iff c.name key.name).1 same) refl)
      | inr other ↦
          let keys : primary_keys columns ≡ key ∷ more = subst keys_if other h in
          let (i, found) = position-primary_key columns key more keys in
          elim (Bool-cases (str_eq c.name key.name)) [
            | inl same ↦ (0, rw same refl)
            | inr different ↦ (suc i, rw (different, found) refl)
          ]
    ]

built : String → List ColumnSpec → ColumnSpec → Table
built name columns key = record {
  name = name;
  columns = map column_from columns;
  primary_key = key.name;
}

abbrev table_of : Table → Result Table → Table
table_of t (ok table) = table
table_of t (err _) = t

table_with_key_lem :
    (name : String) (columns keys : List ColumnSpec) (table : Table)
    → (table_with_key name columns keys ≡ ok table) ↔ (
        (key : ColumnSpec) × (keys ≡ key ∷ [])
        × (is_nullable key ≡ false)
        × (table ≡ built name columns key))
unfolding table_with_key built
table_with_key_lem name columns [] table = (λ h. absurd cc, λ (key, one, _, _). absurd cc)
table_with_key_lem name columns (key ∷ []) table = elim (Bool-cases (is_nullable key)) [
  | inl nullable ↦ (
    λ h. absurd (
        let never : err (value "Primary key cannot be nullable") ≡ ok table = rw nullable at h in
        cc),
    λ (other, one, not_nullable, same).
        absurd (let key_nullable = ap is_nullable (ap (head key) one) in cc),
  )
  | inr fine ↦ (
    λ h. (key, refl, fine, ap (table_of table) (sym (rw fine at h))),
    λ (other, one, not_nullable, same).
        rw (fine, same) (ap (λ k. ok (built name columns k)) (ap (head key) one)),
  )
]
table_with_key_lem name columns (key ∷ other ∷ keys) table =
    (λ h. absurd cc, λ (one, same, _, _). absurd cc)

built_from_key :
    (name : String) (columns : List ColumnSpec) (table : Table)
    → (build_schema_table name columns ≡ ok table) ↔ (
        (key : ColumnSpec) × (primary_keys columns ≡ key ∷ [])
        × (is_nullable key ≡ false)
        × (table ≡ built name columns key))
unfolding build_schema_table
built_from_key name columns table = table_with_key_lem name columns (primary_keys columns) table

-- No column is declared as primary key.
abbrev pub NoKey : List ColumnSpec → Type 0
NoKey [] = Unit
NoKey (c ∷ columns) = (c.primary_key ≡ false) × NoKey columns

-- One column is, and it is this one.
abbrev pub IsOnlyKey : ColumnSpec → List ColumnSpec → Type 0
IsOnlyKey key [] = ⊥
IsOnlyKey key (c ∷ columns) =
    ((c ≡ key) × (c.primary_key ≡ true) × NoKey columns)
    ⊎ ((c.primary_key ≡ false) × IsOnlyKey key columns)

primary_keys-here :
    (c : ColumnSpec) (columns : List ColumnSpec)
    → c.primary_key ≡ true
    → primary_keys (c ∷ columns) ≡ c ∷ primary_keys columns
unfolding primary_keys
primary_keys-here c columns h =
    subst
      (λ b.
        (if b then c ∷ primary_keys columns else primary_keys columns) ≡ c ∷ primary_keys columns)
      (sym h) refl

primary_keys-other :
    (c : ColumnSpec) (columns : List ColumnSpec)
    → c.primary_key ≡ false
    → primary_keys (c ∷ columns) ≡ primary_keys columns
unfolding primary_keys
primary_keys-other c columns h =
    subst
      (λ b. (if b then c ∷ primary_keys columns else primary_keys columns) ≡ primary_keys columns)
      (sym h) refl

primary_keys-NoKey : (columns : List ColumnSpec) → (primary_keys columns ≡ []) ↔ NoKey columns
unfolding primary_keys
primary_keys-NoKey [] = (λ _. tt, λ _. refl)
primary_keys-NoKey (c ∷ columns) = elim (Bool-cases c.primary_key) [
  | inl primary ↦ (
    λ h. absurd (let some_key = sym (primary_keys-here c columns primary) ∙ h in cc),
    λ (other, _). absurd cc,
  )
  | inr other ↦ (
    λ h. (other, (primary_keys-NoKey columns).0 (sym (primary_keys-other c columns other) ∙ h)),
    λ (_, rest). primary_keys-other c columns other ∙ (primary_keys-NoKey columns).1 rest,
  )
]

primary_keys-IsOnlyKey :
    (key : ColumnSpec) (columns : List ColumnSpec)
    → (primary_keys columns ≡ key ∷ []) ↔ IsOnlyKey key columns
unfolding primary_keys
primary_keys-IsOnlyKey key [] = (λ h. absurd cc, λ h. absurd h)
primary_keys-IsOnlyKey key (c ∷ columns) = elim (Bool-cases c.primary_key) [
  | inl primary ↦
      let here = primary_keys-here c columns primary in
      (
        λ h.
            (let keys : c ∷ primary_keys columns ≡ key ∷ [] = sym here ∙ h in
              let rest : primary_keys columns ≡ [] = cc in
              inl (ap (head c) keys, primary, (primary_keys-NoKey columns).0 rest)),
        λ h. elim h [
          | inl (same, _, rest) ↦
              here ∙ ap (λ ks. c ∷ ks) ((primary_keys-NoKey columns).1 rest) ∙ ap (λ k. k ∷ []) same
          | inr (other, _) ↦ absurd cc
        ],
      )
  | inr other ↦
      let there = primary_keys-other c columns other in
      (
        λ h. inr (other, (primary_keys-IsOnlyKey key columns).0 (sym there ∙ h)),
        λ h. elim h [
          | inl (_, primary, _) ↦ absurd cc
          | inr (_, rest) ↦ there ∙ (primary_keys-IsOnlyKey key columns).1 rest
        ],
      )
]

not_declared_nullable : (c : ColumnSpec) → is_nullable c ≡ false → c.nullable ≢ some true
not_declared_nullable c h declared = let nullable : is_nullable c ≡ true = rw declared refl in cc

is_nullable-false : (c : ColumnSpec) → c.nullable ≢ some true → is_nullable c ≡ false
is_nullable-false c h = elim (Option-cases c.nullable) [
  | inl silent ↦ rw silent refl
  | inr (b, explicit) ↦ elim (Bool-cases b) [
    | inl is_true ↦ absurd (h (explicit ∙ ap some is_true))
    | inr is_false ↦ rw (explicit, is_false) refl
  ]
]

-- The column that a declaration stands for: it may be null where that is declared, and where nothing
-- is declared, unless it is the primary key.
abbrev pub declared : ColumnSpec → Column
declared c = record {
  name = c.name;
  datatype = c.datatype;
  nullable = elim c.nullable [ some b ↦ b | none ↦ if c.primary_key then false else true ];
}

column_from-declared : (c : ColumnSpec) → column_from c ≡ declared c
unfolding column_from
column_from-declared c = elim (Option-cases c.nullable) [
  | inr (b, explicit) ↦ rw (column_from, explicit) refl
  | inl silent ↦ elim (Bool-cases c.primary_key) [
    | inl primary ↦ rw (column_from, silent, primary) refl
    | inr other ↦ rw (column_from, silent, other) refl
  ]
]

columns-declared : (columns : List ColumnSpec) → map column_from columns ≡ map declared columns
columns-declared [] = refl
columns-declared (c ∷ columns) = rw (column_from-declared c, columns-declared columns) refl

built-declared :
    (name : String) (columns : List ColumnSpec) (key : ColumnSpec)
    → built name columns key
      ≡ record { name = name; columns = map declared columns; primary_key = key.name }
unfolding built
built-declared name columns key = rw (columns-declared columns) refl

-- A table is built exactly where one column and no other is declared as primary key, and that one
-- is not declared nullable. It then has the name given, the key's name, and the columns in their
-- order with their names and types, where a column may be null if that is declared, or if nothing
-- is declared and it is not the primary key.
pub build_schema_table_lem :
    (name : String) (columns : List ColumnSpec) (table : Table)
    → (build_schema_table name columns ≡ ok table) ↔ (
        (key : ColumnSpec) × IsOnlyKey key columns
        × (key.nullable ≢ some true)
        × (table ≡ record { name = name; columns = map declared columns; primary_key = key.name }))
build_schema_table_lem name columns table = (
  λ h.
      (let (key, one, fine, same) = (built_from_key name columns table).0 h in
        (
          key,
          (primary_keys-IsOnlyKey key columns).0 one,
          not_declared_nullable key fine,
          same ∙ built-declared name columns key,
        )),
  λ (key, one, fine, same). (built_from_key name columns table).1 (
    key,
    (primary_keys-IsOnlyKey key columns).1 one,
    is_nullable-false key fine,
    same ∙ sym (built-declared name columns key),
  ),
)

-- The primary key of a table that the planner builds is one of its columns.
build_schema_table-index :
    (name : String) (columns : List ColumnSpec) (table : Table)
    → build_schema_table name columns ≡ ok table
    → (i : ℕ) × (get_primary_key_index table ≡ returned i)
unfolding get_primary_key_index built position-primary_key
build_schema_table-index name columns table h =
    let (key, keys, _, same) = (built_from_key name columns table).0 h in
    let (i, found) = position-primary_key columns key [] keys in (i, rw (same, found) refl)

NoPanic : {A : Type 0} → Outcome A → Type 0
NoPanic panicked = ⊥
NoPanic _ = Unit

continue-NoPanic :
    {S A B : Type 0} (r : Outcome A) (k : A → Run S B) (s : S)
    → NoPanic r
    → ((a : A) → NoPanic (k a s).0)
    → NoPanic (continue r k s).0
unfolding NoPanic
continue-NoPanic (returned a) k s h g = g a
continue-NoPanic (failed e) k s h g = tt
continue-NoPanic panicked k s h g = h

of_result-NoPanic : {A : Type 0} (r : Result A) → NoPanic (of_result r)
unfolding NoPanic
of_result-NoPanic (ok a) = tt
of_result-NoPanic (err e) = tt

-- Creating a row in a table that the planner has built, as it is read from the storage, does not
-- panic: the unwrap on the index of the primary key finds a column.
pub create_row-panicked :
    {Kv F : Type 0} (backend : Backend Kv F) (name : String) (columns : List ColumnSpec)
    (table : Table) (table_name : String) (row : Row F) (s : Kv)
    → build_schema_table name columns ≡ ok table
    → get_table backend table_name s ≡ ok table
    → (create_row backend table_name row s).0 ≢ panicked
unfolding create_row key_value NoPanic
create_row-panicked backend name columns table table_name row s h found panic =
    let (i, index) = build_schema_table-index name columns table h in
    subst NoPanic panic (
      rw (create_row, found, index)
        (continue-NoPanic (of_result (some_key backend (get_elem? i row))) _ s
          (of_result-NoPanic (some_key backend (get_elem? i row)))
          (λ id.
            continue-NoPanic (of_result (backend.row.serialize row)) _ s
              (of_result-NoPanic (backend.row.serialize row)) (λ bytes. of_result-NoPanic _))))
