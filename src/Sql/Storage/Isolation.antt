-- ===== src/Sql/Storage/Isolation.antt =====
-- Tables do not get into each other's way: what creating a row does to tables and to the rows of
-- other tables.
use Prim.Native.String.{compare, ◌++◌}
use text.Mathlib.Text.{is_lt}
use mynode.Base.{
  String, ◌≡◌, ◌≢◌, ◌⊎◌, refl, sym, ap, ◌∙◌, Bool, false, List, [], ◌∷◌, map, str_eq, eq_iff,
  Bool-cases, inl, inr,
}
use mynode.Base.Result.{ok}
use mynode.Base.Outcome.{of_result, continue-at}
use mynode.Store.{Bytes, KvPair, IsLawful}
use mynode.Store.KvMemory.{KvMemory, kv_memory, map_insert, keep, extends, iter_prefix-extends}
use mynode.Serializer.{Codec}
use mynode.Sql.Value.{Float, Row, display}
use mynode.Sql.Schema.{Table}
use mynode.Sql.Storage.{
  Backend, key_table, key_row, get_table, scan_rows, decoded_row, create_row, key_value,
}
use mynode.Sql.Storage.Keys.{
  has_period, key_row-key_table, extends-before_period, before_period-key_row,
}

str_ne : (a b : String) → a ≢ b → str_eq a b ≡ false
str_ne a b h = elim (Bool-cases (str_eq a b)) [
  | inl same ↦ absurd (h ((eq_iff a b).0 same))
  | inr other ↦ other
]

module _ {Kv F : Type 0} (backend : Backend Kv F) where
  -- What `create_row` leaves: what was there, or that with a row under its key.
  Leaves : String → Kv → Kv → Type 0
  Leaves table_name s t =
      (t ≡ s)
      ⊎ ((id : String) × (bytes : Bytes) × (t
            ≡ (backend.store.set (key_row table_name id) bytes s).1))

  create_row-Leaves :
      (table_name : String) (row : Row F) (s : Kv)
      → Leaves table_name s (create_row backend table_name row s).1
  unfolding create_row Leaves
  create_row-Leaves table_name row s =
      continue-at (Leaves table_name s) (of_result (get_table backend table_name s)) _ s (inl refl)
        (λ table.
          continue-at (Leaves table_name s) (key_value backend table row) _ s (inl refl) (λ id.
            continue-at (Leaves table_name s) (of_result (backend.row.serialize row)) _ s (inl refl)
              (λ bytes. inr (display backend.number id, bytes, refl))))

  -- Creating a row, whatever comes of it, leaves every table as it was, unless it is a row of a
  -- table named `schema`; the name has no period, as in an identifier.
  pub create_row-get_table :
      IsLawful backend.store
      → (table_name : String) (row : Row F) (s : Kv) → has_period table_name ≡ false
      → table_name ≢ "schema"
      → (name : String)
      → get_table backend name (create_row backend table_name row s).1 ≡ get_table backend name s
  unfolding get_table Leaves
  create_row-get_table lawful table_name row s h k name =
      elim (create_row-Leaves table_name row s) [
        | inl same ↦ rw same refl
        | inr (id, bytes, written) ↦
            let other : str_eq (key_row table_name id) (key_table name) ≡ false =
              str_ne (key_row table_name id) (key_table name)
                (λ e. k (key_row-key_table table_name id name h e).0) in
            let after = (backend.store.set (key_row table_name id) bytes s).1 in
            rw
              (
                written,
                lawful.get_lem (key_table name) s,
                lawful.get_lem (key_table name) after,
                lawful.contents-set,
                other,
              )
              refl
      ]

-- Writing under a key that does not extend the prefix.
keep-insert :
    (p : String → Bool) (key : String) (v : Bytes) (m : List KvPair)
    → p key ≡ false
    → keep p (map_insert key v m) ≡ keep p m
unfolding keep map_insert
keep-insert p key v [] h = rw h refl
keep-insert p key v ((j, w) ∷ m) h = elim (Bool-cases (str_eq j key)) [
  | inl same ↦
      let outside : p j ≡ false = ap p ((eq_iff j key).0 same) ∙ h in rw (same, h, outside) refl
  | inr other ↦ elim (Bool-cases (is_lt (compare key j))) [
    | inl before ↦ rw (other, before, h) refl
    | inr after ↦ rw (other, after, keep-insert p key v m h) refl
  ]
]

-- The storage over the store in memory.
abbrev pub memory : {F : Type 0} → Codec Table → Codec (Row F) → Float F → Backend KvMemory F
memory table row number = record { store = kv_memory; table = table; row = row; number = number }

pub scan_rows-keep :
    {F : Type 0} (table : Codec Table) (row : Codec (Row F)) (number : Float F) (a : String)
    (s : KvMemory)
    → scan_rows (memory table row number) a s
      ≡ map (decoded_row (memory table row number)) (map ok (keep (extends (a ++ ".")) s.pairs))
unfolding scan_rows kv_memory
scan_rows-keep table row number a s =
    ap (map (decoded_row (memory table row number))) (iter_prefix-extends (a ++ ".") s)

-- Over the store in memory, creating a row in one table, whatever comes of it, leaves the rows of
-- every table with another name as they were. The names have no period, as in identifiers.
pub create_row-scan_rows :
    {F : Type 0} (table : Codec Table) (row : Codec (Row F)) (number : Float F) (a b : String)
    (values : Row F) (s : KvMemory)
    → has_period a ≡ false
    → has_period b ≡ false
    → a ≢ b
    → scan_rows (memory table row number) a (create_row (memory table row number) b values s).1
      ≡ scan_rows (memory table row number) a s
unfolding scan_rows Leaves kv_memory
create_row-scan_rows table row number a b values s h k other =
    let backend = memory table row number in
    let prefix = a ++ "." in
    elim (create_row-Leaves backend b values s) [
      | inl same ↦ rw same refl
      | inr (id, bytes, written) ↦
          let outside : extends prefix (key_row b id) ≡ false =
            elim (Bool-cases (extends prefix (key_row b id))) [
              | inr outside ↦ outside
              | inl inside ↦ absurd (
                  other (
                    sym (extends-before_period a (key_row b id) h inside)
                    ∙ before_period-key_row b id k))
            ] in
          let after : KvMemory = record { pairs = map_insert (key_row b id) bytes s.pairs } in
          rw written (
            scan_rows-keep table row number a after
            ∙ ap (λ m. map (decoded_row backend) (map ok m))
                (keep-insert (extends prefix) (key_row b id) bytes s.pairs outside)
            ∙ sym (scan_rows-keep table row number a s))
    ]
