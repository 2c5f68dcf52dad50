-- ===== src/Sql/Plan/Rows.antt =====
-- A row that is created is found by a scan of its table.
use Prim.Native.String.{compare, ◌++◌}
use text.Mathlib.Text.{is_lt}
use mathlib.Core.List.{Mem, mem-cons_self, mem-cons_of_mem, mem-map_of_mem}
use mathlib.Core.Path.{subst}
use mynode.Base.{
  String, ◌≡◌, refl, Bool, true, false, List, [], ◌∷◌, map, str_eq, Bool-cases, inl, inr,
}
use mynode.Base.Result.{ok}
use mynode.Base.Outcome.{returned}
use mynode.Store.{Bytes, KvPair}
use mynode.Store.KvMemory.{KvMemory, kv_memory, map_insert, keep, extends}
use mynode.Serializer.{Codec, IsFaithful}
use mynode.Sql.Value.{Float, Value, Row, display}
use mynode.Sql.Schema.{Table}
use mynode.Sql.Storage.{get_table, scan_rows, decoded_row, create_row, key_value, key_row}
use mynode.Sql.Storage.Keys.{starts_with_max, key_row-extends}
use mynode.Sql.Storage.Isolation.{memory, scan_rows-keep}

-- What is written under a key that passes the test is there.
keep-Mem :
    (p : String → Bool) (key : String) (v : Bytes) (m : List KvPair)
    → p key ≡ true
    → Mem (key, v) (keep p (map_insert key v m))
unfolding keep map_insert
keep-Mem p key v [] h = rw h mem-cons_self
keep-Mem p key v ((j, w) ∷ m) h = elim (Bool-cases (str_eq j key)) [
  | inl same ↦ rw (same, h) mem-cons_self
  | inr other ↦ elim (Bool-cases (is_lt (compare key j))) [
    | inl before ↦ rw (other, before, h) mem-cons_self
    | inr after ↦ elim (Bool-cases (p j)) [
      | inl kept ↦ rw (other, after, kept) (mem-cons_of_mem (j, w) (keep-Mem p key v m h))
      | inr left ↦ rw (other, after, left) (keep-Mem p key v m h)
    ]
  ]
]

-- Over the store in memory, and with a serialization of rows that reads back what it wrote, a row
-- for a table that exists, with a value for its primary key, is created, and a scan of the table
-- finds it, unless the text of the key starts with the greatest character.
pub create_row-Mem :
    {F : Type 0} (table_codec : Codec Table) (row_codec : Codec (Row F)) (number : Float F)
    → IsFaithful row_codec
    → (name : String) (row : Row F) (s : KvMemory) (table : Table) (id : Value F)
    → get_table (memory table_codec row_codec number) name s ≡ ok table
    → key_value (memory table_codec row_codec number) table row ≡ returned id
    → starts_with_max (display number id) ≡ false
    → ((create_row (memory table_codec row_codec number) name row s).0 ≡ returned tt)
      × Mem (ok row) (
          scan_rows
            (memory table_codec row_codec number)
            name
            (create_row (memory table_codec row_codec number) name row s).1)
unfolding create_row decoded_row kv_memory
create_row-Mem table_codec row_codec number faithful name row s table id found key first =
    let backend = memory table_codec row_codec number in
    let bytes = faithful.bytes row in
    let after : KvMemory = record {
      pairs = map_insert (key_row name (display number id)) bytes s.pairs;
    } in
    let written : create_row backend name row s ≡ (returned tt, after) =
      rw (create_row, found, key, faithful.serialize_lem row) refl in
    let kept : Mem (key_row name (display number id), bytes)
        (keep (extends (name ++ ".")) after.pairs) =
      keep-Mem (extends (name ++ ".")) (key_row name (display number id)) bytes s.pairs
        (key_row-extends name (display number id) first) in
    let items = map (decoded_row backend) (map ok (keep (extends (name ++ ".")) after.pairs)) in
    let decoded : decoded_row backend (ok (key_row name (display number id), bytes)) ≡ ok row =
      faithful.deserialize_lem row in
    let mapped = mem-map_of_mem (decoded_row backend) (mem-map_of_mem ok kept) in
    rw written (
      refl,
      rw (scan_rows-keep table_codec row_codec number name after)
          (subst (λ r. Mem r items) decoded mapped),
    )
