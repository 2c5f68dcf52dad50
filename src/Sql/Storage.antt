-- ===== src/Sql/Storage.antt =====
-- sql/storage.rs: tables and rows in a store. The lock around the store is taken for one call at a
-- time and is never poisoned.
pub mod Tables
pub mod Keys
pub mod Isolation
use mynode.Base.{
  ℕ, zero, suc, String, Bool, true, false, Option, none, some, List, [], ◌∷◌, map, if◌then◌else◌,
}
use mynode.Base.Text.{format}
use mynode.Base.Result.{
  Result, ok, err, value, and_then, Exec, lift as lift_result, ◌>>=◌ as ◌>>>=◌, raise,
}
use mynode.Base.Outcome.{
  Outcome, and_then as and_then_outcome, of_result, Run, continue, ◌>>=◌, lift, run,
}
use mynode.Store.{Bytes, KvPair, Store}
use mynode.Serializer.{Codec}
use mynode.Sql.Value.{Float, Value, Row, display}
use mynode.Sql.Schema.{Table, get_primary_key_index}

abbrev pub table_prefix : String
table_prefix = "schema.table"

unfoldable pub key_table : String → String
key_table table = format (table_prefix ∷ "." ∷ table ∷ [])

unfoldable pub key_row : String → String → String
key_row table id = format (table ∷ "." ∷ id ∷ [])

-- What the storage stands on: a store, the serialization of tables and rows, and `f64`.
pub record Backend (Kv F : Type 0) : Type 0 where
  pub store : Store Kv
  pub table : Codec Table
  pub row : Codec (Row F)
  pub number : Float F

abbrev is_some : {A : Type 0} → Option A → Bool
is_some (some _) = true
is_some none = false

-- `row.get(i)`.
abbrev pub get_elem? : {A : Type 0} → ℕ → List A → Option A
get_elem? _ [] = none
get_elem? zero (x ∷ xs) = some x
get_elem? (suc i) (x ∷ xs) = get_elem? i xs

module _ {Kv F : Type 0} (backend : Backend Kv F) where
  unfoldable pub table_exists : String → Kv → Result Bool
  unfolding key_table
  table_exists table_name s =
      and_then (backend.store.get (key_table table_name) s) λ table. ok (is_some table)

  -- The names of the tables that an iterator yields, up to the first error.
  table_names : List (Result KvPair) → Result (List String)
  table_names [] = ok []
  table_names (err e ∷ items) = err e
  table_names (ok (_, bytes) ∷ items) =
      let rest = table_names items in
      and_then (backend.table.deserialize bytes)
        λ schema. and_then rest λ names. ok (schema.name ∷ names)

  unfoldable pub list_tables : Kv → Result (List String)
  unfolding table_names
  list_tables s = table_names (backend.store.iter_prefix table_prefix s)

  unfoldable pub found : String → Option Bytes → Result Table
  found table_name none = err (value (format ("Table " ∷ table_name ∷ " does not exist" ∷ [])))
  found table_name (some bytes) = backend.table.deserialize bytes

  unfoldable pub get_table : String → Kv → Result Table
  unfolding found key_table
  get_table table_name s = and_then (backend.store.get (key_table table_name) s) (found table_name)

  unfoldable pub decoded_row : Result KvPair → Result (Row F)
  decoded_row item = and_then item λ (key, raw_row). backend.row.deserialize raw_row

  unfoldable pub scan_rows : String → Kv → List (Result (Row F))
  unfolding decoded_row
  scan_rows table_name s =
      map decoded_row (backend.store.iter_prefix (format (table_name ∷ "." ∷ [])) s)

  unfoldable pub some_key : Option (Value F) → Result (Value F)
  some_key (some id) = ok id
  some_key none = err (value "No primary key value")

  -- The value of the primary key in a row.
  unfoldable pub key_value : Table → Row F → Outcome (Value F)
  unfolding some_key
  key_value table row =
      and_then_outcome (get_primary_key_index table) λ i. of_result (some_key (get_elem? i row))

  unfoldable pub create_row : String → Row F → Run Kv (Unit {0})
  unfolding key_value key_row
  create_row table_name row = do
    table ← (λ s. (of_result (get_table table_name s), s))
    id ← lift (key_value table row)
    bytes ← lift (of_result (backend.row.serialize row))
    run (backend.store.set (key_row table_name (display backend.number id)) bytes)

  store_table : Table → Bool → Exec Kv (Unit {0})
  unfolding key_table
  store_table table true = raise (value (format ("Table " ∷ table.name ∷ " already exists" ∷ [])))
  store_table table false = lift_result (backend.table.serialize table) >>>= λ serialized.
      backend.store.set (key_table table.name) serialized

  unfoldable pub create_table : Table → Exec Kv (Unit {0})
  unfolding store_table table_exists
  create_table table s = (lift_result (table_exists table.name s) >>>= store_table table) s

  unfoldable pub drop_table : String → Exec Kv (Unit {0})
  unfolding key_table
  drop_table table_name = backend.store.delete (key_table table_name)
