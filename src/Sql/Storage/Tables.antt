-- ===== src/Sql/Storage/Tables.antt =====
-- Tables in the storage: what creating and dropping one does to all tables, over a store that keeps
-- what it is given.
use text.Mathlib.TextLemmas.{append_cancel_left, append_cancel_right}
use mynode.Base.{
  String, ◌≡◌, refl, ap, ◌⊎◌, inl, inr, true, false, none, [], ◌∷◌, if◌then◌else◌, str_eq, eq_iff,
  Bool-cases, Option-cases,
}
use mynode.Base.Text.{format}
use mynode.Base.Result.{ok, err, value}
use mynode.Store.{IsLawful}
use mynode.Serializer.{IsFaithful}
use mynode.Sql.Schema.{Table}
use mynode.Sql.Storage.{
  Backend, key_table, table_exists, found, get_table, create_table, store_table, drop_table,
}

key_table_inj : (a b : String) → key_table a ≡ key_table b → a ≡ b
unfolding key_table
key_table_inj a b h =
    append_cancel_right a b ""
      (append_cancel_left "." _ _ (append_cancel_left "schema.table" _ _ h))

str_eq-key_table : (a b : String) → str_eq (key_table a) (key_table b) ≡ str_eq a b
str_eq-key_table a b = elim (Bool-cases (str_eq a b)) [
  | inl same ↦ rw same ((eq_iff (key_table a) (key_table b)).1 (ap key_table ((eq_iff a b).0 same)))
  | inr other ↦ elim (Bool-cases (str_eq (key_table a) (key_table b))) [
    | inl keys ↦
        let same =
          (eq_iff a b).1 (key_table_inj a b ((eq_iff (key_table a) (key_table b)).0 keys)) in
        absurd cc
    | inr keys ↦ rw (keys, other) refl
  ]
]

module _ {Kv F : Type 0} (backend : Backend Kv F) (lawful : IsLawful backend.store)
    (faithful : IsFaithful backend.table) where
  get_table-contents :
      (name : String) (s : Kv)
      → get_table backend name s ≡ found backend name (lawful.contents s (key_table name))
  unfolding get_table
  get_table-contents name s = rw (lawful.get_lem (key_table name) s) refl

  -- Creating a table that exists is an error and changes nothing. Creating one that does not exist
  -- succeeds: from then on the table is read under its name, and every other table as before. This
  -- is for a store and a serialization that keep their laws.
  pub create_table-get_table :
      (table : Table) (s : Kv)
      → (((table_exists backend table.name s ≡ ok true)
            × (create_table backend table s
                ≡ (err (value (format ("Table " ∷ table.name ∷ " already exists" ∷ []))), s)))
          ⊎ ((table_exists backend table.name s ≡ ok false)
              × ((create_table backend table s).0 ≡ ok tt)
              × ((name : String)
                  → get_table backend name (create_table backend table s).1
                    ≡ (if str_eq table.name name then ok table else get_table backend name s))))
  unfolding create_table table_exists store_table found
  create_table-get_table table s = elim (Option-cases (lawful.contents s (key_table table.name))) [
    | inl free ↦ inr (
      rw (table_exists, lawful.get_lem (key_table table.name) s, free) refl,
      rw (create_table, lawful.get_lem (key_table table.name) s, free, faithful.serialize_lem table)
          (lawful.set_ok _ _ _),
      λ name.
          rw
            (
              create_table,
              lawful.get_lem (key_table table.name) s,
              free,
              faithful.serialize_lem table,
              get_table-contents name s,
              get_table-contents name _,
              lawful.contents-set,
              str_eq-key_table table.name name,
            )
            (elim (Bool-cases (str_eq table.name name)) [
              | inl same ↦ rw same (faithful.deserialize_lem table)
              | inr other ↦ rw other refl
            ]),
    )
    | inr (bytes, taken) ↦ inl (
      rw (table_exists, lawful.get_lem (key_table table.name) s, taken) refl,
      rw (create_table, lawful.get_lem (key_table table.name) s, taken) refl,
    )
  ]

  -- Dropping a table never fails, whether the table exists or not: from then on it does not exist,
  -- and every other table is read as before.
  pub drop_table-get_table :
      (table_name : String) (s : Kv)
      → ((drop_table backend table_name s).0 ≡ ok tt)
        × ((name : String)
            → get_table backend name (drop_table backend table_name s).1 ≡ (
                if str_eq table_name name
                then found backend name none
                else get_table backend name s))
  unfolding drop_table
  drop_table-get_table table_name s = (
    lawful.delete_ok (key_table table_name) s,
    λ name.
        rw
          (
            get_table-contents name s,
            get_table-contents name _,
            lawful.contents-delete,
            str_eq-key_table table_name name,
          )
          (elim (Bool-cases (str_eq table_name name)) [
            | inl same ↦ rw same refl
            | inr other ↦ rw other refl
          ]),
  )
