-- ===== src/Handlers/Store.antt =====
-- handlers/store.rs: the service that runs queries. The types of its answers are those of
-- protobuf/store.proto.
use mynode.Base.{String, Bool, Option, none, some, List, [], ◌∷◌, map}
use mynode.Base.Int.{ℤ}
use mynode.Base.Text.{format, to_string}
use mynode.Base.Result.{
  Error, Result, ok, err, config, io, internal, network, parse as parse_error, value, not_found,
  raft_base_not_found,
}
use mynode.Base.Outcome.{Outcome, returned, failed, panicked, of_result, Run, ◌>>=◌, lift}
use mynode.Sql.Parser.{Reader}
use mynode.Sql.Statements.{parse}
use mynode.Sql.Value.{Value, Row}
use mynode.Sql.Schema.{to_query}
use mynode.Sql.Storage.{Backend}
use mynode.Sql.Storage as Storage
use mynode.Sql.Plan.{Node, next, run_statement}

-- `Display` of an error.
unfoldable pub display : Error → String
display (config s) = s
display (io s) = s
display (internal s) = s
display (network s) = s
display (parse_error s) = s
display (value s) = s
display not_found = "not found"
display (raft_base_not_found index term) =
    format (
      "Base entry at index " ∷ to_string index ∷ " with term " ∷ to_string term ∷ " not found" ∷ [])

-- A field without a value is `NULL`.
pub data FieldValue (F : Type 0) : Type 0 where
  boolean : Bool → FieldValue F
  float : F → FieldValue F
  integer : ℤ → FieldValue F
  text : String → FieldValue F

pub record ProtoRow (F : Type 0) : Type 0 where
  pub field : List (Option (FieldValue F))
  pub error : Option String

-- `StreamingResponse`: the rows of a result, which are taken from the plan one by one, or rows that
-- are there at once.
pub data Response (F : Type 0) : Type 0 where
  completed : List (ProtoRow F) → Response F
  iterated : Node F → Response F

-- `StatusResponse`.
pub record StatusResponse : Type 0 where
  pub id : String
  pub version : String

-- The status of a server, of the version that the package was built with.
unfoldable status : String → String → StatusResponse
status id version = record { id = id; version = version }

module _ {F : Type 0} where
  unfoldable pub value_to_protobuf : Value F → Option (FieldValue F)
  value_to_protobuf Value.null = none
  value_to_protobuf (Value.boolean b) = some (FieldValue.boolean b)
  value_to_protobuf (Value.float f) = some (FieldValue.float f)
  value_to_protobuf (Value.integer i) = some (FieldValue.integer i)
  value_to_protobuf (Value.text s) = some (FieldValue.text s)

  unfoldable pub row_to_protobuf : Row F → ProtoRow F
  unfolding value_to_protobuf
  row_to_protobuf row = record { field = map value_to_protobuf row; error = none }

  unfoldable pub error_to_protobuf : Error → ProtoRow F
  unfolding display
  error_to_protobuf e = record { field = []; error = some (display e) }

  -- An item of the stream.
  unfoldable pub streamed : Result (Row F) → ProtoRow F
  unfolding row_to_protobuf error_to_protobuf
  streamed (ok row) = row_to_protobuf row
  streamed (err e) = error_to_protobuf e

  unfoldable pub response : Outcome (Node F) → Outcome (Response F)
  unfolding error_to_protobuf
  response (returned n) = returned (iterated n)
  response (failed e) = returned (completed (error_to_protobuf e ∷ []))
  response panicked = panicked

  item : Option (Outcome (Row F)) → Option (Outcome (ProtoRow F))
  unfolding streamed
  item none = none
  item (some (returned row)) = some (returned (streamed (ok row)))
  item (some (failed e)) = some (returned (streamed (err e)))
  item (some panicked) = some panicked

module _ {Kv F : Type 0} (reader : Reader F) (backend : Backend Kv F) where
  -- A query is parsed, planned and executed.
  unfoldable pub execute : String → Run Kv (Node F)
  execute query = lift (of_result (parse reader query).0) >>= run_statement backend

  -- `GetTableResponse`: the query that creates the table, or an error.
  unfoldable pub get_table : String → Kv → String × Option String
  unfolding display
  get_table name s = elim (Storage.get_table backend name s) [
    | ok schema ↦ (to_query schema, none)
    | err e ↦ ("", some (display e))
  ]

  -- `ListTablesResponse`: the names, or an error.
  unfoldable pub list_tables : Kv → List String × Option String
  unfolding display
  list_tables s = elim (Storage.list_tables backend s) [
    | ok tables ↦ (tables, none)
    | err e ↦ ([], some (display e))
  ]

  unfoldable pub query : String → Kv → Outcome (Response F) × Kv
  unfolding response execute
  query sql s = let r = execute sql s in (response r.0, r.1)

  -- The next row of the stream, and what is left of it.
  unfoldable pub next_row : Response F → Option (Outcome (ProtoRow F)) × Response F
  unfolding item
  next_row (completed []) = (none, completed [])
  next_row (completed (row ∷ rows)) = (some (returned row), completed rows)
  next_row (iterated n) = let r = next backend n in (item r.0, iterated r.1)
