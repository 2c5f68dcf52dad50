-- ===== src/Client.antt =====
-- client.rs: what a client makes of the answers of the query service. The calls are gRPC's, a
-- package: what waiting for one gives is a parameter of each method.
pub mod Reads
use mynode.Base.{String, Option, none, some, List, [], ◌∷◌, map}
use mynode.Base.Result.{Error, Result, ok, err, internal, network, and_then}
use mynode.Store.{Bytes}
use mynode.Serializer.{Codec}
use mynode.Sql.Value.{Value, Row}
use mynode.Handlers.Store.{FieldValue, ProtoRow, StatusResponse}

-- What gRPC gives: an answer, or its error, of which the client keeps the text.
pub data Waited (A : Type 0) : Type 0 where
  arrived : A → Waited A
  broken : String → Waited A

-- `?` on it.
unfoldable waited : {A : Type 0} → Waited A → Result A
waited (arrived a) = ok a
waited (broken text) = err (network text)

unfoldable error_from_protobuf : Option String → Result (Unit {0})
error_from_protobuf (some message) = err (internal message)
error_from_protobuf none = ok tt

-- Lists database tables.
unfoldable list_tables : Waited (List String × Option String) → Result (List String)
unfolding waited error_from_protobuf
list_tables answer =
    and_then (waited answer) λ resp. and_then (error_from_protobuf resp.1) λ _. ok resp.0

-- Fetches the table schema as SQL.
unfoldable get_table : Waited (String × Option String) → Result String
unfolding waited error_from_protobuf
get_table answer =
    and_then (waited answer) λ resp. and_then (error_from_protobuf resp.1) λ _. ok resp.0

-- The rows are those that gRPC's iterator has left.
pub record ResultSet (F : Type 0) : Type 0 where
  pub columns : List String
  pub rows : List (Waited (ProtoRow F))

-- Columns that are missing or not readable are none.
columns_from : Result (List String) → List String
columns_from (ok columns) = columns
columns_from (err e) = []

metadata_bytes : Option Bytes → Bytes
metadata_bytes (some bytes) = bytes
metadata_bytes none = []

-- Checks server status.
record Status : Type 0 where
  pub id : String
  pub version : String

unfoldable status : Waited StatusResponse → Result Status
unfolding waited
status answer =
    and_then (waited answer) λ resp. ok (record { id = resp.id; version = resp.version })

module _ {F : Type 0} where
  unfoldable value_from_protobuf : Option (FieldValue F) → Value F
  value_from_protobuf none = Value.null
  value_from_protobuf (some (FieldValue.boolean b)) = Value.boolean b
  value_from_protobuf (some (FieldValue.integer i)) = Value.integer i
  value_from_protobuf (some (FieldValue.float f)) = Value.float f
  value_from_protobuf (some (FieldValue.text s)) = Value.text s

  unfoldable row_from_protobuf : ProtoRow F → Row F
  unfolding value_from_protobuf
  row_from_protobuf proto_row = map value_from_protobuf proto_row.field

  unfoldable from_grpc :
      Codec (List String) → Option Bytes → List (Waited (ProtoRow F)) → Result (ResultSet F)
  unfolding columns_from metadata_bytes
  from_grpc codec metadata rows =
      ok (record {
        columns = columns_from (codec.deserialize (metadata_bytes metadata));
        rows = rows;
      })

  -- Runs a query.
  unfoldable query :
      Codec (List String)
      → Waited (Option Bytes × List (Waited (ProtoRow F)))
      → Result (ResultSet F)
  unfolding waited from_grpc
  query codec answer = and_then (waited answer) λ (metadata, iter). from_grpc codec metadata iter

  -- An item of the rows.
  unfoldable received : Waited (ProtoRow F) → Result (Row F)
  unfolding waited error_from_protobuf row_from_protobuf
  received item =
      and_then (waited item)
        λ row. and_then (error_from_protobuf row.error) λ _. ok (row_from_protobuf row)

  next_item : List String → List (Waited (ProtoRow F)) → Option (Result (Row F)) × ResultSet F
  unfolding received
  next_item columns [] = (none, record { columns = columns; rows = [] })
  next_item columns (item ∷ rows) =
      (some (received item), record { columns = columns; rows = rows })

  -- `Iterator::next`, with what it leaves.
  unfoldable next : ResultSet F → Option (Result (Row F)) × ResultSet F
  unfolding next_item
  next set = next_item set.columns set.rows
