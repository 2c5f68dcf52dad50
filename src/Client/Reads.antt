-- ===== src/Client/Reads.antt =====
-- The query service and its client together: what the client reads of the answer to a query.
use Prim.{⊥}
use mynode.Base.{String, ◌≡◌, refl, ap, sym, Option, none, some, List, [], ◌∷◌, map}
use mynode.Base.Result.{Result, ok, err, internal}
use mynode.Base.Outcome.{Outcome, returned, failed, panicked, of_result}
use mynode.Store.{Bytes}
use mynode.Serializer.{Codec}
use mynode.Sql.Parser.{Reader}
use mynode.Sql.Statements.{parse}
use mynode.Sql.Ast.{Statement}
use mynode.Sql.Value.{Value, Row}
use mynode.Sql.Storage.{Backend}
use mynode.Sql.Plan.{Node}
use mynode.Sql.Plan as Plan
use mynode.Sql.Plan.Select.{Yields, Answers}
use mathlib.Core.Path.{subst}
use mynode.Handlers.Store.{
  response, error_to_protobuf, display, ProtoRow, value_to_protobuf, row_to_protobuf, streamed,
  execute, Response, iterated, query, next_row,
}
use mynode.Client
use mynode.Client.{
  columns_from, metadata_bytes, Waited, arrived, value_from_protobuf, row_from_protobuf, ResultSet,
  from_grpc, received, next,
}

-- What the client is told of a row: an error is its text.
abbrev pub told : {F : Type 0} → Result (Row F) → Result (Row F)
told (ok row) = ok row
told (err e) = err (internal (display e))

module _ {F : Type 0} where
  value_from-value_to : (v : Value F) → value_from_protobuf (value_to_protobuf v) ≡ v
  unfolding value_from_protobuf value_to_protobuf
  value_from-value_to Value.null = refl
  value_from-value_to (Value.boolean b) = refl
  value_from-value_to (Value.integer i) = refl
  value_from-value_to (Value.float f) = refl
  value_from-value_to (Value.text s) = refl

  values_back : (row : Row F) → map value_from_protobuf (map value_to_protobuf row) ≡ row
  values_back [] = refl
  values_back (v ∷ row) = rw (value_from-value_to v, values_back row) refl

  received-streamed : (r : Result (Row F)) → received (arrived (streamed r)) ≡ told r
  unfolding received streamed row_from_protobuf row_to_protobuf
  received-streamed (ok row) = ap ok (values_back row)
  received-streamed (err e) = refl

  -- The client's iterator gives these results and then ends.
  abbrev pub Gives : ResultSet F → List (Result (Row F)) → Type 0
  Gives set [] = (next set).0 ≡ none
  Gives set (r ∷ results) = ((next set).0 ≡ some r) × Gives (next set).1 results

  streamed-Gives :
      (columns : List String) (results : List (Result (Row F)))
      → Gives
          (record { columns = columns; rows = map arrived (map streamed results) })
          (map told results)
  unfolding next
  streamed-Gives columns [] = refl
  streamed-Gives columns (r ∷ results) =
      (ap some (received-streamed r), streamed-Gives columns results)

module _ {Kv F : Type 0} (reader : Reader F) (backend : Backend Kv F) where
  -- The stream has these rows and then ends.
  abbrev pub Streams : Response F → List (ProtoRow F) → Type 0
  Streams response [] = (next_row reader backend response).0 ≡ none
  Streams response (row ∷ rows) =
      ((next_row reader backend response).0 ≡ some (returned row))
      × Streams (next_row reader backend response).1 rows

  iterated-Streams :
      (n : Node F) (results : List (Result (Row F)))
      → Yields backend n (map of_result results)
      → Streams (iterated n) (map streamed results)
  unfolding next_row
  iterated-Streams n [] h = rw h refl
  iterated-Streams n (ok row ∷ results) (h, rest) =
      (rw h refl, iterated-Streams (Plan.next backend n).1 results rest)
  iterated-Streams n (err e ∷ results) (h, rest) =
      (rw h refl, iterated-Streams (Plan.next backend n).1 results rest)

  -- The plan of the query yields these results, or it fails, which is the only result.
  abbrev pub Executes : Outcome (Node F) → List (Result (Row F)) → Type 0
  Executes (returned n) results = Yields backend n (map of_result results)
  Executes (failed e) results = results ≡ err e ∷ []
  Executes panicked results = ⊥

  pub statement-Executes :
      (sql : String) (statement : Statement F) (s : Kv) (results : List (Result (Row F)))
      → (parse reader sql).0 ≡ ok statement
      → Answers backend statement s (map of_result results)
      → Executes (execute reader backend sql s).0 results
  unfolding execute
  statement-Executes sql statement s results parsed (n, ran, yields) = rw parsed (rw ran yields)

  -- The service answers, and where gRPC brings its rows, the client gets these results.
  abbrev pub Reads :
      Codec (List String) → Option Bytes → Outcome (Response F) → List (Result (Row F)) → Type 0
  Reads codec metadata (returned response) results =
      (rows : List (ProtoRow F)) × (set : ResultSet F) × Streams response rows
      × (Client.query codec (arrived (metadata, map arrived rows)) ≡ ok set)
      × Gives set results
  Reads codec metadata (failed e) results = ⊥
  Reads codec metadata panicked results = ⊥

  -- The service answers a query with a stream that ends, and a client that gRPC brings its rows to
  -- reads from it exactly the results of the query, in order, with each error as an internal error
  -- of its text. The results are what the plan of the query yields without a panic, or the one
  -- error where the query fails before.
  pub query-Reads :
      (codec : Codec (List String)) (metadata : Option Bytes) (sql : String) (s : Kv)
      (results : List (Result (Row F)))
      → Executes (execute reader backend sql s).0 results
      → Reads codec metadata (query reader backend sql s).0 (map told results)
  unfolding query Client.query from_grpc response next_row error_to_protobuf
  query-Reads codec metadata sql s results h = answered (execute reader backend sql s).0 h
    where
      answered :
          (r : Outcome (Node F))
          → Executes r results
          → Reads codec metadata (response r) (map told results)
      answered (returned n) h = (
        map streamed results,
        record {
          columns = columns_from (codec.deserialize (metadata_bytes metadata));
          rows = map arrived (map streamed results);
        },
        iterated-Streams n results h,
        refl,
        streamed-Gives (columns_from (codec.deserialize (metadata_bytes metadata))) results,
      )
      answered (failed e) only =
          subst (λ rs. Reads codec metadata (response (failed e)) (map told rs)) (sym only)
            (
              streamed (err e) ∷ [],
              record {
                columns = columns_from (codec.deserialize (metadata_bytes metadata));
                rows = arrived (streamed (err e)) ∷ [];
              },
              (refl, refl),
              refl,
              streamed-Gives (columns_from (codec.deserialize (metadata_bytes metadata)))
                  (err e ∷ []),
            )
      answered panicked h = elim h [ ]
