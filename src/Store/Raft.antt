-- ===== src/Store/Raft.antt =====
-- store/raft.rs: the store behind a Raft cluster (`Raft`), and the state machine that it stands on
-- (`State`), itself a store. The cluster is a parameter: what its `mutate` and `read` do.
use mynode.Base.{String, ◌≡◌, refl, Option, List, [], ◌∷◌, map}
use mynode.Base.Result.{Result, ok, err, and_then, Exec, continue, ◌>>=◌, pure, lift}
use mynode.Base.Outcome.{Outcome, returned, failed, panicked}
use mynode.Base.Outcome as Outcome
use mynode.Serializer.{Codec, IsFaithful}
use mynode.Store.{Bytes, KvPair, Store}
use mynode.Raft.Log.Apply.{StateMachine}

pub data Mutation : Type 0 where
  delete_key : String → Mutation
  set_key : String → Bytes → Mutation

pub data Read : Type 0 where
  get_key naive_lower_bound : String → Read

-- serializer.rs at the types of the commands and of their results.
pub record Codecs : Type 0 where
  pub mutation : Codec Mutation
  pub read : Codec Read
  pub item : Codec (Option Bytes)
  pub pairs : Codec (List KvPair)

pub record IsSound (codecs : Codecs) : Type 0 where
  pub mutation : IsFaithful codecs.mutation
  pub read : IsFaithful codecs.read
  pub item : IsFaithful codecs.item
  pub pairs : IsFaithful codecs.pairs

-- `collect` of an iterator's items into a result: the first error.
unfoldable pub collect : {A : Type 0} → List (Result A) → Result (List A)
collect [] = ok []
collect (item ∷ items) =
    let rest = collect items in and_then item λ a. and_then rest λ more. ok (a ∷ more)

abbrev pub unwrap : {A : Type 0} → Result A → Outcome A
unwrap (ok a) = returned a
unwrap (err _) = panicked

module _ (codecs : Codecs) {Kv : Type 0} (store : Store Kv) where
  answer : Read → Kv → Result Bytes
  unfolding collect
  answer (get_key key) s = and_then (store.get key s) codecs.item.serialize
  answer (naive_lower_bound prefix) s =
      and_then (collect (store.iter_prefix prefix s)) codecs.pairs.serialize

  apply : Mutation → Exec Kv Bytes
  apply (delete_key key) = store.delete key >>= λ _. pure []
  apply (set_key key value) = store.set key value >>= λ _. pure []

  -- `State`.
  unfoldable pub state : StateMachine Kv
  unfolding answer apply
  state = record {
    read = λ command s. and_then (codecs.read.deserialize command) λ read. answer read s;
    mutate = λ command. lift (codecs.mutation.deserialize command) >>= apply;
  }

module _ (codecs : Codecs) {S : Type 0} (raft : StateMachine S) where
  unfoldable pub delete : String → Exec S (Unit {0})
  delete key = lift (codecs.mutation.serialize (delete_key key)) >>= raft.mutate >>= λ _. pure tt

  unfoldable pub get : String → S → Result (Option Bytes)
  get key s =
      and_then (codecs.read.serialize (get_key key))
        λ command. and_then (raft.read command s) codecs.item.deserialize

  unfoldable pub set : String → Bytes → Exec S (Unit {0})
  set key value =
      lift (codecs.mutation.serialize (set_key key value)) >>= raft.mutate >>= λ _. pure tt

  -- `iter_prefix` panics where the cluster cannot be read.
  unfoldable pub iter_prefix : String → S → Outcome (List (Result KvPair))
  iter_prefix prefix s =
      Outcome.and_then (unwrap (codecs.read.serialize (naive_lower_bound prefix))) λ command.
        Outcome.and_then (unwrap (raft.read command s)) λ bytes.
          Outcome.and_then (unwrap (codecs.pairs.deserialize bytes))
            λ items. returned (map ok items)

-- `view` is the state machine of a cluster. A command that it takes is answered with its output and
-- leaves its state, and a query that it answers is answered so. Where the state machine fails, a
-- cluster owes nothing: its nodes stop.
pub record Serves {S Kv : Type 0} (raft : StateMachine S) (machine : StateMachine Kv) : Type 0 where
  pub view : S → Kv
  pub mutate_lem :
      (command output : Bytes) (s : S) (kv : Kv)
      → machine.mutate command (view s) ≡ (ok output, kv)
      → ((raft.mutate command s).0 ≡ ok output) × (view (raft.mutate command s).1 ≡ kv)
  pub read_lem :
      (command output : Bytes) (s : S)
      → machine.read command (view s) ≡ ok output
      → raft.read command s ≡ ok output

module _ (codecs : Codecs) (sound : IsSound codecs) {Kv S : Type 0} (store : Store Kv)
    (raft : StateMachine S) (serves : Serves raft (state codecs store)) where
  -- If the store does this, so does the store behind Raft.
  abbrev pub Follows : Result (Unit {0}) × Kv → Result (Unit {0}) × S → Type 0
  Follows (ok _, kv) r = (r.0 ≡ ok tt) × (serves.view r.1 ≡ kv)
  Follows (err e, kv) r = Unit

  abbrev pub Finds : Result (Option Bytes) → Result (Option Bytes) → Type 0
  Finds (ok value) r = r ≡ ok value
  Finds (err e) r = Unit

  abbrev pub Lists : Result (List KvPair) → Outcome (List (Result KvPair)) → Type 0
  Lists (ok pairs) r = r ≡ returned (map ok pairs)
  Lists (err e) r = Unit

  answered :
      (output : Bytes) (kv : Kv) (r : Result Bytes × S)
      → (r.0 ≡ ok output) × (serves.view r.1 ≡ kv)
      → Follows (ok tt, kv) (continue r.0 (λ _. pure tt) r.1)
  answered output kv (ok _, s) h = (refl, h.1)
  answered output kv (err e, s) h = absurd (let bad = h.0 in cc)
