-- ===== src/Lib.antt =====
-- mynode is a node of a distributed database: a Raft consensus core (src/raft) that replicates
-- commands over a key-value store (src/store), a SQL front end (src/sql), and the services that a
-- node offers on the network (src/handlers), with a client for them (src/client.rs). This library
-- models the Raft core as far as one node, the loop that runs it and the calls of its local users,
-- the three stores, the SQL front end from the text of a query to the rows that it yields, the
-- conversions and replies of the services, and what a client reads of those.
--
-- The parts and their files:
-- - Base: tests on native numbers, `u64` addition, lists, decimal text (`u64::to_string`), maps,
--   the enum `Error` of src/error.rs, and the monad `Exec` of methods that take `&mut self`: what
--   was written before an error stays written. Base/Int is `i64`: sums and products out of
--   range wrap around or panic, which is a parameter, since it is the build's; a division can panic.
--   Base/Outcome is Result with a panic beside it, and the monad `Run` of methods that can panic.
-- - Serializer: src/serializer.rs at one type, a parameter, since it calls the package rmp_serde;
--   IsFaithful says that it reads back what it wrote.
-- - Store: the trait of src/store/mod.rs as a record of its methods, with the laws IsLawful that the
--   log relies on; Store/KvMemory is src/store/kvmemory.rs and satisfies them. Store/File is
--   src/store/file.rs, on a file that is a parameter; Store/Raft is src/store/raft.rs, the state
--   machine `State` and the client `Raft` of a cluster that is a parameter. Store/Objects is `get_obj`
--   and `set_obj`, Store/Iter the iterator `Iter`, of src/store/mod.rs.
-- - Raft/Disk: a store with the serialization of entries, numbers and texts; IsSound says that both
--   keep their laws.
-- - Raft/Log: src/raft/log.rs. Represents says which list of entries a log stands for, IsValid is the
--   invariant. Open is `Log::new`, Term is `load_term` and `save_term`, Apply is `apply`, Drain the
--   loops that call it; Append, Truncate, Merge, Rounds, Splice, Replicate, Valid, Grows and
--   Others hold the proofs.
-- - Raft/Message: src/raft/transport.rs. Raft/Calls: the calls at the end of src/raft/node/leader.rs,
--   with Raft/Calls/Quorum for their proofs.
-- - Raft/Node: src/raft/node/mod.rs. Roles holds the records of the three roles; Follower, Leader
--   and Candidate are the files of those names (the follower's tick stands in Candidate, since it
--   starts an election), Machine is `Node`; Quorum, Keeps, Votes, Elections, Waits, Stale, Leader/Within,
--   Leader/Answers, Leader/Alone, Leader/Ends and the modules named Advances (the term and the log of
--   a node over a message, role by role and, in Machine/Advances, in every role) hold the proofs.
--   What a node runs on (store, state machine, channel, random numbers) is the record Platform.
-- - Raft/EventLoop: the thread that `Raft::start` of src/raft/mod.rs spawns, with the choices of
--   `select!` as a list of what was ready; Routes, Runs and Alone hold the proofs. Raft/Client: `call`,
--   `mutate` and `read` of that file.
-- - Sql/Token and Sql/Lexer: src/sql/parser/lexer.rs; Sql/Literal holds proofs.
--   The tables of Unicode are a parameter.
-- - Sql/Ast: src/sql/parser/ast.rs. Sql/Operators, Sql/Parser, Sql/Grammar and Sql/Statements:
--   src/sql/parser/mod.rs, the operators, the methods that read single tokens, the expressions and
--   the statements. Sql/Peek, Sql/Progress (what a method takes of its input), Sql/Errors, and the
--   modules under Grammar and Statements hold the proofs. Floating point numbers are a parameter.
-- - Sql/Value: src/sql/types.rs. Sql/Eval: src/sql/expression.rs, with Types, Panics and Modulo for
--   its proofs.
-- - Sql/Schema: src/sql/schema.rs. Sql/Storage: src/sql/storage.rs, with Keys, Tables and Isolation for
--   its proofs. Sql/Plan: the planner and the nodes of a plan in src/sql/plan, with Tables, Select
--   and Rows for its proofs.
-- - Handlers/Raft: the conversions between messages and their wire form in src/handlers/raft.rs;
--   Handlers/Store: the queries and replies of src/handlers/store.rs. Handlers/KvTest:
--   src/handlers/kvtest.rs.
-- - Client: src/client.rs; Client/Reads holds the proofs on the service and the client together.
-- - Tests: a concrete disk and log, concrete tables and queries, and the theorems at them.
--
-- A node calls its log, the log its store; a handler of the node is an Exec on the node's record, and
-- a method that consumes the node gives a Result of the node in its new role. The event loop holds
-- the node, the list of its messages that are not sent yet, and the channels of local callers by call
-- ID. A query's text goes through the parser to a statement, the planner makes a plan of it, and
-- the plan's nodes call the storage, which stands on any store of the trait.
--
-- Bounds: an index is below 2^64, and where a theorem needs an addition not to wrap it says so.
-- Loops: the scan for the last index runs over the 2^64 - 2 rounds of the source's range; the apply
-- loops have one round more than there are entries that are committed and not applied, and each
-- round but the last applies one; a loop that is not at its end after those rounds, which takes a log
-- that is not valid, never ends in the source and has the outcome `endless` here. The loops of the
-- parser, and the depth of its recursion, have as much fuel as there are characters of input left, and
-- one more, and each round takes a character or more. The other loops run over lists or over a
-- range of known length. A run of the event loop is one over a given list of what was ready, since the
-- loop ends only by an error.
--
-- Not modelled: spawning the thread of the event loop, its end (`join`) and the timing of its ticker,
-- which are the standard library's and crossbeam's; the network and its generated code, gRPC's calls
-- and how it sends a stream, logging output, and the programs under src/bin.
pub mod Base
pub mod Store
pub mod Serializer
pub mod Raft
pub mod Sql
pub mod Handlers
pub mod Client
pub mod Tests
