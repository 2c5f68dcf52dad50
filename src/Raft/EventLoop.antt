-- ===== src/Raft/EventLoop.antt =====
-- raft/mod.rs: the thread that runs a node. Each turn of its loop takes what one of its channels has
-- ready; which one that is, `select!` decides, so a run is over a list of what was ready.
pub mod Routes
pub mod Runs
pub mod Alone
use mynode.Base.{ℕ, String, Option, none, some, List, [], ◌∷◌, ◌++◌}
use mynode.Base.Map.{insert, lookup, bytes_eq}
use mynode.Base.Text.{format}
use mynode.Base.Result.{Result, ok, err, network, Exec, and_then}
use mynode.Store.{Bytes}
use mynode.Raft.Message.{Event, Message, respond_error, call_id}
use mynode.Raft.Node.{Platform, RoleNode}
use mynode.Raft.Node.Roles.{Node, candidate, follower, leader}
use mynode.Raft.Node.Machine as MachineNode

-- The node's messages go to an unbounded channel that the loop reads: the list of what it holds,
-- which never refuses a message while the loop runs.
abbrev pub queued : Platform → Platform
queued P = record {
  Kv = P.Kv;
  Sm = P.Sm;
  Channel = List Message;
  Rng = P.Rng;
  disk = P.disk;
  machine = P.machine;
  send = λ msg queue. (ok tt, queue ++ msg ∷ []);
  gen_range = P.gen_range;
  debug_event = P.debug_event;
  debug_call = P.debug_call;
}

-- The channels of the callers (crossbeam's `Sender<Event>`), the transport, and the text of a
-- `RecvError`.
pub record Ports (World Tx : Type 0) : Type 0 where
  pub respond : Tx → Event → Exec World (Unit {0})
  pub transmit : Message → Exec World (Unit {0})
  pub recv_error : String

-- What `select!` found ready: the ticker, a local call or the end of their channel, a message of a
-- peer or the end of that channel, or a message of the node.
pub data Ready (Tx : Type 0) : Type 0 where
  ticked : Ready Tx
  called : Event → Tx → Ready Tx
  calls_closed : Ready Tx
  received : Message → Ready Tx
  inbound_closed : Ready Tx
  outbound : Ready Tx

-- What the closure of the thread holds.
pub record Driver (P : Platform) (World Tx : Type 0) : Type 0 where
  pub node : Node (queued P)
  pub response_txs : List (Bytes × Tx)
  pub world : World

-- The messages that a node has sent and the loop has not taken.
abbrev pub sent_by : (P : Platform) → Node (queued P) → List Message
sent_by P (candidate n) = n.sender
sent_by P (follower n) = n.sender
sent_by P (leader n) = n.sender

abbrev pub with_queue : (P : Platform) → List Message → Node (queued P) → Node (queued P)
with_queue P messages (candidate n) = candidate (record n { sender = messages })
with_queue P messages (follower n) = follower (record n { sender = messages })
with_queue P messages (leader n) = leader (record n { sender = messages })

module _ {P : Platform} {World Tx : Type 0} (ports : Ports World Tx) where
  -- A method of the node, which consumes it and gives it back.
  with_node :
      (Node (queued P) → Result (Node (queued P))) → Driver P World Tx → Result (Driver P World Tx)
  with_node m d = and_then (m d.node) λ n. ok (record d { node = n })

  with_world : Exec World (Unit {0}) → Driver P World Tx → Result (Driver P World Tx)
  with_world m d = let r = m d.world in and_then r.0 λ _. ok (record d { world = r.1 })

  -- A local call is noted under its ID, with the channel of the caller, and given to the node.
  take_call : Option Bytes → Event → Tx → Driver P World Tx → Result (Driver P World Tx)
  unfolding with_node with_world
  take_call (some id) event tx d =
      with_node
        (MachineNode.step (record { term = 0; sender = none; receiver = none; event = event }))
        (record d { response_txs = insert id tx d.response_txs })
  take_call none event tx d =
      with_world
        (ports.respond tx
          (respond_error [] (format ("Call ID not found for event " ∷ P.debug_event event ∷ []))))
        d

  respond_to : Option Tx → Event → Driver P World Tx → Result (Driver P World Tx)
  unfolding with_world
  respond_to none event d = ok d
  respond_to (some tx) event d = with_world (ports.respond tx event) d

  answer_local : Option Bytes → Event → Driver P World Tx → Result (Driver P World Tx)
  unfolding respond_to
  answer_local none event d = ok d
  answer_local (some id) event d = respond_to (lookup id d.response_txs) event d

  -- A message of the node goes to a peer, or to the local caller of its call ID.
  deliver : Option String → Message → Driver P World Tx → Result (Driver P World Tx)
  unfolding with_world answer_local
  deliver (some to) msg d = with_world (ports.transmit msg) d
  deliver none msg d = answer_local (call_id msg.event) msg.event d

  -- The first message of the queue; `select!` does not take from an empty one.
  take_outbound : List Message → Driver P World Tx → Result (Driver P World Tx)
  unfolding deliver
  take_outbound [] d = ok d
  take_outbound (msg ∷ rest) d =
      deliver msg.receiver msg (record d { node = with_queue P rest d.node })

  pub turn : Ready Tx → Driver P World Tx → Result (Driver P World Tx)
  unfolding with_node take_call take_outbound
  turn ticked d = with_node MachineNode.tick d
  turn (called event tx) d = take_call (call_id event) event tx d
  turn calls_closed d = err (network ports.recv_error)
  turn (received msg) d = with_node (MachineNode.step msg) d
  turn inbound_closed d = err (network ports.recv_error)
  turn outbound d = take_outbound (sent_by P d.node) d

  -- The loop, until an error ends it.
  unfoldable pub run : List (Ready Tx) → Driver P World Tx → Result (Driver P World Tx)
  run [] d = ok d
  run (ready ∷ more) d = and_then (turn ready d) (run more)

  -- `Raft::start`, up to where the thread is spawned.
  unfoldable start : String → List String → P.Sm → P.Kv → P.Rng → World → Result (Driver P World Tx)
  start id peers state store rng world =
      and_then (MachineNode.new {P = queued P} id peers store state [] rng)
        λ node. ok (record { node = node; response_txs = []; world = world })
