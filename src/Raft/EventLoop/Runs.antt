-- ===== src/Raft/EventLoop/Runs.antt =====
-- The node of the event loop over a run: its term and its log.
use mathlib.Core.Path.{subst}
use mynode.Base.{
  ℕ, String, ◌+◌, ◌<◌, ◌≤◌, ◌≡◌, refl, Option, none, some, List, [], ◌∷◌, length, arith, u64_mod,
  Option-cases, inl, inr,
}
use mynode.Base.Map.{insert, lookup, bytes_eq}
use mynode.Base.Result.{Result, ok, err, Exec, and_then}
use mynode.Store.{Bytes}
use mynode.Raft.Disk.{Entry, IsSound}
use mynode.Raft.Log.Grows.{Grown}
use mynode.Raft.Log.Valid.{IsValid}
use mynode.Base.Text.{format}
use mynode.Raft.Message.{respond_error, Event, Message, call_id}
use mynode.Raft.Node.{Platform}
use mynode.Raft.Node.Roles.{Node, candidate, follower, leader}
use mynode.Raft.Node.Stale.{term_of}
use mynode.Raft.Node.Machine.Advances.{node_step-Follows, node_tick-Follows}
use mynode.Raft.Node.Follower.Advances.{growth}
use mynode.Raft.Node.Advances.{
  Core, Advances, Advances-same, Advances-more, Advances-then, Follows, node_core,
}
use mynode.Raft.EventLoop.{
  queued, Ports, Ready, ticked, called, calls_closed, received, inbound_closed, outbound, Driver,
  sent_by, with_queue, with_node, with_world, take_call, respond_to, answer_local, deliver,
  take_outbound, turn, run,
}

-- The most entries that a turn makes the node add, and that a run does.
abbrev pub turn_room : {Tx : Type 0} → Ready Tx → ℕ
turn_room (called event tx) = growth event
turn_room (received msg) = growth msg.event
turn_room _ = 0

abbrev pub room : {Tx : Type 0} → List (Ready Tx) → ℕ
room [] = 0
room (ready ∷ more) = turn_room ready + room more

core-with_queue :
    (P : Platform) (messages : List Message) (n : Node (queued P))
    → node_core {P = queued P} (with_queue P messages n) ≡ node_core {P = queued P} n
core-with_queue P messages (candidate n) = refl
core-with_queue P messages (follower n) = refl
core-with_queue P messages (leader n) = refl

module _ {P : Platform} {World Tx : Type 0} (ports : Ports World Tx) where
  -- No tick finds the greatest term.
  abbrev pub TickFits : Ready Tx → Driver P World Tx → Type 0
  TickFits ticked d = term_of d.node + 1 < u64_mod
  TickFits _ d = Unit

  abbrev pub TermsFit : List (Ready Tx) → Driver P World Tx → Type 0
  TermsFit [] d = Unit
  TermsFit (ready ∷ more) d =
      TickFits ready d × ((d' : Driver P World Tx) → turn ports ready d ≡ ok d' → TermsFit more d')

  module _ (sound : IsSound P.disk) where
    -- If the loop goes on, its node comes from one with the term and the log `s`.
    abbrev LoopFollows : ℕ → Core P.Kv → Result (Driver P World Tx) → Type 0
    LoopFollows k s (ok d) = Advances sound k s (node_core d.node)
    LoopFollows k s (err e) = Unit

    -- If the loop goes on, its node has no earlier term than `s`, and its log comes from that of `s`,
    -- which held the entries `es`, by at most `k` entries more.
    abbrev pub LoopMoves : ℕ → Core P.Kv → List Entry → Result (Driver P World Tx) → Type 0
    LoopMoves k s es (ok d) =
        (s.0 ≤ (node_core d.node).0) × Grown sound s.1 es k (node_core d.node).1
    LoopMoves k s es (err e) = Unit

    LoopFollows-LoopMoves :
        (k : ℕ) (s : Core P.Kv) (es : List Entry) (r : Result (Driver P World Tx))
        → IsValid sound s.1 es
        → length es + k + 2 < u64_mod
        → LoopFollows k s r
        → LoopMoves k s es r
    LoopFollows-LoopMoves k s es (ok d) v fits f = (f.term, f.log es v fits)
    LoopFollows-LoopMoves k s es (err e) v fits f = tt

    with_node-Follows :
        (k : ℕ) (s : Core P.Kv) (r : Result (Node (queued P))) (d : Driver P World Tx)
        → Follows {P = queued P} sound k s r
        → LoopFollows k s (and_then r λ n. ok (record d { node = n }))
    with_node-Follows k s (ok n) d h = h
    with_node-Follows k s (err e) d h = tt

    LoopFollows-more :
        (k : ℕ) (s : Core P.Kv) (r : Result (Driver P World Tx))
        → LoopFollows 0 s r
        → LoopFollows k s r
    LoopFollows-more k s (ok d) h = Advances-more sound 0 k s (node_core d.node) (omega arith) h
    LoopFollows-more k s (err e) h = tt

    same-Follows : (k : ℕ) (d : Driver P World Tx) → LoopFollows k (node_core d.node) (ok d)
    same-Follows k d = Advances-same sound k (node_core d.node)

    with_world-Follows :
        (m : Exec World (Unit {0})) (d : Driver P World Tx)
        → LoopFollows 0 (node_core d.node) (with_world ports m d)
    unfolding with_world
    with_world-Follows m d = written (m d.world)
      where
        written :
            (r : Result (Unit {0}) × World)
            → LoopFollows 0 (node_core d.node) (and_then r.0 λ _. ok (record d { world = r.1 }))
        written (ok _, w) = same-Follows 0 d
        written (err e, w) = tt

    take_call-Follows :
        (id : Option Bytes) (event : Event) (tx : Tx) (d : Driver P World Tx)
        → LoopFollows (growth event) (node_core d.node) (take_call ports id event tx d)
    unfolding take_call with_node
    take_call-Follows (some id) event tx d =
        with_node-Follows (growth event) (node_core d.node) _
          (record d { response_txs = insert id tx d.response_txs })
          (node_step-Follows {P = queued P} sound
            (record { term = 0; sender = none; receiver = none; event = event }) d.node)
    take_call-Follows none event tx d =
        let error = format ("Call ID not found for event " ∷ P.debug_event event ∷ []) in
        let refuse = ports.respond tx (respond_error [] error) in
        LoopFollows-more (growth event) (node_core d.node) (with_world ports refuse d)
          (with_world-Follows refuse d)

    respond_to-Follows :
        (tx : Option Tx) (event : Event) (d : Driver P World Tx)
        → LoopFollows 0 (node_core d.node) (respond_to ports tx event d)
    unfolding respond_to
    respond_to-Follows none event d = same-Follows 0 d
    respond_to-Follows (some tx) event d = with_world-Follows (ports.respond tx event) d

    deliver-Follows :
        (to : Option String) (msg : Message) (d : Driver P World Tx)
        → LoopFollows 0 (node_core d.node) (deliver ports to msg d)
    unfolding deliver answer_local
    deliver-Follows (some to) msg d = with_world-Follows (ports.transmit msg) d
    deliver-Follows none msg d = elim (Option-cases (call_id msg.event)) [
      | inl no_call ↦ rw no_call (same-Follows 0 d)
      | inr (id, found) ↦ rw found (respond_to-Follows (lookup id d.response_txs) msg.event d)
    ]

    abbrev taken : List Message → Driver P World Tx → Driver P World Tx
    taken messages d = record d { node = with_queue P messages d.node }

    take_outbound-Follows :
        (messages : List Message) (d : Driver P World Tx)
        → LoopFollows 0 (node_core d.node) (take_outbound ports messages d)
    unfolding take_outbound
    take_outbound-Follows [] d = same-Follows 0 d
    take_outbound-Follows (msg ∷ rest) d =
        subst (λ s. LoopFollows 0 s (deliver ports msg.receiver msg (taken rest d)))
          (core-with_queue P rest d.node) (deliver-Follows msg.receiver msg (taken rest d))

    turn-Follows :
        (ready : Ready Tx) (d : Driver P World Tx)
        → TickFits ready d
        → LoopFollows (turn_room ready) (node_core d.node) (turn ports ready d)
    unfolding turn with_node
    turn-Follows ticked d fits =
        with_node-Follows 0 (node_core d.node) _ d
          (node_tick-Follows {P = queued P} sound d.node fits)
    turn-Follows (called event tx) d fits = take_call-Follows (call_id event) event tx d
    turn-Follows calls_closed d fits = tt
    turn-Follows (received msg) d fits =
        with_node-Follows (growth msg.event) (node_core d.node) _ d
          (node_step-Follows {P = queued P} sound msg d.node)
    turn-Follows inbound_closed d fits = tt
    turn-Follows outbound d fits = take_outbound-Follows (sent_by P d.node) d

    then-Follows :
        (j k : ℕ) (s : Core P.Kv) (r : Result (Driver P World Tx))
        (f : Driver P World Tx → Result (Driver P World Tx))
        → LoopFollows j s r
        → ((d : Driver P World Tx) → r ≡ ok d → LoopFollows k (node_core d.node) (f d))
        → LoopFollows (j + k) s (and_then r f)
    then-Follows j k s (ok d) f h later = joined (f d) (later d refl)
      where
        joined :
            (r : Result (Driver P World Tx))
            → LoopFollows k (node_core d.node) r
            → LoopFollows (j + k) s r
        joined (ok d') g = Advances-then sound j k s (node_core d.node) (node_core d'.node) h g
        joined (err e) g = tt
    then-Follows j k s (err e) f h later = tt

    run-Follows :
        (schedule : List (Ready Tx)) (d : Driver P World Tx)
        → TermsFit schedule d
        → LoopFollows (room schedule) (node_core d.node) (run ports schedule d)
    unfolding run
    run-Follows [] d fits = same-Follows 0 d
    run-Follows (ready ∷ more) d fits =
        then-Follows (turn_room ready) (room more) (node_core d.node) (turn ports ready d)
          (run ports more) (turn-Follows ready d fits.0)
          (λ d' done. run-Follows more d' (fits.1 d' done))

    -- Over any run of the event loop, whatever is ready and in whatever order, the loop ends with
    -- an error, or the term of its node has not gone down, the log is valid again, what was
    -- committed is kept and stays committed, and no more entries are added than the messages
    -- bring, and one for each call or message without entries. The log was valid before, and no
    -- tick finds the greatest term; the store and the serialization keep their laws, and indexes
    -- stay below 2^64.
    pub run-Moves :
        (schedule : List (Ready Tx)) (d : Driver P World Tx) (es : List Entry)
        → TermsFit schedule d
        → IsValid sound (node_core d.node).1 es
        → length es + room schedule + 2 < u64_mod
        → LoopMoves (room schedule) (node_core d.node) es (run ports schedule d)
    run-Moves schedule d es terms v fits =
        LoopFollows-LoopMoves (room schedule) (node_core d.node) es (run ports schedule d) v fits
          (run-Follows schedule d terms)
