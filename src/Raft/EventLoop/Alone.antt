-- ===== src/Raft/EventLoop/Alone.antt =====
-- The event loop of a node without peers: a cluster of one serves its callers as the state machine
-- itself would.
use Prim.{⊥}
use mynode.Base.{
  ◌+◌, ◌<◌, ◌≡◌, refl, sym, ap, ◌∙◌, none, some, List, [], ◌∷◌, ◌++◌, length, arith, inl, inr,
  u64_mod, length-append,
}
use mathlib.Core.List.{append-nil, append_assoc}
use mynode.Base.Map.{insert, lookup, lookup-insert, bytes_eq}
use mynode.Base.Result.{Result, ok, err, Exec, Error, Exec-cases, continue, and_then}
use mynode.Store.{Bytes}
use mynode.Raft.Disk.{Entry, IsSound}
use mynode.Raft.Log.Apply.{StateMachine}
use mynode.Raft.Message.{Event, Message, respond_state}
use mynode.Raft.Node.{Platform, RoleNode, send}
use mynode.Raft.Node.Roles.{Leader, Node, candidate, follower, leader}
use mynode.Raft.Node.Machine as MachineNode
use mynode.Raft.Node.Leader.Alone.{IsAlone, after_mutation, step_alone, after_mutation-IsAlone}
use mynode.Raft.EventLoop.{
  queued, Ports, Ready, called, outbound, Driver, with_node, with_world, take_call, respond_to,
  answer_local, deliver, take_outbound, turn, run,
}
use mynode.Raft.EventLoop.Routes.{IsRecording}

-- A mutation that a caller asks for.
pub record Request (Tx : Type 0) : Type 0 where
  pub id : Bytes
  pub command : Bytes
  pub tx : Tx

-- Each is taken as a call, and then the node's answer.
abbrev pub schedule : {Tx : Type 0} → List (Request Tx) → List (Ready Tx)
schedule [] = []
schedule (r ∷ rs) = called (Event.mutate_state r.id r.command) r.tx ∷ outbound ∷ schedule rs

-- The state machine alone, one command after the other: the answers that its callers are due.
unfoldable pub serve :
    {Sm Tx : Type 0} → StateMachine Sm → List (Request Tx) → Exec Sm (List (Tx × Event))
serve machine [] sm = (ok [], sm)
serve machine (r ∷ rs) sm =
    continue (machine.mutate r.command sm).0
      (λ output sm'.
        let rest = serve machine rs sm' in
        (and_then rest.0 λ more. ok ((r.tx, respond_state r.id output) ∷ more), rest.1))
      (machine.mutate r.command sm).1

-- The state machine of a node.
abbrev pub state_of : (P : Platform) → Node (queued P) → P.Sm
state_of P (candidate n) = n.state
state_of P (follower n) = n.state
state_of P (leader n) = n.state

module _ {Sm Tx : Type 0} (machine : StateMachine Sm) where
  serve_ok :
      (r : Request Tx) (rs : List (Request Tx)) (sm sm1 : Sm) (output : Bytes)
      → machine.mutate r.command sm ≡ (ok output, sm1)
      → serve machine (r ∷ rs) sm ≡ (
        and_then (serve machine rs sm1).0 λ more. ok ((r.tx, respond_state r.id output) ∷ more),
        (serve machine rs sm1).1,
      )
  unfolding serve
  serve_ok r rs sm sm1 output ran = rw (serve, ran) refl

  serve_err :
      (r : Request Tx) (rs : List (Request Tx)) (sm sm1 : Sm) (e : Error)
      → machine.mutate r.command sm ≡ (err e, sm1)
      → serve machine (r ∷ rs) sm ≡ (err e, sm1)
  unfolding serve
  serve_err r rs sm sm1 e ran = rw (serve, ran) refl

  -- Where all are served, the first is, and then the others.
  serve-cons :
      (r : Request Tx) (rs : List (Request Tx)) (sm sm' : Sm) (answers : List (Tx × Event))
      → serve machine (r ∷ rs) sm ≡ (ok answers, sm')
      → (output : Bytes) × (sm1 : Sm) × (more : List (Tx × Event)) × (machine.mutate r.command sm
          ≡ (ok output, sm1))
        × (serve machine rs sm1 ≡ (ok more, sm'))
        × (answers ≡ (r.tx, respond_state r.id output) ∷ more)
  serve-cons r rs sm sm' answers h = elim (Exec-cases (machine.mutate r.command sm)) [
    | inl (output, sm1, ran) ↦
        let first = serve_ok r rs sm sm1 output ran in
        elim (Exec-cases (serve machine rs sm1)) [
          | inl (more, sm2, rest) ↦
              let due = (r.tx, respond_state r.id output) ∷ more in
              let whole : serve machine (r ∷ rs) sm ≡ (ok due, sm2) = first ∙ rw rest refl in
              let both : (ok answers, sm') ≡ (ok due, sm2) = sym h ∙ whole in
              let same : answers ≡ due = ok_inj (ap (λ p. p.0) both) in
              let end : sm2 ≡ sm' = sym (ap (λ p. p.1) both) in
              (output, sm1, more, ran, rest ∙ ap (λ (s : Sm). (ok more, s)) end, same)
          | inr (e, sm2, failed) ↦
              let whole : serve machine (r ∷ rs) sm ≡ (err e, sm2) = first ∙ rw failed refl in
              absurd (ok_not_err (ap (λ p. p.0) (sym h ∙ whole)))
        ]
    | inr (e, sm1, failed) ↦
        absurd (ok_not_err (ap (λ p. p.0) (sym h ∙ serve_err r rs sm sm1 e failed)))
  ]
    where
      ok_inj : {x y : List (Tx × Event)} → ok x ≡ ok y → x ≡ y
      ok_inj h = cc

      ok_not_err : {x : List (Tx × Event)} {e : Error} → ok x ≡ err e → ⊥
      ok_not_err h = cc

-- The node's channel takes every message.
pub sends : (P : Platform) (msg : Message) (c : List Message) → ((queued P).send msg c).0 ≡ ok tt
sends P msg c = refl

abbrev pub LoneNode : Platform → Type 0
LoneNode P = RoleNode (queued P) Leader

-- The node after it served a mutation and the loop took the answer.
abbrev pub served :
    (P : Platform) (sound : IsSound P.disk) {n : LoneNode P} {es : List Entry}
    → IsAlone {P = queued P} sound n es
    → length es + 2 < u64_mod
    → (id command output : Bytes) (sm' : P.Sm) → P.machine.mutate command n.state ≡ (ok output, sm')
    → LoneNode P
served P sound a fits id command output sm' ran =
    record (after_mutation {P = queued P} sound (sends P) a fits none id command output sm' ran) {
      sender = [];
    }

module _ (P : Platform) {World Tx : Type 0} (ports : Ports World Tx) (sound : IsSound P.disk)
    (responds : (tx : Tx) (e : Event) (w : World) → (ports.respond tx e w).0 ≡ ok tt) where
  abbrev pub driver : LoneNode P → List (Bytes × Tx) → World → Driver P World Tx
  driver n txs w = record { node = leader n; response_txs = txs; world = w }

  module _ {n : LoneNode P} {es : List Entry} (a : IsAlone {P = queued P} sound n es)
      (fits : length es + 2 < u64_mod) (r : Request Tx) (output : Bytes) (sm' : P.Sm)
      (ran : P.machine.mutate r.command n.state ≡ (ok output, sm')) where
    pub run_one :
        (more : List (Ready Tx)) (txs : List (Bytes × Tx)) (w : World)
        → n.sender ≡ []
        → run ports
            (called (Event.mutate_state r.id r.command) r.tx ∷ outbound ∷ more)
            (driver n txs w)
          ≡ run ports more (
              driver
                (served P sound a fits r.id r.command output sm' ran)
                (insert r.id r.tx txs)
                (ports.respond r.tx (respond_state r.id output) w).1)
    unfolding run turn take_call with_node take_outbound deliver answer_local respond_to with_world
        MachineNode.step send
    run_one more txs w idle =
        let found : lookup r.id (insert r.id r.tx txs) ≡ some r.tx =
          lookup-insert r.id r.tx txs r.id ∙ rw ((bytes_eq.beq_iff r.id r.id).1 refl) refl in
        rw (step_alone {P = queued P} sound (sends P) a fits r.id r.command output sm' ran)
          (rw idle (rw found (rw (responds r.tx (respond_state r.id output) w) refl)))

  module _ (recording : IsRecording ports) where
    -- The loop goes on, has sent these answers after those of before, and its state machine is in
    -- this state.
    abbrev pub Serves : World → Result (Driver P World Tx) → List (Tx × Event) → P.Sm → Type 0
    Serves w (ok d) answers sm =
        (recording.answers d.world ≡ recording.answers w ++ answers) × (state_of P d.node ≡ sm)
    Serves w (err e) answers sm = ⊥

    nothing : (before answers : List (Tx × Event)) → ok [] ≡ ok answers → before ≡ before ++ answers
    nothing before answers h =
        let none_due : answers ≡ [] = cc in rw none_due (sym (append-nil before))

    Serves-after :
        (w w' : World) (r : Result (Driver P World Tx)) (x : Tx × Event)
        (more answers : List (Tx × Event)) (sm : P.Sm)
        → recording.answers w' ≡ recording.answers w ++ x ∷ []
        → answers ≡ x ∷ more
        → Serves w' r more sm
        → Serves w r answers sm
    Serves-after w w' (ok d) x more answers sm sent same (got, end) = (
      got
          ∙ ap (λ xs. xs ++ more) sent
          ∙ append_assoc (recording.answers w) (x ∷ []) more
          ∙ ap (λ xs. recording.answers w ++ xs) (sym same),
      end,
    )
    Serves-after w w' (err e) x more answers sm sent same h = h

    -- A node without peers serves mutations as its state machine alone does. Over a run of the
    -- event loop that takes each mutation as a call and then the node's answer, and where the
    -- state machine takes every command, the loop goes on, the callers are sent exactly the
    -- outputs of the state machine, in order, each through the channel that its call came with,
    -- and the state machine of the node ends as it does alone. The node is a leader whose log is
    -- valid and wholly applied, that waits for no call and has no message to send; the store and
    -- the serialization keep their laws, sending to a caller succeeds and is recorded, and indexes
    -- stay below 2^64.
    pub run-Serves :
        (rs : List (Request Tx)) (n : LoneNode P) (es : List Entry) (txs : List (Bytes × Tx))
        (w : World) (answers : List (Tx × Event)) (sm' : P.Sm)
        → IsAlone {P = queued P} sound n es
        → n.sender ≡ []
        → length es + length rs + 2 < u64_mod
        → serve P.machine rs n.state ≡ (ok answers, sm')
        → Serves w (run ports (schedule rs) (driver n txs w)) answers sm'
    unfolding run serve send
    run-Serves [] n es txs w answers sm' a idle fits h =
        (nothing (recording.answers w) answers (ap (λ p. p.0) h), ap (λ p. p.1) h)
    run-Serves (r ∷ rs) n es txs w answers sm' a idle fits h =
        let (output, sm1, more, ran, rest, same) =
          serve-cons P.machine r rs n.state sm' answers h in
        let room : length es + 2 < u64_mod = omega (arith, fits) in
        let e : Entry = record { term = n.term; command = some r.command } in
        let b =
          after_mutation-IsAlone {P = queued P} sound (sends P) a room r.id r.command output sm1
            ran in
        let n' = served P sound a room r.id r.command output sm1 ran in
        let w' = (ports.respond r.tx (respond_state r.id output) w).1 in
        let later =
          run-Serves rs n' (es ++ e ∷ []) (insert r.id r.tx txs) w' more sm'
            (record {
              valid = b.valid;
              applied = b.applied;
              peers = b.peers;
              peer_last_index = b.peer_last_index;
              calls = b.calls;
            })
            refl (omega (arith, fits, length-append {0} es (e ∷ []))) rest in
        rw (run_one a room r output sm1 ran (schedule rs) txs w idle) (
          Serves-after w w' _ (r.tx, respond_state r.id output) more answers sm'
            (recording.respond_lem r.tx (respond_state r.id output) w
              (responds r.tx (respond_state r.id output) w))
            same later)
