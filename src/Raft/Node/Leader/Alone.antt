-- ===== src/Raft/Node/Leader/Alone.antt =====
-- A leader without peers: a mutation is appended, committed, applied and answered in one step.
use mynode.Base.{
  ℕ, ◌+◌, ◌<◌, ◌≡◌, refl, ap, ◌∙◌, String, true, false, Option, none, some, List, [], ◌∷◌, ◌++◌,
  length, arith, ltb, eq_refl, u64_mod, min, max, length-append,
}
use mynode.Base.Result.{ok, Exec, pure}
use mynode.Store.{Bytes}
use mynode.Raft.Disk.{Entry, IsSound}
use mynode.Raft.Log as Log
use mynode.Raft.Log.Apply.{run, applied, applied-IsValid}
use mynode.Raft.Log.Represents.{entry_at}
use mynode.Raft.Log.Append.{append-Represents}
use mynode.Raft.Log.Valid.{IsValid, append-IsValid, commit_lem}
use mynode.Raft.Calls.{Call, mutate_state, register}
use mynode.Raft.Message.{Event, Message, call_id, normalize, validate, validate_receiver}
use mynode.Raft.Node.{Platform, RoleNode, send, normalize_message}
use mynode.Raft.Node.Roles.{Leader, leader}
use mynode.Raft.Node.Leader as LeaderNode
use mynode.Raft.Node.Leader.Answers.{entry_at_last, commit_alone, after_apply, apply_alone}

-- A call of this node's own clients.
abbrev pub local : Event → Message
local event = record { term = 0; sender = none; receiver = none; event = event }

module _ {P : Platform} {R : Type 0} where
  -- It is taken as a message to the node, in its term.
  local_valid :
      (event : Event) (n : RoleNode P R) (id : Bytes)
      → call_id event ≡ some id
      → normalize_message (local event) n
        ≡ (record { term = n.term; sender = none; receiver = some n.id; event = event }, true)
  unfolding normalize_message normalize validate validate_receiver
  local_valid event n id call =
      let current : ltb n.term n.term ≡ false = ground arith in
      rw (normalize_message, call, current) (rw (eq_refl n.id) refl)

module _ {P : Platform} (sound : IsSound P.disk) where
  -- A leader without peers that has applied its whole log and waits for no call.
  pub record IsAlone (n : RoleNode P Leader) (es : List Entry) : Type 0 where
    pub valid : IsValid sound n.log es
    pub applied : n.log.apply_index ≡ length es
    pub peers : n.peers ≡ []
    pub peer_last_index : n.role.peer_last_index ≡ []
    pub calls : n.role.calls ≡ []

  module _ (sends : (msg : Message) (c : P.Channel) → (P.send msg c).0 ≡ ok tt) where
    module _ {n : RoleNode P Leader} {es : List Entry} (a : IsAlone n es)
        (fits : length es + 2 < u64_mod) (sender : Option String) (id command output : Bytes)
        (sm' : P.Sm) (ran : P.machine.mutate command n.state ≡ (ok output, sm')) where
      abbrev entry : Entry
      entry = record { term = n.term; command = some command }

      abbrev mutation : Call
      mutation = record { id = id; sender = sender; operation = mutate_state (length es + 1) }

      -- The node when it has appended the entry, noted the call, committed, and applied.
      abbrev appended : RoleNode P Leader
      appended = record n { log = (Log.append P.disk entry n.log).1 }

      abbrev noted : RoleNode P Leader
      noted = record appended { role = record n.role { calls = mutation ∷ [] } }

      abbrev committed : RoleNode P Leader
      committed = record noted { log = (Log.commit P.disk (length es + 1) noted.log).1 }

      abbrev pub after_mutation : RoleNode P Leader
      after_mutation = after_apply sound sends mutation output n.term sm' committed

      append_alone : LeaderNode.append (some command) n ≡ (ok (length es + 1), appended)
      unfolding LeaderNode.append LeaderNode.replicate_all
      append_alone =
          let y = append-Represents sound entry a.valid.represents (omega (arith, fits)) in
          rw (LeaderNode.append, y.result) (rw (LeaderNode.replicate_all, a.peers) refl)

      committed-IsValid :
          IsValid sound committed.log (es ++ entry ∷ [])
          × (committed.log.commit_index ≡ length es + 1)
          × (committed.log.apply_index ≡ length es)
          × ((Log.commit P.disk (length es + 1) noted.log).0 ≡ ok (length es + 1))
      committed-IsValid =
          let y = append-Represents sound entry a.valid.represents (omega (arith, fits)) in
          let v = append-IsValid sound a.valid entry (omega (arith, fits)) in
          let (result, valid, index, _, still) = commit_lem sound (length es + 1) v in
          let reach : max (min (length es + 1) (length (es ++ entry ∷ [])))
                (Log.append P.disk entry n.log).1.commit_index
              ≡ length es + 1 =
            omega
              (arith, length-append {0} es (entry ∷ []), y.marks.commit_index, a.valid.committed) in
          (valid, index ∙ reach, still ∙ y.marks.apply_index ∙ a.applied, result ∙ ap ok reach)

      commit_and_apply_alone : LeaderNode.commit_and_apply noted ≡ (ok tt, after_mutation)
      unfolding LeaderNode.commit_and_apply
      commit_and_apply_alone =
          let (valid, index, still, result) = committed-IsValid in
          let y = append-Represents sound entry a.valid.represents (omega (arith, fits)) in
          let commits =
            commit_alone sound noted es entry
              (append-IsValid sound a.valid entry (omega (arith, fits))) a.peers a.peer_last_index
              refl (omega (arith, y.marks.commit_index, a.valid.committed)) in
          let applies =
            apply_alone sound sends committed es entry mutation output sm' valid index still fits
              refl refl (unfold run in ran) in
          rw (LeaderNode.commit_and_apply, commits) (rw result (rw applies refl))

      at_once :
          (peers : List String)
          → peers ≡ []
          → elim peers as (λ _. Exec (RoleNode P Leader) (Unit {0})) [
            | [] ↦ LeaderNode.commit_and_apply
            | _ ∷ _ ↦ pure tt
          ]
            ≡ LeaderNode.commit_and_apply
      at_once [] e = refl
      at_once (_ ∷ _) e = cc

      abbrev with_calls : List Call → RoleNode P Leader
      with_calls calls = record appended { role = record n.role { calls = calls } }

      mutate_alone : LeaderNode.on_mutate_state sender id command n ≡ (ok tt, after_mutation)
      unfolding LeaderNode.on_mutate_state LeaderNode.add_call register
      mutate_alone =
          rw (LeaderNode.on_mutate_state, append_alone)
            (ap
                (λ (m : Exec (RoleNode P Leader) (Unit {0})).
                  m (with_calls (register mutation n.role.calls)))
                (at_once n.peers a.peers)
              ∙ ap (λ (c : List Call). LeaderNode.commit_and_apply (with_calls c))
                  (ap (register mutation) a.calls)
              ∙ commit_and_apply_alone)

    -- A local call of a mutation, whose command the state machine takes.
    pub step_alone :
        {n : RoleNode P Leader} {es : List Entry} (a : IsAlone n es)
        (fits : length es + 2 < u64_mod) (id command output : Bytes) (sm' : P.Sm)
        (ran : P.machine.mutate command n.state ≡ (ok output, sm'))
        → LeaderNode.step (local (Event.mutate_state id command)) n
          ≡ ok (leader (after_mutation a fits none id command output sm' ran))
    unfolding LeaderNode.step LeaderNode.on_message LeaderNode.on_event
    step_alone {n} a fits id command output sm' ran =
        rw (LeaderNode.step, local_valid (Event.mutate_state id command) n id refl)
          (rw (mutate_alone a fits none id command output sm' ran) refl)

    -- It is alone again, with the entry in its log.
    pub after_mutation-IsAlone :
        {n : RoleNode P Leader} {es : List Entry} (a : IsAlone n es)
        (fits : length es + 2 < u64_mod) (id command output : Bytes) (sm' : P.Sm)
        (ran : P.machine.mutate command n.state ≡ (ok output, sm'))
        → IsAlone
            (after_mutation a fits none id command output sm' ran)
            (es ++ record { term = n.term; command = some command } ∷ [])
    unfolding applied send
    after_mutation-IsAlone {n} {es} a fits id command output sm' ran =
        let e : Entry = record { term = n.term; command = some command } in
        let (valid, index, still, _) = committed-IsValid a fits none id command output sm' ran in
        let more = length-append {0} es (e ∷ []) in
        record {
          valid =
              applied-IsValid sound P.machine e valid (omega (arith, index, still))
                (ap (entry_at (es ++ e ∷ [])) (ap (λ (i : ℕ). i + 1) still) ∙ entry_at_last es e);
          applied = omega (arith, still, more);
          peers = a.peers;
          peer_last_index = a.peer_last_index;
          calls = refl;
        }
