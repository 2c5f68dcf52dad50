-- ===== src/Raft/Node/Leader.antt =====
-- raft/node/leader.rs: how a leader replicates its log, commits, applies and answers calls.
pub mod Within
pub mod Advances
pub mod Answers
pub mod Ends
pub mod Alone
use mynode.Base.{
  ℕ, zero, suc, ◌+◌, ◌-◌, String, Bool, Option, none, some, List, [], ◌∷◌, map, ltb, leb, ◌==◌,
  str_eq, if◌then◌else◌, add64, get_elem?,
}
use mynode.Base.Text.{to_string, format}
use mynode.Base.Map.{insert, lookup, string_eq}
use mynode.Base.Result.{
  Result, ok, err, endless, internal, network, Exec, and_then, continue, ◌>>=◌, ◌>>◌, pure, raise,
  reads,
}
use mynode.Store.{Bytes}
use mynode.Raft.Log as Log
use mynode.Raft.Log.Apply as LogApply
use mynode.Raft.Disk.{Entry}
use mynode.Raft.Calls.{
  Call, Operation, mutate_state, read_state, register, log_applied, quorum_vote,
}
use mynode.Raft.Message.{
  Event, Message, heartbeat, confirm_leader, replicate_entries, accept_entries, reject_entries,
  respond_state,
}
use mynode.Raft.Node.{
  Platform, RoleNode, heartbeat_interval, on_log, on_log_state, with_timeout, send, broadcast,
  normalize_message, quorum, save_term,
}
use mynode.Raft.Node.Roles.{Follower, Leader, Node, new_follower, leader, finish}
use mynode.Raft.Node.Follower as FollowerNode

-- `sort` and then `reverse`: the greatest number first.
unfoldable pub insert_desc : ℕ → List ℕ → List ℕ
insert_desc n [] = n ∷ []
insert_desc n (m ∷ ms) = if leb m n then n ∷ m ∷ ms else m ∷ insert_desc n ms

unfoldable pub sort_desc : List ℕ → List ℕ
sort_desc [] = []
sort_desc (n ∷ ns) = insert_desc n (sort_desc ns)

-- `if *i > 1 { *i -= 1 }` on the entry of the peer, if it has one.
unfoldable pub step_back : String → List (String × ℕ) → List (String × ℕ)
step_back peer [] = []
step_back peer ((j, i) ∷ m) =
    if str_eq j peer then (j, if ltb 1 i then i - 1 else i) ∷ m else (j, i) ∷ step_back peer m

module _ {P : Platform} where
  -- The follower that a leader or a candidate becomes when it finds a leader.
  unfoldable pub become_follower :
      {R : Type 0} → ℕ → String → RoleNode P R → Result (RoleNode P Follower)
  become_follower term sender n =
      let r = save_term term none n in
      and_then r.0 λ _. ok (with_timeout (new_follower (some sender) none) r.1)

  -- The entries after `base`, with its term, to a peer.
  send_entries : String → ℕ → ℕ → ℕ → Exec (RoleNode P Leader) (Unit {0})
  send_entries peer peer_next base_index base_term =
      reads (λ n. Log.range P.disk peer_next n.log) >>= λ entries.
      send (some peer) (replicate_entries base_index base_term entries)

  replicate_base : String → ℕ → ℕ → Option Entry → Exec (RoleNode P Leader) (Unit {0})
  replicate_base peer peer_next base_index (some base) =
      send_entries peer peer_next base_index base.term
  replicate_base peer peer_next base_index none =
      if base_index == 0
      then send_entries peer peer_next base_index 0
      else raise (internal (format ("Missing base entry " ∷ to_string base_index ∷ [])))

  replicate_from : String → Option ℕ → Exec (RoleNode P Leader) (Unit {0})
  replicate_from peer none = raise (internal (format ("Unknown peer " ∷ peer ∷ [])))
  replicate_from peer (some peer_next) =
      let base_index = if ltb 0 peer_next then peer_next - 1 else 0 in
      reads (λ n. Log.get P.disk base_index n.log) >>= replicate_base peer peer_next base_index

  unfoldable pub replicate : String → Exec (RoleNode P Leader) (Unit {0})
  unfolding send_entries replicate_base replicate_from
  replicate peer n = replicate_from peer (lookup peer n.role.peer_next_index) n

  replicate_all : List String → Exec (RoleNode P Leader) (Unit {0})
  replicate_all [] = pure tt
  replicate_all (peer ∷ peers) = replicate peer >> replicate_all peers

  pub append : Option Bytes → Exec (RoleNode P Leader) ℕ
  append command n =
      (on_log (Log.append P.disk (record { term = n.term; command = command })) >>= λ index.
      replicate_all n.peers >>= λ _. pure index)
        n

  -- The call that waits for the entry, if any, is answered with the output.
  answer_call : ℕ → Bytes → Exec (RoleNode P Leader) (Unit {0})
  answer_call index output n =
      let found = log_applied index n.role.calls in
      let n' = record n { role = record n.role { calls = found.1 } } in
      elim found.0 [
        | none ↦ (ok tt, n')
        | some call ↦ send call.sender (respond_state call.id output) n'
      ]

  -- The loop ends when nothing is left to apply; every round before that applies an entry. A loop
  -- that is still not at its end stands out by an error of its own.
  pub apply_calls : ℕ → ℕ → Exec (RoleNode P Leader) ℕ
  apply_calls zero index n = (err endless, n)
  apply_calls (suc f) index n =
      let r = on_log_state (LogApply.apply P.disk P.machine) n in
      continue r.0
        (λ applied. elim applied [
          | none ↦ pure index
          | some (i, output) ↦ answer_call i output >> apply_calls f i
        ])
        r.1

  pub apply : Exec (RoleNode P Leader) ℕ
  apply n = apply_calls (n.log.commit_index - n.log.apply_index + 1) n.log.apply_index n

  -- The index that a quorum has reached: `last_indexes[quorum - 1]`, the greatest first.
  unfoldable pub quorum_index : RoleNode P Leader → Option ℕ
  quorum_index n =
      get_elem? (sort_desc (n.log.last_index ∷ map (λ p. p.1) n.role.peer_last_index))
        (quorum n - 1)

  pub commit_own : ℕ → Option Entry → Exec (RoleNode P Leader) ℕ
  commit_own index none n = (ok n.log.commit_index, n)
  commit_own index (some entry) n =
      if entry.term == n.term
      then on_log (Log.commit P.disk index) n
      else (ok n.log.commit_index, n)

  pub commit_at : Option ℕ → Exec (RoleNode P Leader) ℕ
  commit_at none n = (err (internal "index out of bounds"), n)
  commit_at (some index) n =
      if ltb index n.log.commit_index
      then (ok n.log.commit_index, n)
      else continue (Log.get P.disk index n.log) (commit_own index) n

  -- An index out of bounds would be a panic; it is an error here.
  unfoldable pub commit : Exec (RoleNode P Leader) ℕ
  unfolding commit_own commit_at
  commit n = commit_at (quorum_index n) n

  answer_read : Call → Operation → Exec (RoleNode P Leader) (Unit {0})
  answer_read call (read_state command _ _ _) n =
      continue (P.machine.read command n.state)
        (λ response. send call.sender (respond_state call.id response)) n
  answer_read call (mutate_state _) n =
      (err (network (format ("Unsupported call " ∷ P.debug_call call ∷ []))), n)

  answer_reads : List Call → Exec (RoleNode P Leader) (Unit {0})
  answer_reads [] = pure tt
  answer_reads (call ∷ calls) = answer_read call call.operation >> answer_reads calls

  pub vote_call : String → ℕ → Exec (RoleNode P Leader) (Unit {0})
  unfolding answer_read answer_reads
  vote_call sender commit_index n =
      let v = quorum_vote sender commit_index n.role.calls in
      answer_reads v.0 (record n { role = record n.role { calls = v.1 } })

  note_accepted : Option String → ℕ → Exec (RoleNode P Leader) (Unit {0})
  note_accepted none last_index n = (ok tt, n)
  note_accepted (some sender) last_index n = (
    ok tt,
    record n {
      role = record n.role {
        peer_last_index = insert sender last_index n.role.peer_last_index;
        peer_next_index = insert sender (add64 last_index 1) n.role.peer_next_index;
      };
    },
  )

  on_confirm_leader : Option String → ℕ → Bool → Exec (RoleNode P Leader) (Unit {0})
  on_confirm_leader none commit_index has_committed = pure tt
  on_confirm_leader (some sender) commit_index has_committed =
      vote_call sender commit_index >> (if has_committed then pure tt else replicate sender)

  on_reject_entries : Option String → Exec (RoleNode P Leader) (Unit {0})
  on_reject_entries none n = (ok tt, n)
  on_reject_entries (some sender) n = replicate sender (record n {
    role = record n.role { peer_next_index = step_back sender n.role.peer_next_index };
  })

  add_call : Call → Exec (RoleNode P Leader) (Unit {0})
  add_call call n =
      (ok tt, record n { role = record n.role { calls = register call n.role.calls } })

  on_read_state : Option String → Bytes → Bytes → Exec (RoleNode P Leader) (Unit {0})
  on_read_state sender id command n =
      let commit_index = n.log.commit_index in
      let commit_term = n.log.commit_term in
      (do
        add_call (record {
          id = id;
          sender = sender;
          operation = read_state command commit_index (quorum n) [];
        })
        vote_call n.id commit_index
        broadcast (heartbeat commit_index commit_term))
        n

  commit_and_apply : Exec (RoleNode P Leader) (Unit {0})
  commit_and_apply = commit >>= λ _. apply >>= λ _. pure tt

  on_mutate_state : Option String → Bytes → Bytes → Exec (RoleNode P Leader) (Unit {0})
  on_mutate_state sender id command n =
      (append (some command) >>= λ index.
      add_call (record { id = id; sender = sender; operation = mutate_state index })
      >> elim n.peers [ [] ↦ commit_and_apply | _ ∷ _ ↦ pure tt ])
        n

  unfoldable pub on_event : Option String → Event → Exec (RoleNode P Leader) (Unit {0})
  unfolding note_accepted on_confirm_leader on_reject_entries add_call on_read_state on_mutate_state
      commit_and_apply
  on_event sender (confirm_leader commit_index has_committed) n =
      on_confirm_leader sender commit_index has_committed n
  on_event sender (accept_entries last_index) n =
      (note_accepted sender last_index >> commit_and_apply) n
  on_event sender reject_entries n = on_reject_entries sender n
  on_event sender (Event.read_state id command) n = on_read_state sender id command n
  on_event sender (Event.mutate_state id command) n = on_mutate_state sender id command n
  on_event sender _ n = (ok tt, n)

  on_message : Message → Option String → RoleNode P Leader → Result (Node P)
  on_message m none n = finish leader (on_event none m.event) n
  on_message m (some sender) n =
      if ltb n.term m.term
      then and_then (become_follower m.term sender n) (FollowerNode.step m)
      else finish leader (on_event (some sender) m.event) n

  unfoldable pub step : Message → RoleNode P Leader → Result (Node P)
  unfolding on_message
  step msg n =
      let m = normalize_message msg n in if m.1 then on_message m.0 m.0.sender n else ok (leader n)

  beat : Exec (RoleNode P Leader) (Unit {0})
  beat n =
      let ticks = add64 n.role.heartbeat_ticks 1 in
      if leb heartbeat_interval ticks
      then broadcast (heartbeat n.log.commit_index n.log.commit_term)
          (record n { role = record n.role { heartbeat_ticks = 0 } })
      else (ok tt, record n { role = record n.role { heartbeat_ticks = ticks } })

  unfoldable pub tick : RoleNode P Leader → Result (Node P)
  unfolding beat
  tick = finish leader (apply >>= λ _. beat)
