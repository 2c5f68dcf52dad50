-- ===== src/Raft/Node/Leader/Within.antt =====
-- What the methods of a leader do to its term and its log: replication, applying, committing, and
-- the answers to reads.
use mynode.Base.{
  ℕ, zero, suc, ◌+◌, ◌-◌, refl, String, Option, none, some, List, [], ◌∷◌, arith, ltb, Bool-cases,
  inl, inr, ◌==◌, Option-cases,
}
use mynode.Base.Map.{lookup, string_eq}
use mynode.Base.Result.{Exec, Result, ◌>>=◌, pure, reads}
use mynode.Store.{Bytes}
use mynode.Raft.Disk.{Entry, IsSound}
use mynode.Raft.Log as Log
use mynode.Raft.Log.Apply as LogApply
use mynode.Raft.Log.Grows.{append-Grows, commit-Grows, apply-Grows}
use mynode.Raft.Calls.{Call, Operation, read_state, mutate_state, quorum_vote, log_applied}
use mynode.Raft.Message.{replicate_entries, respond_state}
use mynode.Raft.Node.{Platform, RoleNode, on_log_state, send}
use mynode.Raft.Node.Roles.{Leader}
use mynode.Raft.Node.Leader as LeaderNode
use mynode.Raft.Node.Advances.{
  Advances-log, core, Within, continue-Within, bind_still, still, send-Within,
}

module _ {P : Platform} (sound : IsSound P.disk) where
  reads_still :
      {A B : Type 0} (f : RoleNode P Leader → Result A) (k : A → Exec (RoleNode P Leader) B)
      → ((a : A) → Within sound 0 (k a))
      → Within sound 0 (reads f >>= k)
  reads_still f k = bind_still sound (reads f) k (still sound 0)

  -- Replication reads the log only.
  send_entries-Within :
      (peer : String) (next base_index base_term : ℕ)
      → Within sound 0 (LeaderNode.send_entries {P = P} peer next base_index base_term)
  unfolding LeaderNode.send_entries
  send_entries-Within peer next base_index base_term =
      reads_still (λ n. Log.range P.disk next n.log) _
        (λ entries. send-Within sound (some peer) (replicate_entries base_index base_term entries))

  replicate_base-Within :
      (peer : String) (next base_index : ℕ) (base : Option Entry)
      → Within sound 0 (LeaderNode.replicate_base {P = P} peer next base_index base)
  unfolding LeaderNode.replicate_base
  replicate_base-Within peer next base_index (some base) =
      send_entries-Within peer next base_index base.term
  replicate_base-Within peer next base_index none = λ n. elim (Bool-cases (base_index == 0)) [
    | inl first ↦ rw first (send_entries-Within peer next base_index 0 n)
    | inr missing ↦ rw missing (still sound 0 n)
  ]

  replicate_from-Within :
      (peer : String) (next : Option ℕ)
      → Within sound 0 (LeaderNode.replicate_from {P = P} peer next)
  unfolding LeaderNode.replicate_from
  replicate_from-Within peer none = still sound 0
  replicate_from-Within peer (some next) =
      reads_still _ _ (λ base. replicate_base-Within peer next _ base)

  pub replicate-Within : (peer : String) → Within sound 0 (LeaderNode.replicate {P = P} peer)
  unfolding LeaderNode.replicate
  replicate-Within peer n = replicate_from-Within peer (lookup peer n.role.peer_next_index) n

  replicate_all-Within :
      (peers : List String) → Within sound 0 (LeaderNode.replicate_all {P = P} peers)
  unfolding LeaderNode.replicate_all
  replicate_all-Within [] = still sound 0
  replicate_all-Within (peer ∷ peers) =
      bind_still sound _ _ (replicate-Within peer) (λ _. replicate_all-Within peers)

  pub append-Within : (command : Option Bytes) → Within sound 1 (LeaderNode.append {P = P} command)
  unfolding LeaderNode.append
  append-Within command n =
      let e : Entry = record { term = n.term; command = command } in
      continue-Within sound 1 0 1 (Log.append P.disk e n.log).0
        (λ index. LeaderNode.replicate_all n.peers >>= λ _. pure index) (core n)
        (record n { log = (Log.append P.disk e n.log).1 }) (omega arith)
        (Advances-log sound 1 (core n) _ refl (append-Grows sound e n.log))
        (λ index. bind_still sound _ _ (replicate_all-Within n.peers) (λ _. still sound 0))

  -- Applying, and answering the calls that wait for it.
  answer_call-Within :
      (index : ℕ) (output : Bytes) → Within sound 0 (LeaderNode.answer_call {P = P} index output)
  unfolding LeaderNode.answer_call
  answer_call-Within index output n = elim (Option-cases (log_applied index n.role.calls).0) [
    | inl nobody ↦ rw (LeaderNode.answer_call, nobody) (still sound 0 n)
    | inr (call, found) ↦
        rw (LeaderNode.answer_call, found)
          (send-Within sound call.sender (respond_state call.id output)
            (record n { role = record n.role { calls = (log_applied index n.role.calls).1 } }))
  ]

  apply_round-Within :
      Within {P = P} sound 0 (on_log_state {R = Leader} (LogApply.apply P.disk P.machine))
  apply_round-Within n =
      Advances-log sound 0 (core n) _ refl (apply-Grows sound P.machine n.log n.state)

  apply_calls-Within : (f index : ℕ) → Within sound 0 (LeaderNode.apply_calls {P = P} f index)
  unfolding LeaderNode.apply_calls
  apply_calls-Within zero index = still sound 0
  apply_calls-Within (suc f) index =
      bind_still sound (on_log_state (LogApply.apply P.disk P.machine)) _ apply_round-Within
        (λ applied. elim (Option-cases applied) [
          | inl idle ↦ rw idle (still sound 0)
          | inr ((i, output), done) ↦ rw done (
              bind_still sound (LeaderNode.answer_call i output) (λ _. LeaderNode.apply_calls f i)
                (answer_call-Within i output) (λ _. apply_calls-Within f i))
        ])

  pub apply-Within : Within {P = P} sound 0 LeaderNode.apply
  unfolding LeaderNode.apply
  apply-Within n =
      apply_calls-Within (n.log.commit_index - n.log.apply_index + 1) n.log.apply_index n

  -- Committing.
  commit_own-Within :
      (index : ℕ) (o : Option Entry) → Within sound 0 (LeaderNode.commit_own {P = P} index o)
  unfolding LeaderNode.commit_own
  commit_own-Within index none = still sound 0
  commit_own-Within index (some entry) = λ n. elim (Bool-cases (entry.term == n.term)) [
    | inl own ↦ rw own (Advances-log sound 0 (core n) _ refl (commit-Grows sound index n.log))
    | inr other ↦ rw other (still sound 0 n)
  ]

  commit_at-Within : (o : Option ℕ) → Within sound 0 (LeaderNode.commit_at {P = P} o)
  unfolding LeaderNode.commit_at
  commit_at-Within none = still sound 0
  commit_at-Within (some index) = λ n. elim (Bool-cases (ltb index n.log.commit_index)) [
    | inl low ↦ rw low (still sound 0 n)
    | inr high ↦ rw high (
        continue-Within sound 0 0 0 (Log.get P.disk index n.log) (LeaderNode.commit_own index)
          (core n) n (omega arith) (still sound 0 n) (commit_own-Within index))
  ]

  pub commit-Within : Within {P = P} sound 0 LeaderNode.commit
  unfolding LeaderNode.commit
  commit-Within n = commit_at-Within (LeaderNode.quorum_index n) n

  -- Answering reads.
  answer_read-Within :
      (call : Call) (o : Operation) → Within sound 0 (LeaderNode.answer_read {P = P} call o)
  unfolding LeaderNode.answer_read
  answer_read-Within call (read_state command index quorum votes) n =
      continue-Within sound 0 0 0 (P.machine.read command n.state)
        (λ response. send call.sender (respond_state call.id response)) (core n) n (omega arith)
        (still sound 0 n) (λ response. send-Within sound call.sender _)
  answer_read-Within call (mutate_state index) n = still sound 0 n

  answer_reads-Within : (calls : List Call) → Within sound 0 (LeaderNode.answer_reads {P = P} calls)
  unfolding LeaderNode.answer_reads
  answer_reads-Within [] = still sound 0
  answer_reads-Within (call ∷ calls) =
      bind_still sound _ _ (answer_read-Within call call.operation) (λ _. answer_reads-Within calls)

  pub vote_call-Within :
      (sender : String) (index : ℕ) → Within sound 0 (LeaderNode.vote_call {P = P} sender index)
  unfolding LeaderNode.vote_call
  vote_call-Within sender index n =
      let v = quorum_vote sender index n.role.calls in
      answer_reads-Within v.0 (record n { role = record n.role { calls = v.1 } })
