-- ===== src/Raft/Node/Leader/Answers.antt =====
-- How a leader without peers commits its last entry, applies it and answers the call that waits for
-- it.
use mynode.Base.{
  ℕ, zero, suc, ◌+◌, ◌-◌, ◌<◌, ◌≤◌, ◌≡◌, refl, ap, ◌∙◌, String, false, Option, none, some, List, [],
  ◌∷◌, ◌++◌, length, arith, ltb, ==_iff, u64_mod, length-append,
}
use mynode.Base.Result.{ok}
use mynode.Store.{Bytes}
use mynode.Raft.Disk.{Entry, Disk, IsSound}
use mynode.Raft.Log as Log
use mynode.Raft.Log.Apply.{StateMachine, apply, run, applied, apply_ok, apply_idle}
use mynode.Raft.Log.Represents.{entry_at, get-entry_at, entry_at-append}
use mynode.Raft.Log.Valid.{IsValid}
use mynode.Raft.Calls.{Call, mutate_state, log_applied}
use mynode.Raft.Message.{Event, Message, respond_state}
use mynode.Raft.Node.{Platform, RoleNode, send, quorum}
use mynode.Raft.Node.Roles.{Leader}
use mynode.Raft.Node.Leader as LeaderNode

pub entry_at_last : (es : List Entry) (e : Entry) → entry_at (es ++ e ∷ []) (length es + 1) ≡ some e
entry_at_last es e = ground (arith, entry_at-append es e (length es + 1))

log_applied_one :
    (index : ℕ) (call : Call)
    → call.operation ≡ mutate_state index
    → log_applied index (call ∷ []) ≡ (some call, [])
unfolding log_applied
log_applied_one index call tracked =
    rw (log_applied, tracked) (rw ((==_iff index index).1 refl) refl)

-- Where everything is applied but the last committed entry.
module _ {Kv Sm : Type 0} {disk : Disk Kv} (sound : IsSound disk) (machine : StateMachine Sm)
    {l : Log.Log Kv} (es : List Entry) (e : Entry) (v : IsValid sound l (es ++ e ∷ []))
    (committed : l.commit_index ≡ length es + 1) (done : l.apply_index ≡ length es)
    (fits : length es + 2 < u64_mod) where
  apply_last :
      (sm sm' : Sm) (output : Bytes)
      → run machine e.command sm ≡ (ok output, sm')
      → apply disk machine (l, sm)
        ≡ (ok (some (length es + 1, output)), (applied sound machine l e.term, sm'))
  apply_last sm sm' output ran =
      let next : l.apply_index + 1 ≡ length es + 1 = omega (arith, done) in
      apply_ok sound machine v sm (omega (arith, fits, length-append {0} es (e ∷ []))) (omega arith)
        e output sm' (ap (entry_at (es ++ e ∷ [])) next ∙ entry_at_last es e) ran
      ∙ ap (λ (i : ℕ). (ok (some (i, output)), (applied sound machine l e.term, sm'))) next

  apply_end :
      (sm : Sm)
      → apply disk machine (applied sound machine l e.term, sm)
        ≡ (ok none, (applied sound machine l e.term, sm))
  unfolding applied
  apply_end sm = apply_idle sound machine (applied sound machine l e.term) sm (omega arith)

module _ {P : Platform} (sound : IsSound P.disk) where
  -- Its own last index is that of a quorum.
  quorum_index_alone :
      (n : RoleNode P Leader)
      → n.peers ≡ []
      → n.role.peer_last_index ≡ []
      → LeaderNode.quorum_index n ≡ some n.log.last_index
  unfolding LeaderNode.quorum_index quorum LeaderNode.sort_desc LeaderNode.insert_desc
  quorum_index_alone n alone none_known =
      rw (LeaderNode.quorum_index, quorum, alone, none_known) refl

  -- The last entry, of its own term, is committed.
  pub commit_alone :
      (n : RoleNode P Leader) (es : List Entry) (e : Entry)
      → IsValid sound n.log (es ++ e ∷ [])
      → n.peers ≡ []
      → n.role.peer_last_index ≡ []
      → e.term ≡ n.term
      → n.log.commit_index ≤ length es + 1
      → LeaderNode.commit n ≡ (
        (Log.commit P.disk (length es + 1) n.log).0,
        record n { log = (Log.commit P.disk (length es + 1) n.log).1 },
      )
  unfolding LeaderNode.commit LeaderNode.commit_at LeaderNode.commit_own
  commit_alone n es e v alone none_known own within =
      let last : n.log.last_index ≡ length es + 1 =
        omega (arith, v.represents.last_index, length-append {0} es (e ∷ [])) in
      let high : ltb (length es + 1) n.log.commit_index ≡ false = ground arith in
      let reached = quorum_index_alone n alone none_known ∙ ap some last in
      rw (LeaderNode.commit, reached, high)
        (rw (get-entry_at sound v.represents (length es + 1), entry_at_last es e)
          (rw ((==_iff e.term n.term).1 own) refl))

  module _ (sends : (msg : Message) (c : P.Channel) → (P.send msg c).0 ≡ ok tt) where
    -- The node after its message is sent.
    abbrev pub after_send : Option String → Event → RoleNode P Leader → RoleNode P Leader
    after_send to event n = (send {P = P} to event n).1

    pub send_ok :
        (to : Option String) (event : Event) (n : RoleNode P Leader)
        → send to event n ≡ (ok tt, after_send to event n)
    unfolding send
    send_ok to event n =
        rw
          (sends (record { term = n.term; sender = some n.id; receiver = to; event = event })
            n.sender)
          refl

    -- A round that applied an entry whose call waits, and the round that finds nothing to apply.
    round_answered :
        (f index i : ℕ) (n : RoleNode P Leader) (output : Bytes) (l : Log.Log P.Kv) (sm : P.Sm)
        (call : Call) (calls : List Call)
        → apply P.disk P.machine (n.log, n.state) ≡ (ok (some (i, output)), (l, sm))
        → log_applied i n.role.calls ≡ (some call, calls)
        → LeaderNode.apply_calls (suc f) index n
          ≡ LeaderNode.apply_calls f i (
              after_send call.sender
                (respond_state call.id output)
                (record n { log = l; state = sm; role = record n.role { calls = calls } }))
    unfolding LeaderNode.apply_calls LeaderNode.answer_call
    round_answered f index i n output l sm call calls ran found =
        let left = (log_applied i n.role.calls).1 in
        let after =
          λ (c : List Call). record n { log = l; state = sm; role = record n.role { calls = c } } in
        let answer = respond_state call.id output in
        rw (LeaderNode.apply_calls, ran)
          (rw (LeaderNode.answer_call, ap (λ p. p.0) found)
            (rw (send_ok call.sender answer (after left)) (
              ap
                (λ (c : List Call).
                  LeaderNode.apply_calls f i (after_send call.sender answer (after c)))
                (ap (λ p. p.1) found))))

    round_idle :
        (f index : ℕ) (n : RoleNode P Leader)
        → apply P.disk P.machine (n.log, n.state) ≡ (ok none, (n.log, n.state))
        → LeaderNode.apply_calls (suc f) index n ≡ (ok index, n)
    unfolding LeaderNode.apply_calls
    round_idle f index n ran = rw (LeaderNode.apply_calls, ran) refl

    -- The node after it applied and answered.
    abbrev pub after_apply : Call → Bytes → ℕ → P.Sm → RoleNode P Leader → RoleNode P Leader
    after_apply call output term sm' n =
        after_send call.sender (respond_state call.id output) (record n {
          log = applied sound P.machine n.log term;
          state = sm';
          role = record n.role { calls = [] };
        })

    pub apply_alone :
        (n : RoleNode P Leader) (es : List Entry) (e : Entry) (call : Call) (output : Bytes)
        (sm' : P.Sm)
        → IsValid sound n.log (es ++ e ∷ [])
        → n.log.commit_index ≡ length es + 1
        → n.log.apply_index ≡ length es
        → length es + 2 < u64_mod
        → n.role.calls ≡ call ∷ []
        → call.operation ≡ mutate_state (length es + 1)
        → run P.machine e.command n.state ≡ (ok output, sm')
        → LeaderNode.apply n ≡ (ok (length es + 1), after_apply call output e.term sm' n)
    unfolding LeaderNode.apply send
    apply_alone n es e call output sm' v committed done fits waiting tracked ran =
        let rounds : n.log.commit_index - n.log.apply_index + 1 ≡ suc (suc zero) =
          omega (arith, committed, done) in
        let last = length es + 1 in
        ap (λ (f : ℕ). LeaderNode.apply_calls f n.log.apply_index n) rounds
        ∙ round_answered (suc zero) n.log.apply_index last n output _ sm' call []
            (apply_last sound P.machine es e v committed done fits n.state sm' output ran)
            (ap (log_applied last) waiting ∙ log_applied_one last call tracked)
        ∙ round_idle zero last (after_apply call output e.term sm' n)
            (apply_end sound P.machine es e v committed done fits sm')
