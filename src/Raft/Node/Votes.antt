-- ===== src/Raft/Node/Votes.antt =====
-- The term and the vote of a follower: what a message changes of them, and that the store has them.
use mynode.Base.{
  ℕ, ◌<◌, String, ◌≡◌, refl, sym, ap, ◌∙◌, Bool, true, false, Option, none, some, List, ltb, ltb→lt,
  arith, eq_iff, inl, inr, Bool-cases,
}
use mynode.Base.Map.{lookup, bytes_eq}
use mynode.Base.Result.{Result, ok, err, raft_base_not_found, and_then, ◌>>=◌, ◌>>◌, pure, modify}
use mynode.Base.Preserves.{Preserves, continue-Preserves, continue-at, bind-Preserves}
use mynode.Store.{Bytes}
use mynode.Raft.Disk.{Entry, IsSound}
use mynode.Raft.Log as Log
use mynode.Raft.Log.Term as LogTerm
use mynode.Raft.Log.Others.{splice-others, commit-others}
use mynode.Raft.Message.{
  Event, Message, heartbeat, confirm_leader, solicit_vote, grant_vote, replicate_entries,
  accept_entries, reject_entries, read_state, mutate_state, respond_state, respond_error, is_none,
}
use mynode.Raft.Node.{Platform, RoleNode, on_log, send, normalize_message, save_term}
use mynode.Raft.Node.Roles.{Follower, Node, follower}
use mynode.Raft.Node.Follower as FollowerNode
use mynode.Raft.Node.Keeps.{Keeps, Keeps-IsOrder, Keeps-unchanged, Keeps-save, send-Keeps}

vote_stays :
    (o : Option String) (sender v : String)
    → FollowerNode.voted_for_other o (some sender) ≡ false
    → o ≡ some v
    → some sender ≡ some v
unfolding FollowerNode.voted_for_other
vote_stays none sender v h e = cc
vote_stays (some w) sender v h e =
    let same : w ≡ sender = grind (arith, eq_iff w sender, h) in ap some (sym same) ∙ e

module _ {P : Platform} (sound : IsSound P.disk) where
  discover_term-Keeps :
      (msg : Message) (sender : String)
      → Preserves (Keeps sound) (FollowerNode.discover_term {P = P} msg sender)
  unfolding FollowerNode.discover_term save_term
  discover_term-Keeps msg sender n = elim (Bool-cases (ltb n.term msg.term)) [
    | inr known ↦ rw known ((Keeps-IsOrder sound).same n)
    | inl later ↦
        let more : n.term < msg.term = ltb→lt n.term msg.term later in
        rw later (
          rw (LogTerm.load-save_term sound msg.term none n.log).0
            (Keeps-save sound n _ refl (omega arith) (λ v e t. absurd (omega arith))))
  ]

  discover_leader-Keeps :
      (sender : String) → Preserves (Keeps sound) (FollowerNode.discover_leader {P = P} sender)
  unfolding FollowerNode.discover_leader
  discover_leader-Keeps sender n = elim (Bool-cases (is_none n.role.leader)) [
    | inl none_yet ↦ rw none_yet (Keeps-unchanged sound n _ refl refl (λ k h. refl))
    | inr has_one ↦ rw has_one ((Keeps-IsOrder sound).same n)
  ]

  cast_vote-Keeps :
      (sender : Option String) (n : RoleNode P Follower)
      → FollowerNode.voted_for_other n.role.voted_for sender ≡ false
      → Keeps sound n (FollowerNode.cast_vote sender n).1
  unfolding FollowerNode.cast_vote save_term send LogTerm.save_term
  cast_vote-Keeps none n h = (Keeps-IsOrder sound).same n
  cast_vote-Keeps (some sender) n h =
      let n' = (send {P = P} {R = Follower} (some sender) grant_vote n).1 in
      continue-at (Keeps-IsOrder sound) (send {P = P} {R = Follower} (some sender) grant_vote n).0
        (λ _.
          save_term n.term (some sender)
          >> modify (λ n. record n { role = record n.role { voted_for = some sender } }))
        n n' (send-Keeps sound (some sender) grant_vote n)
        (λ _. rw (LogTerm.load-save_term sound n'.term (some sender) n'.log).0 (
          Keeps-save sound n' _ refl (omega arith)
            (λ v e t. vote_stays n.role.voted_for sender v h e)))

  on_solicit_vote-Keeps :
      (sender : Option String) (index term : ℕ)
      → Preserves (Keeps sound) (FollowerNode.on_solicit_vote {P = P} sender index term)
  unfolding FollowerNode.on_solicit_vote
  on_solicit_vote-Keeps sender index term n =
      elim (Bool-cases (FollowerNode.voted_for_other n.role.voted_for sender)) [
        | inl other ↦ rw other ((Keeps-IsOrder sound).same n)
        | inr free ↦ rw free (elim (Bool-cases (FollowerNode.log_is_ahead index term n)) [
          | inl ahead ↦ rw ahead ((Keeps-IsOrder sound).same n)
          | inr behind ↦ rw behind (cast_vote-Keeps sender n free)
        ])
      ]

  on_confirmed-Keeps :
      (sender : Option String) (index : ℕ) (found : Bool)
      → Preserves (Keeps sound) (FollowerNode.on_confirmed {P = P} sender index found)
  unfolding FollowerNode.on_confirmed
  on_confirmed-Keeps sender index true =
      bind-Preserves (Keeps-IsOrder sound) (send sender (confirm_leader index true))
        (λ _. on_log (Log.commit P.disk index) >>= λ _. pure tt)
        (send-Keeps sound sender (confirm_leader index true))
        (λ _.
          bind-Preserves (Keeps-IsOrder sound) (on_log (Log.commit P.disk index)) (λ _. pure tt)
            (λ n. Keeps-unchanged sound n _ refl refl (commit-others sound index n.log))
            (λ _. (Keeps-IsOrder sound).same))
  on_confirmed-Keeps sender index false =
      bind-Preserves (Keeps-IsOrder sound) (send sender (confirm_leader index false)) (λ _. pure tt)
        (send-Keeps sound sender (confirm_leader index false)) (λ _. (Keeps-IsOrder sound).same)

  on_heartbeat-Keeps :
      (sender : Option String) (index term : ℕ)
      → Preserves (Keeps sound) (FollowerNode.on_heartbeat {P = P} sender index term)
  unfolding FollowerNode.on_heartbeat
  on_heartbeat-Keeps sender index term n =
      elim (Bool-cases (FollowerNode.is_message_sent_from_leader sender n)) [
        | inr other ↦ rw other ((Keeps-IsOrder sound).same n)
        | inl from_leader ↦ rw from_leader (
            continue-Preserves (Keeps-IsOrder sound) (Log.has P.disk index term n.log)
              (FollowerNode.on_confirmed sender index) n n ((Keeps-IsOrder sound).same n)
              (on_confirmed-Keeps sender index))
      ]

  answer_splice-Keeps :
      (sender : Option String) (r : Result ℕ)
      → Preserves (Keeps sound) (FollowerNode.answer_splice {P = P} sender r)
  unfolding FollowerNode.answer_splice
  answer_splice-Keeps sender (ok index) = send-Keeps sound sender (accept_entries index)
  answer_splice-Keeps sender (err (raft_base_not_found _ _)) =
      send-Keeps sound sender reject_entries
  answer_splice-Keeps sender (err e) = (Keeps-IsOrder sound).same

  on_replicate_entries-Keeps :
      (sender : Option String) (base base_term : ℕ) (new : List Entry)
      → Preserves
          (Keeps sound)
          (FollowerNode.on_replicate_entries {P = P} sender base base_term new)
  unfolding FollowerNode.on_replicate_entries
  on_replicate_entries-Keeps sender base base_term new n =
      elim (Bool-cases (FollowerNode.is_message_sent_from_leader sender n)) [
        | inr other ↦ rw other ((Keeps-IsOrder sound).same n)
        | inl from_leader ↦
            let r = Log.splice P.disk base base_term new n.log in
            let n' : RoleNode P Follower = record n { log = r.1 } in
            rw from_leader (
              (Keeps-IsOrder sound).then n n' (FollowerNode.answer_splice sender r.0 n').1
                (Keeps-unchanged sound n n' refl refl
                  (splice-others sound base base_term new n.log))
                (answer_splice-Keeps sender r.0 n'))
      ]

  proxy_call-Keeps :
      (sender : Option String) (id : Bytes) (e : Event)
      → Preserves (Keeps sound) (FollowerNode.proxy_call {P = P} sender id e)
  unfolding FollowerNode.proxy_call send
  proxy_call-Keeps sender id e n = Keeps-unchanged sound n _ refl refl (λ k h. refl)

  answer_proxy-Keeps :
      (o : Option (Option String)) (id : Bytes) (e : Event)
      → Preserves (Keeps sound) (FollowerNode.answer_proxy {P = P} o id e)
  unfolding FollowerNode.answer_proxy send
  answer_proxy-Keeps none id e = (Keeps-IsOrder sound).same
  answer_proxy-Keeps (some to) id e = λ n. Keeps-unchanged sound n _ refl refl (λ k h. refl)

  on_event-Keeps :
      (sender : Option String) (e : Event)
      → Preserves (Keeps sound) (FollowerNode.on_event {P = P} sender e)
  unfolding FollowerNode.on_event
  on_event-Keeps sender (heartbeat index term) n = on_heartbeat-Keeps sender index term n
  on_event-Keeps sender (solicit_vote index term) n = on_solicit_vote-Keeps sender index term n
  on_event-Keeps sender (replicate_entries base base_term new) n =
      on_replicate_entries-Keeps sender base base_term new n
  on_event-Keeps sender (read_state id command) n =
      proxy_call-Keeps sender id (read_state id command) n
  on_event-Keeps sender (mutate_state id command) n =
      proxy_call-Keeps sender id (mutate_state id command) n
  on_event-Keeps sender (respond_state id response) n =
      answer_proxy-Keeps (lookup id n.role.proxy_calls) id (respond_state id response) n
  on_event-Keeps sender (respond_error id error) n =
      answer_proxy-Keeps (lookup id n.role.proxy_calls) id (respond_error id error) n
  on_event-Keeps sender (confirm_leader _ _) n = (Keeps-IsOrder sound).same n
  on_event-Keeps sender grant_vote n = (Keeps-IsOrder sound).same n
  on_event-Keeps sender (accept_entries _) n = (Keeps-IsOrder sound).same n
  on_event-Keeps sender reject_entries n = (Keeps-IsOrder sound).same n

  discover_from-Keeps :
      (msg : Message) (sender : Option String)
      → Preserves (Keeps sound) (FollowerNode.discover_from {P = P} msg sender)
  unfolding FollowerNode.discover_from
  discover_from-Keeps msg none = (Keeps-IsOrder sound).same
  discover_from-Keeps msg (some sender) =
      bind-Preserves (Keeps-IsOrder sound) (FollowerNode.discover_term msg sender)
        (λ _. FollowerNode.discover_leader sender) (discover_term-Keeps msg sender)
        (λ _. discover_leader-Keeps sender)

  see_leader-Keeps : (msg : Message) → Preserves (Keeps sound) (FollowerNode.see_leader {P = P} msg)
  unfolding FollowerNode.see_leader
  see_leader-Keeps msg n =
      elim (Bool-cases (FollowerNode.is_message_sent_from_leader msg.sender n)) [
        | inr other ↦ rw other ((Keeps-IsOrder sound).same n)
        | inl from_leader ↦ rw from_leader (Keeps-unchanged sound n _ refl refl (λ k h. refl))
      ]

  receive-Keeps : (msg : Message) → Preserves (Keeps sound) (FollowerNode.receive {P = P} msg)
  unfolding FollowerNode.receive FollowerNode.discover_message
  receive-Keeps msg =
      bind-Preserves (Keeps-IsOrder sound) (FollowerNode.discover_message msg)
        (λ _. FollowerNode.see_leader msg >>= λ _. FollowerNode.on_event msg.sender msg.event)
        (discover_from-Keeps msg msg.sender)
        (λ _.
          bind-Preserves (Keeps-IsOrder sound) (FollowerNode.see_leader msg)
            (λ _. FollowerNode.on_event msg.sender msg.event) (see_leader-Keeps msg)
            (λ _. on_event-Keeps msg.sender msg.event))

  -- A follower that is still one, or an error.
  abbrev pub StaysFollower : RoleNode P Follower → Result (Node P) → Type 0
  StaysFollower n (ok (follower m)) = Keeps sound n m
  StaysFollower n (ok _) = ⊥
  StaysFollower n (err _) = Unit

  finished :
      (n : RoleNode P Follower) (r : Result (Unit {0}) × RoleNode P Follower)
      → Keeps sound n r.1
      → StaysFollower n (and_then r.0 λ _. ok (follower r.1))
  finished n (ok _, m) k = k
  finished n (err e, m) k = tt

  -- Whatever message a follower takes, it stays a follower or reports an error; its term never
  -- goes down, a vote it has cast does not change within a term, and the store has its term and
  -- vote if it had them before. This is for a store and a serialization that keep their laws.
  pub step-Keeps :
      (msg : Message) (n : RoleNode P Follower) → StaysFollower n (FollowerNode.step msg n)
  unfolding FollowerNode.step
  step-Keeps msg n =
      let m = normalize_message msg n in
      elim (Bool-cases m.1) [
        | inl valid ↦ rw valid (finished n (FollowerNode.receive m.0 n) (receive-Keeps m.0 n))
        | inr invalid ↦ rw invalid ((Keeps-IsOrder sound).same n)
      ]
