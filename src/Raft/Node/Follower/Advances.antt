-- ===== src/Raft/Node/Follower/Advances.antt =====
-- The term and the log of a follower over a message.
use mathlib.Core.Path.{subst}
use mynode.Base.{
  ℕ, ◌+◌, refl, String, Bool, true, false, Option, none, some, List, length, arith, ltb, ltb→lt,
  Bool-cases, inl, inr,
}
use mynode.Base.Map.{lookup, bytes_eq}
use mynode.Base.Result.{Result, ok, err, raft_base_not_found, ◌>>=◌, ◌>>◌, pure, modify}
use mynode.Store.{Bytes}
use mynode.Raft.Disk.{Entry, IsSound}
use mynode.Raft.Log as Log
use mynode.Raft.Log.Grows.{commit-Grows, splice-Grows}
use mynode.Raft.Message.{
  Event, Message, heartbeat, confirm_leader, solicit_vote, grant_vote, replicate_entries,
  accept_entries, reject_entries, read_state, mutate_state, respond_state, respond_error, is_none,
}
use mynode.Raft.Node.{Platform, RoleNode, on_log, send, normalize_message, save_term, with_timeout}
use mynode.Raft.Node.Roles.{Follower, follower, new_follower}
use mynode.Raft.Node.Follower as FollowerNode
use mynode.Raft.Node.Advances.{
  Advances-one, Advances-log, Advances-then, Advances-more, continue_at, core, Within, Follows,
  continue-Within, bind-Within, bind_still, still, send-Within, save_term-Advances, finish-Follows,
  event-normalize_message,
}

-- The most entries that an event makes a node add to its log.
abbrev pub growth : Event → ℕ
growth (replicate_entries _ _ entries) = length entries
growth _ = 1

module _ {P : Platform} (sound : IsSound P.disk) where
  discover_term-Within :
      (msg : Message) (sender : String)
      → Within sound 0 (FollowerNode.discover_term {P = P} msg sender)
  unfolding FollowerNode.discover_term
  discover_term-Within msg sender n = elim (Bool-cases (ltb n.term msg.term)) [
    | inr known ↦ rw known (still sound 0 n)
    | inl later ↦ rw later (
        continue-Within sound 0 0 0 (save_term msg.term none n).0
          (λ _. modify (with_timeout (new_follower (some sender) none))) (core n)
          (save_term msg.term none n).1 (omega arith)
          (save_term-Advances sound msg.term none n (omega (arith, ltb→lt n.term msg.term later)))
          (λ _ m. still sound 0 m))
  ]

  discover_leader-Within :
      (sender : String) → Within sound 0 (FollowerNode.discover_leader {P = P} sender)
  unfolding FollowerNode.discover_leader
  discover_leader-Within sender n = elim (Bool-cases (is_none n.role.leader)) [
    | inl none_yet ↦ rw none_yet (still sound 0 n)
    | inr has_one ↦ rw has_one (still sound 0 n)
  ]

  discover_from-Within :
      (msg : Message) (sender : Option String)
      → Within sound 0 (FollowerNode.discover_from {P = P} msg sender)
  unfolding FollowerNode.discover_from
  discover_from-Within msg none = still sound 0
  discover_from-Within msg (some sender) =
      bind_still sound (FollowerNode.discover_term msg sender) _ (discover_term-Within msg sender)
        (λ _. discover_leader-Within sender)

  see_leader-Within : (msg : Message) → Within sound 0 (FollowerNode.see_leader {P = P} msg)
  unfolding FollowerNode.see_leader
  see_leader-Within msg n =
      elim (Bool-cases (FollowerNode.is_message_sent_from_leader msg.sender n)) [
        | inr other ↦ rw other (still sound 0 n)
        | inl from_leader ↦ rw from_leader (still sound 0 n)
      ]

  -- Voting.
  cast_vote-Within :
      (sender : Option String) → Within sound 0 (FollowerNode.cast_vote {P = P} sender)
  unfolding FollowerNode.cast_vote send
  cast_vote-Within none n = still sound 0 n
  cast_vote-Within (some sender) n =
      let n' = (send {P = P} {R = Follower} (some sender) grant_vote n).1 in
      continue_at sound (send {P = P} {R = Follower} (some sender) grant_vote n).0
        (λ _.
          save_term n.term (some sender)
          >> modify (λ n. record n { role = record n.role { voted_for = some sender } }))
        (core n) n' (send-Within sound (some sender) grant_vote n)
        (λ _.
          continue_at sound (save_term {P = P} {R = Follower} n.term (some sender) n').0
            (λ _. modify (λ n. record n { role = record n.role { voted_for = some sender } }))
            (core n') (save_term {P = P} {R = Follower} n.term (some sender) n').1
            (save_term-Advances sound n.term (some sender) n' (omega arith))
            (λ _.
              still {P = P} sound 0 (save_term {P = P} {R = Follower} n.term (some sender) n').1))

  on_solicit_vote-Within :
      (sender : Option String) (index term : ℕ)
      → Within sound 0 (FollowerNode.on_solicit_vote {P = P} sender index term)
  unfolding FollowerNode.on_solicit_vote
  on_solicit_vote-Within sender index term n =
      elim (Bool-cases (FollowerNode.voted_for_other n.role.voted_for sender)) [
        | inl other ↦ rw other (still sound 0 n)
        | inr free ↦ rw free (elim (Bool-cases (FollowerNode.log_is_ahead index term n)) [
          | inl ahead ↦ rw ahead (still sound 0 n)
          | inr behind ↦ rw behind (cast_vote-Within sender n)
        ])
      ]

  on_confirmed-Within :
      (sender : Option String) (index : ℕ) (found : Bool)
      → Within sound 0 (FollowerNode.on_confirmed {P = P} sender index found)
  unfolding FollowerNode.on_confirmed
  on_confirmed-Within sender index true =
      bind_still sound (send sender (confirm_leader index true)) _
        (send-Within sound sender (confirm_leader index true))
        (λ _.
          bind_still sound (on_log (Log.commit P.disk index)) (λ _. pure tt)
            (λ n. Advances-log sound 0 (core n) _ refl (commit-Grows sound index n.log))
            (λ _. still sound 0))
  on_confirmed-Within sender index false =
      bind_still sound (send sender (confirm_leader index false)) (λ _. pure tt)
        (send-Within sound sender (confirm_leader index false)) (λ _. still sound 0)

  on_heartbeat-Within :
      (sender : Option String) (index term : ℕ)
      → Within sound 0 (FollowerNode.on_heartbeat {P = P} sender index term)
  unfolding FollowerNode.on_heartbeat
  on_heartbeat-Within sender index term n =
      elim (Bool-cases (FollowerNode.is_message_sent_from_leader sender n)) [
        | inr other ↦ rw other (still sound 0 n)
        | inl from_leader ↦ rw from_leader (
            continue-Within sound 0 0 0 (Log.has P.disk index term n.log)
              (FollowerNode.on_confirmed sender index) (core n) n (omega arith) (still sound 0 n)
              (on_confirmed-Within sender index))
      ]

  answer_splice-Within :
      (sender : Option String) (r : Result ℕ)
      → Within sound 0 (FollowerNode.answer_splice {P = P} sender r)
  unfolding FollowerNode.answer_splice
  answer_splice-Within sender (ok index) = send-Within sound sender (accept_entries index)
  answer_splice-Within sender (err (raft_base_not_found _ _)) =
      send-Within sound sender reject_entries
  answer_splice-Within sender (err e) = still sound 0

  on_replicate_entries-Within :
      (sender : Option String) (base base_term : ℕ) (new : List Entry)
      → Within sound
          (length new)
          (FollowerNode.on_replicate_entries {P = P} sender base base_term new)
  unfolding FollowerNode.on_replicate_entries
  on_replicate_entries-Within sender base base_term new n =
      elim (Bool-cases (FollowerNode.is_message_sent_from_leader sender n)) [
        | inr other ↦ rw other (still sound (length new) n)
        | inl from_leader ↦
            let r = Log.splice P.disk base base_term new n.log in
            let n' : RoleNode P Follower = record n { log = r.1 } in
            rw from_leader (
              Advances-more sound (length new + 0) (length new) (core n)
                (core (FollowerNode.answer_splice sender r.0 n').1) (omega arith)
                (Advances-then sound (length new) 0 (core n) (core n')
                  (core (FollowerNode.answer_splice sender r.0 n').1)
                  (Advances-log sound (length new) (core n) (core n') refl
                    (splice-Grows sound base base_term new n.log))
                  (answer_splice-Within sender r.0 n')))
      ]

  proxy_call-Within :
      (sender : Option String) (id : Bytes) (e : Event)
      → Within sound 0 (FollowerNode.proxy_call {P = P} sender id e)
  unfolding FollowerNode.proxy_call send
  proxy_call-Within sender id e n = still sound 0 n

  answer_proxy-Within :
      (o : Option (Option String)) (id : Bytes) (e : Event)
      → Within sound 0 (FollowerNode.answer_proxy {P = P} o id e)
  unfolding FollowerNode.answer_proxy send
  answer_proxy-Within none id e n = still sound 0 n
  answer_proxy-Within (some to) id e n = still sound 0 n

  on_event-Within :
      (sender : Option String) (e : Event)
      → Within sound (growth e) (FollowerNode.on_event {P = P} sender e)
  unfolding FollowerNode.on_event
  on_event-Within sender (heartbeat index term) n =
      Advances-one sound (on_heartbeat-Within sender index term n)
  on_event-Within sender (solicit_vote index term) n =
      Advances-one sound (on_solicit_vote-Within sender index term n)
  on_event-Within sender (replicate_entries base base_term new) n =
      on_replicate_entries-Within sender base base_term new n
  on_event-Within sender (read_state id command) n =
      Advances-one sound (proxy_call-Within sender id (read_state id command) n)
  on_event-Within sender (mutate_state id command) n =
      Advances-one sound (proxy_call-Within sender id (mutate_state id command) n)
  on_event-Within sender (respond_state id response) n =
      Advances-one sound
        (answer_proxy-Within (lookup id n.role.proxy_calls) id (respond_state id response) n)
  on_event-Within sender (respond_error id error) n =
      Advances-one sound
        (answer_proxy-Within (lookup id n.role.proxy_calls) id (respond_error id error) n)
  on_event-Within sender (confirm_leader _ _) n = still sound 1 n
  on_event-Within sender grant_vote n = still sound 1 n
  on_event-Within sender (accept_entries _) n = still sound 1 n
  on_event-Within sender reject_entries n = still sound 1 n

  receive-Within :
      (msg : Message) → Within sound (growth msg.event) (FollowerNode.receive {P = P} msg)
  unfolding FollowerNode.receive FollowerNode.discover_message
  receive-Within msg =
      bind-Within sound 0 (growth msg.event) (growth msg.event) (FollowerNode.discover_message msg)
        (λ _. FollowerNode.see_leader msg >>= λ _. FollowerNode.on_event msg.sender msg.event)
        (omega arith) (discover_from-Within msg msg.sender)
        (λ _.
          bind-Within sound 0 (growth msg.event) (growth msg.event) (FollowerNode.see_leader msg)
            (λ _. FollowerNode.on_event msg.sender msg.event) (omega arith) (see_leader-Within msg)
            (λ _. on_event-Within msg.sender msg.event))

  pub step-Follows :
      (msg : Message) (n : RoleNode P Follower)
      → Follows sound (growth msg.event) (core n) (FollowerNode.step msg n)
  unfolding FollowerNode.step
  step-Follows msg n =
      let m = normalize_message msg n in
      elim (Bool-cases m.1) [
        | inl valid ↦ rw valid (
            finish-Follows sound (growth msg.event) follower (FollowerNode.receive m.0) n
              (λ _. refl)
              (subst (λ e. Within sound (growth e) (FollowerNode.receive {P = P} m.0))
                (event-normalize_message msg n) (receive-Within m.0)))
        | inr invalid ↦ rw invalid (still sound (growth msg.event) n)
      ]
