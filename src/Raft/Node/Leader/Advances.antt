-- ===== src/Raft/Node/Leader/Advances.antt =====
-- The term and the log of a leader over a message and a tick.
use mathlib.Core.Path.{subst}
use mynode.Base.{
  if◌then◌else◌, ℕ, ◌≤◌, refl, String, Bool, true, false, Option, none, some, List, [], ◌∷◌, length,
  arith, ltb, leb, ltb→lt, Bool-cases, inl, inr, add64,
}
use mynode.Base.Map.{string_eq}
use mynode.Base.Result.{Result, ok, err, ◌>>=◌, pure, and_then}
use mynode.Store.{Bytes}
use mynode.Raft.Disk.{IsSound}
use mynode.Raft.Calls.{Call}
use mynode.Raft.Message.{
  Event, Message, heartbeat, confirm_leader, solicit_vote, grant_vote, replicate_entries,
  accept_entries, reject_entries, respond_state, respond_error,
}
use mynode.Raft.Node.{
  Platform, RoleNode, normalize_message, save_term, heartbeat_interval, with_timeout,
}
use mynode.Raft.Node.Roles.{Leader, leader, new_follower}
use mynode.Raft.Node.Leader as LeaderNode
use mynode.Raft.Node.Follower as FollowerNode
use mynode.Raft.Node.Follower.Advances as FollowerAdvances
use mynode.Raft.Node.Follower.Advances.{growth}
use mynode.Raft.Node.Advances.{
  Core, Follows-after, Advances, Advances-one, core, Within, Follows, continue-Within, bind_still,
  still, broadcast-Within, save_term-Advances, finish-Follows, event-normalize_message,
}
use mynode.Raft.Node.Leader.Within.{
  replicate-Within, append-Within, apply-Within, commit-Within, vote_call-Within,
}

module _ {P : Platform} (sound : IsSound P.disk) where
  note_accepted-Within :
      (sender : Option String) (index : ℕ)
      → Within sound 0 (LeaderNode.note_accepted {P = P} sender index)
  unfolding LeaderNode.note_accepted
  note_accepted-Within none index n = still sound 0 n
  note_accepted-Within (some sender) index n = still sound 0 n

  replicate_unless-Within :
      (sender : String) (has_committed : Bool)
      → Within {P = P} sound {R = Leader} {A = Unit {0}} 0
          (if has_committed then pure tt else LeaderNode.replicate sender)
  replicate_unless-Within sender true = still sound 0
  replicate_unless-Within sender false = replicate-Within sound sender

  on_confirm_leader-Within :
      (sender : Option String) (index : ℕ) (has_committed : Bool)
      → Within sound 0 (LeaderNode.on_confirm_leader {P = P} sender index has_committed)
  unfolding LeaderNode.on_confirm_leader
  on_confirm_leader-Within none index has_committed = still sound 0
  on_confirm_leader-Within (some sender) index has_committed =
      bind_still sound (LeaderNode.vote_call sender index) _ (vote_call-Within sound sender index)
        (λ _. replicate_unless-Within sender has_committed)

  on_reject_entries-Within :
      (sender : Option String) → Within sound 0 (LeaderNode.on_reject_entries {P = P} sender)
  unfolding LeaderNode.on_reject_entries
  on_reject_entries-Within none n = still sound 0 n
  on_reject_entries-Within (some sender) n = replicate-Within sound sender (record n {
    role = record n.role { peer_next_index = LeaderNode.step_back sender n.role.peer_next_index };
  })

  add_call-Within : (call : Call) → Within sound 0 (LeaderNode.add_call {P = P} call)
  unfolding LeaderNode.add_call
  add_call-Within call n = still sound 0 n

  on_read_state-Within :
      (sender : Option String) (id command : Bytes)
      → Within sound 0 (LeaderNode.on_read_state {P = P} sender id command)
  unfolding LeaderNode.on_read_state
  on_read_state-Within sender id command n =
      bind_still sound (LeaderNode.add_call _) _ (add_call-Within _)
        (λ _.
          bind_still sound (LeaderNode.vote_call n.id n.log.commit_index) _
            (vote_call-Within sound n.id n.log.commit_index)
            (λ _. broadcast-Within sound (heartbeat n.log.commit_index n.log.commit_term)))
        n

  commit_and_apply-Within : Within {P = P} sound 0 LeaderNode.commit_and_apply
  unfolding LeaderNode.commit_and_apply
  commit_and_apply-Within =
      bind_still sound LeaderNode.commit _ (commit-Within sound)
        (λ _. bind_still sound LeaderNode.apply _ (apply-Within sound) (λ _. still sound 0))

  -- Without peers an entry is committed and applied at once.
  alone-Within :
      (peers : List String)
      → Within {P = P} sound {R = Leader} {A = Unit {0}} 0
          (elim peers [ [] ↦ LeaderNode.commit_and_apply | _ ∷ _ ↦ pure tt ])
  alone-Within [] = commit_and_apply-Within
  alone-Within (_ ∷ _) = still sound 0

  on_mutate_state-Within :
      (sender : Option String) (id command : Bytes)
      → Within sound 1 (LeaderNode.on_mutate_state {P = P} sender id command)
  unfolding LeaderNode.on_mutate_state
  on_mutate_state-Within sender id command n =
      continue-Within sound 1 0 1 (LeaderNode.append {P = P} (some command) n).0 _ (core n)
        (LeaderNode.append {P = P} (some command) n).1 (omega arith)
        (append-Within sound (some command) n)
        (λ index.
          bind_still sound (LeaderNode.add_call _) _ (add_call-Within _)
            (λ _. alone-Within n.peers))

  on_event-Within :
      (sender : Option String) (e : Event)
      → Within sound (growth e) (LeaderNode.on_event {P = P} sender e)
  unfolding LeaderNode.on_event
  on_event-Within sender (confirm_leader index has_committed) n =
      Advances-one sound (on_confirm_leader-Within sender index has_committed n)
  on_event-Within sender (accept_entries index) n = Advances-one sound (
      bind_still sound (LeaderNode.note_accepted sender index) _ (note_accepted-Within sender index)
        (λ _. commit_and_apply-Within) n)
  on_event-Within sender reject_entries n = Advances-one sound (on_reject_entries-Within sender n)
  on_event-Within sender (Event.read_state id command) n =
      Advances-one sound (on_read_state-Within sender id command n)
  on_event-Within sender (Event.mutate_state id command) n =
      on_mutate_state-Within sender id command n
  on_event-Within sender (heartbeat _ _) n = still sound 1 n
  on_event-Within sender (solicit_vote _ _) n = still sound 1 n
  on_event-Within sender grant_vote n = still sound 1 n
  on_event-Within sender (replicate_entries _ _ entries) n = still sound (length entries) n
  on_event-Within sender (respond_state _ _) n = still sound 1 n
  on_event-Within sender (respond_error _ _) n = still sound 1 n

  followed :
      {R : Type 0} (m : Message) (sender : String) (s : Core P.Kv) (r : Result (Unit {0}))
      (n : RoleNode P R)
      → Advances sound 0 s (core n)
      → Follows sound (growth m.event) s (
          and_then
            (and_then r λ _. ok (with_timeout (new_follower (some sender) none) n))
            (FollowerNode.step m))
  followed m sender s (ok _) n a =
      let n' = with_timeout (new_follower (some sender) none) n in
      Follows-after sound (growth m.event) s (core n') (FollowerNode.step m n') a
        (FollowerAdvances.step-Follows sound m n')
  followed m sender s (err e) n a = tt

  -- A leader or candidate that finds another leader follows it, in a term that is no earlier one.
  pub follow-Follows :
      {R : Type 0} (m : Message) (sender : String) (n : RoleNode P R)
      → n.term ≤ m.term
      → Follows sound
          (growth m.event)
          (core n)
          (and_then (LeaderNode.become_follower m.term sender n) (FollowerNode.step m))
  unfolding LeaderNode.become_follower
  follow-Follows m sender n later =
      let r = save_term {P = P} m.term none n in
      followed m sender (core n) r.0 r.1 (save_term-Advances sound m.term none n later)

  on_message-Follows :
      (m : Message) (sender : Option String) (n : RoleNode P Leader)
      → Follows sound (growth m.event) (core n) (LeaderNode.on_message m sender n)
  unfolding LeaderNode.on_message
  on_message-Follows m none n =
      finish-Follows sound (growth m.event) leader (LeaderNode.on_event none m.event) n (λ _. refl)
        (on_event-Within none m.event)
  on_message-Follows m (some sender) n = elim (Bool-cases (ltb n.term m.term)) [
    | inl later ↦ rw later (follow-Follows m sender n (omega (arith, ltb→lt n.term m.term later)))
    | inr same ↦ rw same (
        finish-Follows sound (growth m.event) leader (LeaderNode.on_event (some sender) m.event) n
          (λ _. refl) (on_event-Within (some sender) m.event))
  ]

  pub step-Follows :
      (msg : Message) (n : RoleNode P Leader)
      → Follows sound (growth msg.event) (core n) (LeaderNode.step msg n)
  unfolding LeaderNode.step
  step-Follows msg n =
      let m = normalize_message msg n in
      elim (Bool-cases m.1) [
        | inl valid ↦ rw valid (
            subst (λ e. Follows sound (growth e) (core n) (LeaderNode.on_message m.0 m.0.sender n))
              (event-normalize_message msg n) (on_message-Follows m.0 m.0.sender n))
        | inr invalid ↦ rw invalid (still sound (growth msg.event) n)
      ]

  beat-Within : Within {P = P} sound 0 LeaderNode.beat
  unfolding LeaderNode.beat
  beat-Within n = elim (Bool-cases (leb heartbeat_interval (add64 n.role.heartbeat_ticks 1))) [
    | inl due ↦ rw due (
        broadcast-Within sound (heartbeat n.log.commit_index n.log.commit_term)
          (record n { role = record n.role { heartbeat_ticks = 0 } }))
    | inr early ↦ rw early (still sound 0 n)
  ]

  pub tick-Follows : (n : RoleNode P Leader) → Follows sound 0 (core n) (LeaderNode.tick n)
  unfolding LeaderNode.tick
  tick-Follows n =
      finish-Follows sound 0 leader (LeaderNode.apply >>= λ _. LeaderNode.beat) n (λ _. refl)
        (bind_still sound LeaderNode.apply _ (apply-Within sound) (λ _. beat-Within))
