-- ===== src/Raft/Node/Candidate/Advances.antt =====
-- The term and the log of a candidate over a message, and of candidates and followers over a tick.
use mathlib.Core.Path.{subst}
use mynode.Base.{
  ◌+◌, ◌<◌, ◌≤◌, ◌≡◌, refl, String, Option, none, some, arith, ltb, leb, Bool-cases, inl, inr,
  add64, add64_lem, u64_mod,
}
use mynode.Base.Result.{Exec, continue, ok, ◌>>=◌, ◌>>◌, pure, modify}
use mynode.Raft.Disk.{IsSound}
use mynode.Raft.Log.Drain.{apply_all}
use mynode.Raft.Log.Grows.{apply_all-Grows}
use mynode.Raft.Message.{Event, Message, heartbeat, solicit_vote, grant_vote}
use mynode.Raft.Node.{
  Platform, RoleNode, on_log_state, become_role, with_timeout, broadcast, normalize_message, quorum,
  save_term,
}
use mynode.Raft.Node.Roles.{
  Follower, Candidate, Leader, new_candidate, new_leader, candidate, leader,
}
use mynode.Raft.Node.Leader as LeaderNode
use mynode.Raft.Node.Leader.Within.{append-Within}
use mynode.Raft.Node.Leader.Advances as LeaderAdvances
use mynode.Raft.Node.Candidate as CandidateNode
use mynode.Raft.Node.Follower.Advances.{growth}
use mynode.Raft.Node.Advances.{
  Advances, Advances-log, core, Within, Follows, Follows-after, continue-Within, bind-Within, still,
  broadcast-Within, save_term-Advances, finish-Follows, and_then-Follows, event-normalize_message,
  valid_term, continue_at,
}

module _ {P : Platform} (sound : IsSound P.disk) where
  apply_all-Within :
      {R : Type 0} → Within {P = P} sound {R = R} 0 (on_log_state (apply_all P.disk P.machine))
  apply_all-Within n =
      Advances-log sound 0 (core n) _ refl (apply_all-Grows sound P.machine n.log n.state)

  init-Advances :
      (n : RoleNode P Candidate)
      → n.term + 1 < u64_mod
      → Advances sound 0 (core n) (core (CandidateNode.init n).1)
  unfolding CandidateNode.init
  init-Advances n fits =
      let renew : Exec (RoleNode P Candidate) (Unit {0}) =
        save_term (add64 n.term 1) none >> modify (with_timeout new_candidate) in
      let saved = save_term {P = P} {R = Candidate} (add64 n.term 1) none n in
      continue-Within sound 0 0 0 (renew n).0
        (λ _. broadcast (solicit_vote n.log.last_index n.log.last_term)) (core n) (renew n).1
        (omega arith)
        (continue-Within sound 0 0 0 saved.0 (λ _. modify (with_timeout new_candidate)) (core n)
          saved.1 (omega arith)
          (save_term-Advances sound (add64 n.term 1) none n
            (omega (arith, add64_lem n.term 1 fits)))
          (λ _. still sound 0))
        (λ _. broadcast-Within sound (solicit_vote n.log.last_index n.log.last_term))

  become_candidate-Follows :
      (n : RoleNode P Follower)
      → n.term + 1 < u64_mod
      → Follows sound 0 (core n) (CandidateNode.become_candidate n)
  unfolding CandidateNode.become_candidate
  become_candidate-Follows n fits =
      let n' = with_timeout new_candidate n in
      and_then-Follows sound 0 (core n) (CandidateNode.init n').0
        (λ _. ok (candidate (CandidateNode.init n').1)) (λ _ _. init-Advances n' fits)

  follower_seen-Follows :
      (n : RoleNode P Follower)
      → n.term + 1 < u64_mod
      → Follows sound 0 (core n) (CandidateNode.follower_seen n)
  unfolding CandidateNode.follower_seen
  follower_seen-Follows n fits =
      let ticks = add64 n.role.leader_seen_ticks 1 in
      let n' = record n { role = record n.role { leader_seen_ticks = ticks } } in
      elim (Bool-cases (leb n.role.leader_seen_timeout ticks)) [
        | inl due ↦ rw due (become_candidate-Follows n' fits)
        | inr early ↦ rw early (still sound 0 n)
      ]

  pub follower_tick-Follows :
      (n : RoleNode P Follower)
      → n.term + 1 < u64_mod
      → Follows sound 0 (core n) (CandidateNode.follower_tick n)
  unfolding CandidateNode.follower_tick
  follower_tick-Follows n fits =
      let r = on_log_state {R = Follower} (apply_all P.disk P.machine) n in
      and_then-Follows sound 0 (core n) r.0 (λ _. CandidateNode.follower_seen r.1)
        (λ _ _.
          Follows-after sound 0 (core n) (core r.1) (CandidateNode.follower_seen r.1)
            (apply_all-Within n) (follower_seen-Follows r.1 fits))

  campaign-Advances :
      (n : RoleNode P Candidate)
      → n.term + 1 < u64_mod
      → Advances sound 0 (core n) (core (CandidateNode.campaign n).1)
  unfolding CandidateNode.campaign
  campaign-Advances n fits =
      let ticks = add64 n.role.election_ticks 1 in
      let n' = record n { role = record n.role { election_ticks = ticks } } in
      elim (Bool-cases (leb n.role.election_timeout ticks)) [
        | inl due ↦ rw due (init-Advances n' fits)
        | inr early ↦ rw early (still sound 0 n)
      ]

  pub tick-Follows :
      (n : RoleNode P Candidate)
      → n.term + 1 < u64_mod
      → Follows sound 0 (core n) (CandidateNode.tick n)
  unfolding CandidateNode.tick
  tick-Follows n fits =
      let r = on_log_state {R = Candidate} (apply_all P.disk P.machine) n in
      let s = continue r.0 (λ _. CandidateNode.campaign) r.1 in
      and_then-Follows sound 0 (core n) s.0 (λ _. ok (candidate s.1))
        (λ _ _.
          continue_at sound r.0 (λ _. CandidateNode.campaign) (core n) r.1 (apply_all-Within n)
            (λ _. campaign-Advances r.1 fits))

  become_leader-Follows :
      (n : RoleNode P Candidate) → Follows sound 1 (core n) (CandidateNode.become_leader n)
  unfolding CandidateNode.become_leader
  become_leader-Follows n =
      let announce = heartbeat n.log.commit_index n.log.commit_term in
      let lead : Exec (RoleNode P Leader) (Unit {0}) = LeaderNode.append none >>= λ _. pure tt in
      finish-Follows sound 1 leader (broadcast announce >> lead)
        (become_role (new_leader n.peers n.log.last_index) n) (λ _. refl)
        (bind-Within sound 0 1 1 (broadcast announce) (λ _. lead) (omega arith)
          (broadcast-Within sound announce)
          (λ _.
            bind-Within sound 1 0 1 (LeaderNode.append none) (λ _. pure tt) (omega arith)
              (append-Within sound none) (λ _. still sound 0)))

  on_grant_vote-Follows :
      (n : RoleNode P Candidate) → Follows sound 1 (core n) (CandidateNode.on_grant_vote n)
  unfolding CandidateNode.on_grant_vote quorum
  on_grant_vote-Follows n =
      let n' = record n { role = record n.role { votes = add64 n.role.votes 1 } } in
      elim (Bool-cases (leb (quorum n) (add64 n.role.votes 1))) [
        | inl enough ↦ rw (CandidateNode.on_grant_vote, enough) (become_leader-Follows n')
        | inr few ↦ rw (CandidateNode.on_grant_vote, few) (still sound 1 n)
      ]

  on_event-Follows :
      (m : Message) (sender : Option String) (e : Event) (n : RoleNode P Candidate)
      → m.event ≡ e
      → n.term ≤ m.term
      → Follows sound (growth m.event) (core n) (CandidateNode.on_event m sender e n)
  unfolding CandidateNode.on_event CandidateNode.follow
  on_event-Follows m (some sender) (heartbeat i t) n same later =
      LeaderAdvances.follow-Follows sound m sender n later
  on_event-Follows m (some sender) grant_vote n same later = rw same (on_grant_vote-Follows n)
  on_event-Follows m none grant_vote n same later = rw same (on_grant_vote-Follows n)
  on_event-Follows m (some sender) e n same later = still sound (growth m.event) n
  on_event-Follows m none e n same later = still sound (growth m.event) n

  on_message-Follows :
      (m : Message) (sender : Option String) (n : RoleNode P Candidate)
      → n.term ≤ m.term
      → Follows sound (growth m.event) (core n) (CandidateNode.on_message m sender n)
  unfolding CandidateNode.on_message CandidateNode.follow
  on_message-Follows m none n later = on_event-Follows m none m.event n refl later
  on_message-Follows m (some sender) n later = elim (Bool-cases (ltb n.term m.term)) [
    | inl newer ↦
        rw (CandidateNode.on_message, newer) (LeaderAdvances.follow-Follows sound m sender n later)
    | inr same ↦
        rw (CandidateNode.on_message, same) (on_event-Follows m (some sender) m.event n refl later)
  ]

  pub step-Follows :
      (msg : Message) (n : RoleNode P Candidate)
      → Follows sound (growth msg.event) (core n) (CandidateNode.step msg n)
  unfolding CandidateNode.step
  step-Follows msg n =
      let m = normalize_message msg n in
      elim (Bool-cases m.1) [
        | inl valid ↦ rw valid (
            subst
              (λ e. Follows sound (growth e) (core n) (CandidateNode.on_message m.0 m.0.sender n))
              (event-normalize_message msg n)
              (on_message-Follows m.0 m.0.sender n (valid_term msg n valid)))
        | inr invalid ↦ rw invalid (still sound (growth msg.event) n)
      ]
