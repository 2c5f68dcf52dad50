-- ===== src/Raft/Node/Candidate.antt =====
-- raft/node/candidate.rs, and the ticks of raft/node/follower.rs: elections.
pub mod Advances
use mynode.Base.{String, Option, none, some, ltb, leb, if◌then◌else◌, add64}
use mynode.Base.Result.{Result, ok, Exec, and_then, ◌>>=◌, ◌>>◌, pure, modify}
use mynode.Raft.Log.Drain.{apply_all}
use mynode.Raft.Message.{Event, Message, heartbeat, solicit_vote, grant_vote}
use mynode.Raft.Node.{
  Platform, RoleNode, on_log_state, become_role, with_timeout, broadcast, normalize_message, quorum,
  save_term,
}
use mynode.Raft.Node.Roles.{
  Follower, Candidate, Node, new_candidate, new_leader, follower, candidate, leader, finish,
}
use mynode.Raft.Node.Follower as FollowerNode
use mynode.Raft.Node.Leader as LeaderNode
use mynode.Raft.Node.Leader.{become_follower}

module _ {P : Platform} where
  -- A new term, with no vote saved in it, and an election.
  unfoldable pub init : Exec (RoleNode P Candidate) (Unit {0})
  init n =
      (save_term (add64 n.term 1) none
          >> modify (with_timeout new_candidate)
          >> broadcast (solicit_vote n.log.last_index n.log.last_term))
        n

  unfoldable pub become_candidate : RoleNode P Follower → Result (Node P)
  become_candidate n = finish candidate init (with_timeout new_candidate n)

  unfoldable pub follower_seen : RoleNode P Follower → Result (Node P)
  follower_seen n =
      let ticks = add64 n.role.leader_seen_ticks 1 in
      let n' = record n { role = record n.role { leader_seen_ticks = ticks } } in
      if leb n.role.leader_seen_timeout ticks then become_candidate n' else ok (follower n')

  -- `RoleNode<Follower>::tick`.
  unfoldable pub follower_tick : RoleNode P Follower → Result (Node P)
  unfolding follower_seen
  follower_tick n =
      let r = on_log_state (apply_all P.disk P.machine) n in and_then r.0 λ _. follower_seen r.1

  campaign : Exec (RoleNode P Candidate) (Unit {0})
  campaign n =
      let ticks = add64 n.role.election_ticks 1 in
      let n' = record n { role = record n.role { election_ticks = ticks } } in
      if leb n.role.election_timeout ticks then init n' else (ok tt, n')

  -- `RoleNode<Candidate>::tick`.
  unfoldable pub tick : RoleNode P Candidate → Result (Node P)
  unfolding campaign
  tick = finish candidate (on_log_state (apply_all P.disk P.machine) >> campaign)

  -- The new leader announces itself, and appends an entry with no command in its term.
  unfoldable pub become_leader : RoleNode P Candidate → Result (Node P)
  become_leader n =
      finish leader
        (broadcast (heartbeat n.log.commit_index n.log.commit_term)
          >> (LeaderNode.append none >>= λ _. pure tt))
        (become_role (new_leader n.peers n.log.last_index) n)

  unfoldable pub on_grant_vote : RoleNode P Candidate → Result (Node P)
  on_grant_vote n =
      let votes = add64 n.role.votes 1 in
      let n' = record n { role = record n.role { votes = votes } } in
      if leb (quorum n') votes then become_leader n' else ok (candidate n')

  unfoldable pub follow : Message → String → RoleNode P Candidate → Result (Node P)
  follow m sender n = and_then (become_follower m.term sender n) (FollowerNode.step m)

  unfoldable pub on_event : Message → Option String → Event → RoleNode P Candidate → Result (Node P)
  unfolding on_grant_vote follow
  on_event m (some sender) (heartbeat _ _) n = follow m sender n
  on_event m sender grant_vote n = on_grant_vote n
  on_event m sender _ n = ok (candidate n)

  unfoldable pub on_message : Message → Option String → RoleNode P Candidate → Result (Node P)
  on_message m none n = on_event m none m.event n
  on_message m (some sender) n =
      if ltb n.term m.term then follow m sender n else on_event m (some sender) m.event n

  unfoldable pub step : Message → RoleNode P Candidate → Result (Node P)
  unfolding on_message
  step msg n =
      let m = normalize_message msg n in
      if m.1 then on_message m.0 m.0.sender n else ok (candidate n)
