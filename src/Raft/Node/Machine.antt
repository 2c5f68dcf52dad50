-- ===== src/Raft/Node/Machine.antt =====
-- raft/node/mod.rs: `Node::new`, `Node::step` and `Node::tick`, over the three roles.
pub mod Advances
use mynode.Base.{String, none, List, [], ◌∷◌}
use mynode.Base.Result.{Result, ok, and_then}
use mynode.Raft.Log.Open as LogOpen
use mynode.Raft.Log.Term as LogTerm
use mynode.Raft.Message.{Message}
use mynode.Raft.Node.{Platform, RoleNode, become_role, election_timeout_min, election_timeout_max}
use mynode.Raft.Node.Roles.{Follower, Node, new_follower, new_leader, follower, candidate, leader}
use mynode.Raft.Node.Follower as FollowerNode
use mynode.Raft.Node.Leader as LeaderNode
use mynode.Raft.Node.Candidate as CandidateNode

module _ {P : Platform} where
  -- Without peers the node leads from the start.
  start : List String → RoleNode P Follower → Node P
  start [] n = leader (become_role (new_leader [] n.log.last_index) n)
  start (peer ∷ peers) n = follower n

  unfoldable pub new : String → List String → P.Kv → P.Sm → P.Channel → P.Rng → Result (Node P)
  unfolding start
  new id peers store state sender rng = and_then (LogOpen.new P.disk store) λ log.
      and_then (LogTerm.load_term P.disk log) λ saved.
        let r = P.gen_range election_timeout_min election_timeout_max rng in
        ok (
          start peers (record {
            id = id;
            peers = peers;
            term = saved.0;
            log = log;
            state = state;
            sender = sender;
            rng = r.1;
            role = new_follower none saved.1 r.0;
          }))

  unfoldable pub step : Message → Node P → Result (Node P)
  step msg (candidate n) = CandidateNode.step msg n
  step msg (follower n) = FollowerNode.step msg n
  step msg (leader n) = LeaderNode.step msg n

  unfoldable pub tick : Node P → Result (Node P)
  tick (candidate n) = CandidateNode.tick n
  tick (follower n) = CandidateNode.follower_tick n
  tick (leader n) = LeaderNode.tick n
