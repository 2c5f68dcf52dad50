-- ===== src/Raft/Node/Elections.antt =====
-- How a node comes to lead: what a candidate needs, and that a follower that hears from no leader
-- stands for election.
use mynode.Base.{length, ◌*◌, ◌+◌, ◌<◌, add64}
use mynode.Base.Result.{Result, ok, err}
use mynode.Raft.Message.{Message}
use mynode.Raft.Node.{Platform, RoleNode}
use mynode.Raft.Node.Roles.{Follower, Candidate, Node, leader}
use mynode.Raft.Node.Follower as FollowerNode

module _ {P : Platform} where
  -- If the result is a leader, this holds.
  abbrev pub LeadsIf : Type 0 → Result (Node P) → Type 0
  LeadsIf Q (ok (leader n)) = Q
  LeadsIf Q (ok _) = Unit
  LeadsIf Q (err e) = Unit

  -- With a vote more, a candidate has the votes of more than half of the cluster: its peers and
  -- itself.
  abbrev pub HasMajority : RoleNode P Candidate → Type 0
  HasMajority n = length n.peers + 1 < 2 * add64 n.role.votes 1
