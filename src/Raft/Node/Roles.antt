-- ===== src/Raft/Node/Roles.antt =====
-- The roles of a node (raft/node/follower.rs, candidate.rs, leader.rs), and the node itself.
use mynode.Base.{ℕ, String, Option, List, [], ◌∷◌, add64}
use mynode.Base.Map.{insert, string_eq}
use mynode.Base.Result.{Result, ok, Exec, and_then}
use mynode.Store.{Bytes}
use mynode.Raft.Calls.{Call}
use mynode.Raft.Node.{Platform, RoleNode}

pub record Follower : Type 0 where
  pub leader : Option String
  pub leader_seen_ticks : ℕ
  pub leader_seen_timeout : ℕ
  pub voted_for : Option String
  -- the IDs of calls passed on to the leader, each with its sender
  pub proxy_calls : List (Bytes × Option String)

-- `Follower::new`, with the timeout that was drawn.
abbrev pub new_follower : Option String → Option String → ℕ → Follower
new_follower leader voted_for timeout = record {
  leader = leader;
  leader_seen_ticks = 0;
  leader_seen_timeout = timeout;
  voted_for = voted_for;
  proxy_calls = [];
}

pub record Candidate : Type 0 where
  pub election_ticks : ℕ
  pub election_timeout : ℕ
  pub votes : ℕ

-- `Candidate::new`: it starts with a vote for itself.
abbrev pub new_candidate : ℕ → Candidate
new_candidate timeout = record { election_ticks = 0; election_timeout = timeout; votes = 1 }

pub record Leader : Type 0 where
  pub heartbeat_ticks : ℕ
  pub peer_next_index : List (String × ℕ)
  pub peer_last_index : List (String × ℕ)
  pub calls : List Call

add_peers : List String → ℕ → Leader → Leader
add_peers [] last_index leader = leader
add_peers (peer ∷ peers) last_index leader = add_peers peers last_index (record leader {
  peer_next_index = insert peer (add64 last_index 1) leader.peer_next_index;
  peer_last_index = insert peer 0 leader.peer_last_index;
})

-- `Leader::new`.
unfoldable pub new_leader : List String → ℕ → Leader
unfolding add_peers
new_leader peers last_index =
    add_peers peers last_index
      (record { heartbeat_ticks = 0; peer_next_index = []; peer_last_index = []; calls = [] })

pub data Node (P : Platform) : Type 0 where
  candidate : RoleNode P Candidate → Node P
  follower : RoleNode P Follower → Node P
  leader : RoleNode P Leader → Node P

-- The end of a method that consumes the node: an error drops it.
abbrev pub finish :
    {P : Platform} {R A : Type 0}
    → (RoleNode P R → Node P)
    → Exec (RoleNode P R) A
    → RoleNode P R
    → Result (Node P)
finish into m n = and_then (m n).0 λ _. ok (into (m n).1)
