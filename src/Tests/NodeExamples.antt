-- ===== src/Tests/NodeExamples.antt =====
-- A concrete leader of three nodes, and what its quorum commits.
use mynode.Base.{ℕ, suc, ◌≡◌, refl, none, some, List, [], ◌∷◌, inl, arith}
use mynode.Base.Result.{ok}
use mynode.Store.{Bytes}
use mynode.Store.KvMemory.{KvMemory}
use mynode.Raft.Message.{Message, solicit_vote, grant_vote}
use mynode.Raft.Node.{Platform, RoleNode}
use mynode.Raft.Node.Roles.{Leader, Follower, Candidate, new_follower, new_candidate, leader}
use mynode.Raft.Node.Leader.{commit}
use mynode.Raft.Node.Leader as LeaderNode
use mynode.Raft.Log.Valid.{IsValid}
use mynode.Raft.Node.Quorum.{Committed, commit_quorum}
use mynode.Raft.Node.Follower as FollowerNode
use mynode.Raft.Node.Machine as MachineNode
use mynode.Raft.Node.Votes.{StaysFollower, step-Keeps}
use mynode.Raft.Node.Stale.{step-foreign}
use mynode.Raft.Node.Candidate as CandidateNode
use mynode.Tests.Disk.{disk, sound}
use mynode.Tests.Log.{set_x, noop, committed_log, committed_log-IsValid}

-- Messages go to a list, and the timeout is the least.
abbrev pub platform : Platform
platform = record {
  Kv = KvMemory;
  Sm = Bytes;
  Channel = List Message;
  Rng = ℕ;
  disk = disk;
  machine = record { read = λ command s. ok s; mutate = λ command s. (ok s, command) };
  send = λ msg sent. (ok tt, msg ∷ sent);
  gen_range = λ low high seed. (low, suc seed);
  debug_event = λ e. "";
  debug_call = λ c. "";
}

abbrev role : Leader
role = record {
  heartbeat_ticks = 0;
  peer_next_index = ("b", 3) ∷ ("c", 1) ∷ [];
  peer_last_index = ("b", 2) ∷ ("c", 0) ∷ [];
  calls = [];
}

-- The leader of term 2, whose peer `b` has both entries.
abbrev leading : RoleNode platform Leader
leading = record {
  id = "a";
  peers = "b" ∷ "c" ∷ [];
  term = 2;
  log = committed_log;
  state = [];
  sender = [];
  rng = 0;
  role = role;
}

commit_quorum_example :
    ((commit leading).0 ≡ ok (commit leading).1.log.commit_index)
    × IsValid sound (commit leading).1.log (set_x ∷ noop ∷ [])
    × Committed leading (set_x ∷ noop ∷ []) (commit leading).1.log.commit_index
commit_quorum_example = commit_quorum sound leading (set_x ∷ noop ∷ []) committed_log-IsValid refl

-- A follower of term 2 without a vote, and a candidate of that term that asks for it.
abbrev pub following : RoleNode platform Follower
following = record {
  id = "b";
  peers = "a" ∷ "c" ∷ [];
  term = 2;
  log = committed_log;
  state = [];
  sender = [];
  rng = 0;
  role = new_follower none none 8;
}

abbrev pub request : Message
request = record { term = 2; sender = some "a"; receiver = some "b"; event = solicit_vote 2 2 }

step-Keeps_example : StaysFollower sound following (FollowerNode.step request following)
step-Keeps_example = step-Keeps sound request following

step-foreign_example :
    MachineNode.step (record request { term = 1 }) (leader leading) ≡ ok (leader leading)
step-foreign_example =
    step-foreign (record request { term = 1 }) (leader leading) "a" refl (inl (omega arith))

-- A candidate of term 2 that gets a vote.
abbrev standing : RoleNode platform Candidate
standing = record {
  id = "b";
  peers = "a" ∷ "c" ∷ [];
  term = 2;
  log = committed_log;
  state = [];
  sender = [];
  rng = 0;
  role = new_candidate 8;
}

abbrev vote : Message
vote = record { term = 2; sender = some "a"; receiver = some "b"; event = grant_vote }
