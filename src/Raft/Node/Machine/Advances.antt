-- ===== src/Raft/Node/Machine/Advances.antt =====
-- The term and the log of a node over messages and ticks, whatever role it has or takes.
use mynode.Base.{ℕ, ◌+◌, ◌<◌, ◌≤◌, List, length, u64_mod}
use mynode.Base.Result.{Result, ok, err}
use mynode.Raft.Disk.{Entry, IsSound}
use mynode.Raft.Message.{Message}
use mynode.Raft.Node.{Platform}
use mynode.Raft.Node.Roles.{Node, candidate, follower, leader}
use mynode.Raft.Node.Stale.{term_of}
use mynode.Raft.Node.Machine as MachineNode
use mynode.Raft.Node.Advances.{Core, Follows, node_core}
use mynode.Raft.Log.Grows.{Grown}
use mynode.Raft.Log.Valid.{IsValid}
use mynode.Raft.Node.Follower.Advances as FollowerAdvances
use mynode.Raft.Node.Follower.Advances.{growth}
use mynode.Raft.Node.Leader.Advances as LeaderAdvances
use mynode.Raft.Node.Candidate.Advances as CandidateAdvances

module _ {P : Platform} (sound : IsSound P.disk) where
  -- The node, unless there is an error, has no earlier term than `s`, and its log comes from that of
  -- `s`, which held the entries `es`, by at most `k` entries more.
  abbrev pub Moves : ℕ → Core P.Kv → List Entry → Result (Node P) → Type 0
  Moves k s es (ok n) = (s.0 ≤ (node_core n).0) × Grown sound s.1 es k (node_core n).1
  Moves k s es (err e) = Unit

  Follows-Moves :
      (k : ℕ) (s : Core P.Kv) (es : List Entry) (r : Result (Node P))
      → IsValid sound s.1 es
      → length es + k + 2 < u64_mod
      → Follows sound k s r
      → Moves k s es r
  Follows-Moves k s es (ok n) v fits f = (f.term, f.log es v fits)
  Follows-Moves k s es (err e) v fits f = tt

  pub node_step-Follows :
      (msg : Message) (n : Node P)
      → Follows sound (growth msg.event) (node_core n) (MachineNode.step msg n)
  unfolding MachineNode.step
  node_step-Follows msg (candidate n) = CandidateAdvances.step-Follows sound msg n
  node_step-Follows msg (follower n) = FollowerAdvances.step-Follows sound msg n
  node_step-Follows msg (leader n) = LeaderAdvances.step-Follows sound msg n

  pub node_tick-Follows :
      (n : Node P) → term_of n + 1 < u64_mod → Follows sound 0 (node_core n) (MachineNode.tick n)
  unfolding MachineNode.tick
  node_tick-Follows (candidate n) fits = CandidateAdvances.tick-Follows sound n fits
  node_tick-Follows (follower n) fits = CandidateAdvances.follower_tick-Follows sound n fits
  node_tick-Follows (leader n) fits = LeaderAdvances.tick-Follows sound n

  -- Whatever message a node takes, in whatever role, it reports an error, or its term has not gone
  -- down, its log is valid again, what was committed is kept and stays committed, and no more
  -- entries are added than the message brings, or one where it does not bring entries. The log was
  -- valid before; the store and the serialization keep their laws, and indexes stay below 2^64.
  pub node_step-Moves :
      (msg : Message) (n : Node P) (es : List Entry)
      → IsValid sound (node_core n).1 es
      → length es + growth msg.event + 2 < u64_mod
      → Moves (growth msg.event) (node_core n) es (MachineNode.step msg n)
  node_step-Moves msg n es v fits =
      Follows-Moves (growth msg.event) (node_core n) es (MachineNode.step msg n) v fits
        (node_step-Follows msg n)
