-- ===== src/Raft/Node/Waits.antt =====
-- A follower that hears from no leader stands for election: the ticks of src/raft/node/follower.rs.
use Prim.{⊥}
use mynode.Base.{ℕ, zero, suc, ◌+◌, ◌≤◌, ◌<◌, ◌≡◌, refl, Option, none, some, [], u64_mod}
use mynode.Base.Result.{Result, ok, err, and_then}
use mynode.Store.{Bytes}
use mynode.Raft.Log.Apply.{StateMachine, run}
use mynode.Raft.Message.{Message}
use mynode.Raft.Node.{Platform, RoleNode}
use mynode.Raft.Node.Roles.{Follower, Candidate, Node, follower, candidate}
use mynode.Raft.Node.Candidate.{follower_tick}

-- The state machine takes every command.
abbrev pub TakesAll : {Sm : Type 0} → StateMachine Sm → Type 0
TakesAll {Sm} machine =
    (command : Bytes) (sm : Sm) → (output : Bytes) × ((machine.mutate command sm).0 ≡ ok output)

module _ {Sm : Type 0} (machine : StateMachine Sm) (takes : TakesAll machine) where
  pub run_takes :
      (o : Option Bytes) (sm : Sm) → (output : Bytes) × ((run machine o sm).0 ≡ ok output)
  unfolding run
  run_takes none sm = ([], refl)
  run_takes (some command) sm = takes command sm

module _ {P : Platform} where
  -- Ticks of a node that is a follower, until it is none any more.
  abbrev wait_on : (RoleNode P Follower → Result (Node P)) → Node P → Result (Node P)
  wait_on more (follower n) = more n
  wait_on more n = ok n

  unfoldable pub wait : ℕ → RoleNode P Follower → Result (Node P)
  wait zero n = ok (follower n)
  wait (suc k) n = and_then (follower_tick n) (wait_on (wait k))

  -- The node is a candidate.
  abbrev pub Stands : Result (Node P) → Type 0
  Stands (ok (candidate n)) = Unit
  Stands (ok n) = ⊥
  Stands (err e) = ⊥

  -- The ticks that are left, and that they do not wrap around.
  abbrev Due : ℕ → RoleNode P Follower → Type 0
  Due k n =
      (n.role.leader_seen_timeout ≤ n.role.leader_seen_ticks + k)
      × (n.role.leader_seen_ticks + k < u64_mod)
      × (zero < k)
