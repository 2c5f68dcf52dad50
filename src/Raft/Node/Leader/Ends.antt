-- ===== src/Raft/Node/Leader/Ends.antt =====
-- The loop of `RoleNode<Leader>::apply` on a valid log: it ends with all that is committed applied.
use mynode.Base.{ℕ, ◌≡◌, List}
use mynode.Base.Result.{Result, ok}
use mynode.Raft.Disk.{Entry, IsSound}
use mynode.Raft.Log.Valid.{IsValid}
use mynode.Raft.Message.{Message}
use mynode.Raft.Node.{Platform, RoleNode, send}
use mynode.Raft.Node.Roles.{Leader}
use mynode.Raft.Node.Waits.{TakesAll}
use mynode.Raft.Node.Leader as LeaderNode

module _ {P : Platform} (sound : IsSound P.disk) (takes : TakesAll P.machine)
    (sends : (msg : Message) (c : P.Channel) → (P.send msg c).0 ≡ ok tt) where
  -- All that was committed is applied, and the log is valid.
  pub record Applied (n : RoleNode P Leader) (es : List Entry) (r : Result ℕ × RoleNode P Leader)
      : Type 0 where
    pub result : r.0 ≡ ok n.log.commit_index
    pub valid : IsValid sound r.1.log es
    pub commit_index : r.1.log.commit_index ≡ n.log.commit_index
    pub apply_index : r.1.log.apply_index ≡ n.log.commit_index

  abbrev Answers : RoleNode P Leader → Result (Unit {0}) × RoleNode P Leader → Type 0
  Answers n r = (r.0 ≡ ok tt) × (r.1.log ≡ n.log)
