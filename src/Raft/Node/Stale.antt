-- ===== src/Raft/Node/Stale.antt =====
-- Which messages a node ignores, in every role.
use mynode.Base.{
  ℕ, ◌<◌, String, ◌≡◌, ◌≢◌, refl, ap, Bool, true, false, Option, none, some, ltb, lt→ltb, str_eq,
  eq_iff, ◌⊎◌, inl, inr, Bool-cases,
}
use mynode.Base.Result.{Result, ok, err}
use mynode.Raft.Message.{Message, normalize, validate, validate_receiver}
use mynode.Raft.Node.{Platform, RoleNode, normalize_message}
use mynode.Raft.Node.Roles.{Node, candidate, follower, leader}
use mynode.Raft.Node.Follower as FollowerNode
use mynode.Raft.Node.Leader as LeaderNode
use mynode.Raft.Node.Candidate as CandidateNode
use mynode.Raft.Node.Machine as MachineNode

-- A message of another node that is of an earlier term, or that is not addressed to this one.
abbrev pub IsForeign : Message → ℕ → String → Type 0
IsForeign msg term id = (msg.term < term) ⊎ (msg.receiver ≢ some id)

abbrev accepted : Result (Unit {0}) → Bool
accepted (ok _) = true
accepted (err _) = false

validate_receiver-foreign :
    (id : String) (to : Option String) → to ≢ some id → accepted (validate_receiver id to) ≡ false
unfolding validate_receiver
validate_receiver-foreign id none h = refl
validate_receiver-foreign id (some to) h = elim (Bool-cases (str_eq to id)) [
  | inl same ↦ absurd (h (ap some ((eq_iff to id).0 same)))
  | inr other ↦ rw other refl
]

module _ {P : Platform} where
  -- The term and the name of a node.
  abbrev pub term_of : Node P → ℕ
  term_of (candidate n) = n.term
  term_of (follower n) = n.term
  term_of (leader n) = n.term

  abbrev pub id_of : Node P → String
  id_of (candidate n) = n.id
  id_of (follower n) = n.id
  id_of (leader n) = n.id

  normalize_message-foreign :
      {R : Type 0} (msg : Message) (n : RoleNode P R) (sender : String)
      → msg.sender ≡ some sender
      → IsForeign msg n.term n.id
      → (normalize_message msg n).1 ≡ false
  unfolding normalize_message normalize validate
  normalize_message-foreign msg n sender from foreign = elim foreign [
    | inl early ↦ rw (normalize_message, from, lt→ltb msg.term n.term early) refl
    | inr elsewhere ↦ elim (Bool-cases (ltb msg.term n.term)) [
      | inl early ↦ rw (normalize_message, from, early) refl
      | inr current ↦
          rw (normalize_message, from, current)
            (validate_receiver-foreign n.id msg.receiver elsewhere)
    ]
  ]

  -- In every role, a message of another node that is of an earlier term, or not addressed to this
  -- node, leaves the node as it is.
  pub step-foreign :
      (msg : Message) (node : Node P) (sender : String)
      → msg.sender ≡ some sender
      → IsForeign msg (term_of node) (id_of node)
      → MachineNode.step msg node ≡ ok node
  unfolding MachineNode.step FollowerNode.step LeaderNode.step CandidateNode.step
  step-foreign msg (candidate n) sender from foreign =
      rw (normalize_message-foreign msg n sender from foreign) refl
  step-foreign msg (follower n) sender from foreign =
      rw (normalize_message-foreign msg n sender from foreign) refl
  step-foreign msg (leader n) sender from foreign =
      rw (normalize_message-foreign msg n sender from foreign) refl
