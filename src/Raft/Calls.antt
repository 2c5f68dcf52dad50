-- ===== src/Raft/Calls.antt =====
-- raft/node/leader.rs: the client calls that a leader is processing.
pub mod Quorum
use mynode.Base.{
  ℕ, String, Bool, false, ◌||◌, Option, none, some, List, [], ◌∷◌, length, leb, ◌==◌, str_eq,
  if◌then◌else◌,
}
use mynode.Store.{Bytes}

pub data Operation : Type 0 where
  -- the index of the entry
  mutate_state : ℕ → Operation
  -- the command, the commit index, the quorum and the votes
  read_state : Bytes → ℕ → ℕ → List String → Operation

pub record Call : Type 0 where
  pub id : Bytes
  pub sender : Option String
  pub operation : Operation

unfoldable pub register : Call → List Call → List Call
register call [] = call ∷ []
register call (c ∷ calls) = c ∷ register call calls

tracks : ℕ → Operation → Bool
tracks index (mutate_state log_index) = log_index == index
tracks index (read_state _ _ _ _) = false

-- The first call that tracks the entry is taken out.
unfoldable pub log_applied : ℕ → List Call → Option Call × List Call
unfolding tracks
log_applied index [] = (none, [])
log_applied index (c ∷ calls) =
    let rest = log_applied index calls in
    if tracks index c.operation then (some c, calls) else (rest.0, c ∷ rest.1)

unfoldable pub contains : String → List String → Bool
contains v [] = false
contains v (w ∷ ws) = str_eq w v || contains v ws

-- `votes.insert(voter)` on a set of names.
unfoldable pub add_vote : String → List String → List String
unfolding contains
add_vote v votes = if contains v votes then votes else v ∷ votes

-- The call after the vote, and whether a quorum has voted.
unfoldable pub vote_operation : String → ℕ → Operation → Operation × Bool
unfolding add_vote
vote_operation voter index (mutate_state log_index) = (mutate_state log_index, false)
vote_operation voter index (read_state command commit_index quorum votes) =
    if leb commit_index index
    then (
      read_state command commit_index quorum (add_vote voter votes),
      leb quorum (length (add_vote voter votes)),
    )
    else (read_state command commit_index quorum votes, false)

-- The calls that a quorum has voted for, taken out, and the others.
unfoldable pub quorum_vote : String → ℕ → List Call → List Call × List Call
unfolding vote_operation
quorum_vote voter index [] = ([], [])
quorum_vote voter index (c ∷ calls) =
    let rest = quorum_vote voter index calls in
    let v = vote_operation voter index c.operation in
    let c' : Call = record { id = c.id; sender = c.sender; operation = v.0 } in
    if v.1 then (c' ∷ rest.0, rest.1) else (rest.0, c' ∷ rest.1)
