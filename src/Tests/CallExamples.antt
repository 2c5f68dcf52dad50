-- ===== src/Tests/CallExamples.antt =====
-- A read that one node of three has voted for, and the vote of a second.
use mynode.Base.{refl, none, some, List, [], ◌∷◌}
use mynode.Raft.Calls.{Call, contains, mutate_state, read_state, quorum_vote}
use mynode.Raft.Calls.Quorum.{Splits, quorum_vote_lem}

abbrev calls : List Call
calls =
    record { id = 1 ∷ []; sender = none; operation = read_state (7 ∷ []) 4 2 ("a" ∷ []) }
    ∷ record { id = 2 ∷ []; sender = some "c"; operation = mutate_state 5 }
    ∷ []

quorum_vote_lem_example : Splits "b" 4 calls (quorum_vote "b" 4 calls).0 (quorum_vote "b" 4 calls).1
unfolding contains
quorum_vote_lem_example = quorum_vote_lem "b" 4 calls ((refl, tt), (tt, tt))
