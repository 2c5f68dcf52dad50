-- ===== src/Raft/Calls/Quorum.antt =====
-- What a vote does to each call, and which reads a leader answers: those that a quorum of different
-- nodes has voted for.
use mynode.Base.{
  ℕ, ◌<◌, ◌≤◌, ◌⊎◌, ◌||◌, str_eq, eq_iff, String, ◌≡◌, refl, sym, ap, ◌∙◌, Bool, true, false, List,
  [], ◌∷◌, length, leb, leb→le, arith, if◌then◌else◌, Bool-cases, inl, inr,
}
use mynode.Raft.Calls.{
  Operation, mutate_state, read_state, Call, contains, add_vote, vote_operation, quorum_vote,
}

-- No name stands in the list twice.
abbrev pub IsDistinct : List String → Type 0
IsDistinct [] = Unit
IsDistinct (v ∷ vs) = (contains v vs ≡ false) × IsDistinct vs

abbrev pub HasDistinctVotes : Operation → Type 0
HasDistinctVotes (mutate_state _) = Unit
HasDistinctVotes (read_state _ _ _ votes) = IsDistinct votes

-- The votes are those of before and the voter's, each once.
abbrev pub GainsVote : String → List String → List String → Type 0
GainsVote voter votes votes' =
    IsDistinct votes' × ((v : String) → contains v votes' ≡ (str_eq voter v || contains v votes))

-- What becomes of a call, and whether it is answered. A mutation stays as it is, and so does a read
-- that came after the index which the voter confirms. A read of that index or an earlier one gains
-- the vote; it is answered exactly where as many nodes as its quorum have voted.
abbrev pub Votes : String → ℕ → Operation → Operation → Bool → Type 0
Votes voter index (mutate_state i) (mutate_state j) answered = (i ≡ j) × (answered ≡ false)
Votes voter index (read_state command i quorum votes) (read_state command' i' quorum' votes')
      answered =
    (command' ≡ command)
    × (i' ≡ i)
    × (quorum' ≡ quorum)
    × (((index < i) × (votes' ≡ votes) × (answered ≡ false))
        ⊎ ((i ≤ index)
            × GainsVote voter votes votes'
            × (((quorum ≤ length votes') × (answered ≡ true))
                ⊎ ((length votes' < quorum) × (answered ≡ false)))))
Votes voter index _ _ answered = ⊥

abbrev pub VotesCall : String → ℕ → Call → Call → Bool → Type 0
VotesCall voter index c c' answered =
    (c'.id ≡ c.id) × (c'.sender ≡ c.sender) × Votes voter index c.operation c'.operation answered

-- The calls are told apart, in their order: each is answered or stays.
pub data Splits (voter : String) (index : ℕ) : List Call → List Call → List Call → Type 0 where
  split_nil : Splits voter index [] [] []
  split_answered :
      {c c' : Call} {calls answered left : List Call}
      → VotesCall voter index c c' true
      → Splits voter index calls answered left
      → Splits voter index (c ∷ calls) (c' ∷ answered) left
  split_left :
      {c c' : Call} {calls answered left : List Call}
      → VotesCall voter index c c' false
      → Splits voter index calls answered left
      → Splits voter index (c ∷ calls) answered (c' ∷ left)

abbrev pub AllCalls : (Operation → Type 0) → List Call → Type 0
AllCalls P [] = Unit
AllCalls P (c ∷ calls) = P c.operation × AllCalls P calls

contains-add_vote :
    (voter v : String) (votes : List String)
    → contains v (add_vote voter votes) ≡ (str_eq voter v || contains v votes)
unfolding add_vote contains
contains-add_vote voter v votes = elim (Bool-cases (contains voter votes)) [
  | inr new ↦ rw new refl
  | inl there ↦ rw there (elim (Bool-cases (str_eq voter v)) [
    | inr other ↦ rw other refl
    | inl same ↦ rw same (ap (λ w. contains w votes) (sym ((eq_iff voter v).0 same)) ∙ there)
  ])
]

add_vote-IsDistinct :
    (v : String) (votes : List String) → IsDistinct votes → IsDistinct (add_vote v votes)
unfolding add_vote
add_vote-IsDistinct v votes h = elim (Bool-cases (contains v votes)) [
  | inl there ↦ rw there h
  | inr new ↦ rw new (new, h)
]

vote_operation-Votes :
    (voter : String) (index : ℕ) (o : Operation)
    → HasDistinctVotes o
    → Votes voter index o (vote_operation voter index o).0 (vote_operation voter index o).1
unfolding vote_operation
vote_operation-Votes voter index (mutate_state i) h = (refl, refl)
vote_operation-Votes voter index (read_state command i quorum votes) h =
    let gained : GainsVote voter votes (add_vote voter votes) =
      (add_vote-IsDistinct voter votes h, λ v. contains-add_vote voter v votes) in
    let votes' = add_vote voter votes in
    elim (Bool-cases (leb i index)) [
      | inr later ↦
          let after : index < i = ground arith in
          rw later (refl, refl, refl, inl (after, refl, refl))
      | inl earlier ↦ rw earlier (elim (Bool-cases (leb quorum (length votes'))) [
        | inl enough ↦ rw enough (
          refl,
          refl,
          refl,
          inr (leb→le i index earlier, gained, inl (leb→le quorum (length votes') enough, refl)),
        )
        | inr few ↦
            let short : length votes' < quorum = ground arith in
            rw few (refl, refl, refl, inr (leb→le i index earlier, gained, inr (short, refl)))
      ])
    ]

abbrev SplitsPair : String → ℕ → List Call → List Call × List Call → Type 0
SplitsPair voter index calls r = Splits voter index calls r.0 r.1

Splits-next :
    (voter : String) (index : ℕ) (c : Call) (calls : List Call) (v : Operation × Bool)
    (r : List Call × List Call)
    → Votes voter index c.operation v.0 v.1
    → SplitsPair voter index calls r
    → SplitsPair voter index (c ∷ calls) (
        let c' : Call = record { id = c.id; sender = c.sender; operation = v.0 } in
        if v.1 then (c' ∷ r.0, r.1) else (r.0, c' ∷ r.1))
Splits-next voter index c calls (o, true) r h s = split_answered (refl, refl, h) s
Splits-next voter index c calls (o, false) r h s = split_left (refl, refl, h) s

-- A vote tells the calls apart in their order, each answered or left, with its ID, its sender and
-- what it asks. A mutation is left as it is, and so is a read that came after the commit index
-- which the voter confirms; every other read gains the voter among its votes, each of which it has
-- once, and is answered exactly where these are as many as its quorum. The votes of each call were
-- of different nodes before.
pub quorum_vote_lem :
    (voter : String) (index : ℕ) (calls : List Call)
    → AllCalls HasDistinctVotes calls
    → Splits voter index calls (quorum_vote voter index calls).0 (quorum_vote voter index calls).1
unfolding quorum_vote
quorum_vote_lem voter index [] h = split_nil
quorum_vote_lem voter index (c ∷ calls) h =
    Splits-next voter index c calls (vote_operation voter index c.operation)
      (quorum_vote voter index calls) (vote_operation-Votes voter index c.operation h.0)
      (quorum_vote_lem voter index calls h.1)
