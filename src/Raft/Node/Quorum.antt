-- ===== src/Raft/Node/Quorum.antt =====
-- What a quorum is, and that a leader commits only what a quorum has.
use mynode.Base.{
  ℕ, zero, suc, ◌+◌, ◌-◌, ◌≤◌, ◌<◌, String, ◌≡◌, refl, sym, ap, ◌∙◌, false, none, some, List, [],
  ◌∷◌, map, length, leb, ltb, ltb→lt, ◌==◌, ==_iff, if◌then◌else◌, arith, get_elem?, ◌⊎◌, inl, inr,
  Bool-cases, Option-cases,
}
use mynode.Base.Result.{ok}
use mynode.Raft.Disk.{Entry, IsSound}
use mynode.Raft.Log as Log
use mynode.Raft.Log.Represents.{entry_at, get-entry_at, entry_at-ge}
use mynode.Raft.Log.{term_or_zero}
use mynode.Raft.Log.Valid.{IsValid, term_at, commit_lem}
use mynode.Raft.Node.{Platform, RoleNode, quorum}
use mynode.Raft.Node.Roles.{Leader}
use mynode.Raft.Node.Leader.{insert_desc, sort_desc, quorum_index, commit}

-- How many numbers are at least `q`.
unfoldable pub count_ge : ℕ → List ℕ → ℕ
count_ge q [] = 0
count_ge q (n ∷ ns) = if leb q n then suc (count_ge q ns) else count_ge q ns

count_ge-insert : (q n : ℕ) (ns : List ℕ) → count_ge q (insert_desc n ns) ≡ count_ge q (n ∷ ns)
unfolding count_ge insert_desc
count_ge-insert q n [] = refl
count_ge-insert q n (m ∷ ns) = ground (arith, count_ge-insert q n ns)

count_ge-sort : (q : ℕ) (ns : List ℕ) → count_ge q (sort_desc ns) ≡ count_ge q ns
unfolding count_ge sort_desc
count_ge-sort q [] = refl
count_ge-sort q (n ∷ ns) = count_ge-insert q n (sort_desc ns) ∙ ground (arith, count_ge-sort q ns)

abbrev AllBelow : ℕ → List ℕ → Type 0
AllBelow b [] = Unit
AllBelow b (n ∷ ns) = (n ≤ b) × AllBelow b ns

abbrev IsDescending : List ℕ → Type 0
IsDescending [] = Unit
IsDescending (n ∷ ns) = AllBelow n ns × IsDescending ns

AllBelow-insert : (b n : ℕ) (ns : List ℕ) → n ≤ b → AllBelow b ns → AllBelow b (insert_desc n ns)
unfolding insert_desc
AllBelow-insert b n [] h a = (h, tt)
AllBelow-insert b n (m ∷ ns) h a = elim (Bool-cases (leb m n)) [
  | inl first ↦ rw first (h, a)
  | inr later ↦ rw later (a.0, AllBelow-insert b n ns h a.1)
]

AllBelow-le : (b c : ℕ) (ns : List ℕ) → b ≤ c → AllBelow b ns → AllBelow c ns
AllBelow-le b c [] h a = tt
AllBelow-le b c (n ∷ ns) h a = (omega arith, AllBelow-le b c ns h a.1)

IsDescending-insert : (n : ℕ) (ns : List ℕ) → IsDescending ns → IsDescending (insert_desc n ns)
unfolding insert_desc
IsDescending-insert n [] d = (tt, tt)
IsDescending-insert n (m ∷ ns) d = elim (Bool-cases (leb m n)) [
  | inl first ↦ let le : m ≤ n = ground arith in rw first ((le, AllBelow-le m n ns le d.0), d)
  | inr later ↦ rw later (AllBelow-insert m n ns (ground arith) d.0, IsDescending-insert n ns d.1)
]

IsDescending-sort : (ns : List ℕ) → IsDescending (sort_desc ns)
unfolding sort_desc
IsDescending-sort [] = tt
IsDescending-sort (n ∷ ns) = IsDescending-insert n (sort_desc ns) (IsDescending-sort ns)

AllBelow-get : (b : ℕ) (ns : List ℕ) (k q : ℕ) → AllBelow b ns → get_elem? ns k ≡ some q → q ≤ b
AllBelow-get b [] k q a h = cc
AllBelow-get b (n ∷ ns) zero q a h = ground arith
AllBelow-get b (n ∷ ns) (suc k) q a h = AllBelow-get b ns k q a.1 h

-- In descending order the number at place `k` is reached by `k + 1` numbers at least.
count_ge-descending :
    (ns : List ℕ) (k q : ℕ) → IsDescending ns → get_elem? ns k ≡ some q → k < count_ge q ns
unfolding count_ge
count_ge-descending [] k q d h = cc
count_ge-descending (n ∷ ns) zero q d h = ground arith
count_ge-descending (n ∷ ns) (suc k) q d h =
    ground (arith, count_ge-descending ns k q d.1 h, AllBelow-get n ns k q d.0 h)

length-insert_desc : (n : ℕ) (ns : List ℕ) → length (insert_desc n ns) ≡ suc (length ns)
unfolding insert_desc
length-insert_desc n [] = refl
length-insert_desc n (m ∷ ns) = ground (arith, length-insert_desc n ns)

length-sort_desc : (ns : List ℕ) → length (sort_desc ns) ≡ length ns
unfolding sort_desc
length-sort_desc [] = refl
length-sort_desc (n ∷ ns) = length-insert_desc n (sort_desc ns) ∙ ap suc (length-sort_desc ns)

length-seconds : (m : List (String × ℕ)) → length (map (λ p. p.1) m) ≡ length m
length-seconds [] = refl
length-seconds (p ∷ m) = ap suc (length-seconds m)

get_elem?-none : (ns : List ℕ) (k : ℕ) → get_elem? ns k ≡ none → length ns ≤ k
get_elem?-none [] k h = omega arith
get_elem?-none (n ∷ ns) zero h = absurd cc
get_elem?-none (n ∷ ns) (suc k) h = omega (arith, get_elem?-none ns k h)

ltb-false : (a b : ℕ) → ltb a b ≡ false → b ≤ a
ltb-false a b h = ground arith

entry_at-some : (es : List Entry) (i : ℕ) (e : Entry) → entry_at es i ≡ some e → i ≤ length es
entry_at-some es i e h = elim (Bool-cases (ltb (length es) i)) [
  | inl past ↦ absurd (let gone = entry_at-ge es i (ltb→lt (length es) i past) in cc)
  | inr inside ↦ ltb-false (length es) i inside
]

module _ {P : Platform} where
  -- Two quorums together are more than the cluster, and one is at most the cluster.
  quorum_majority :
      {R : Type 0} (n : RoleNode P R)
      → (length n.peers + 1 < quorum n + quorum n) × (quorum n ≤ length n.peers + 1)
  unfolding quorum
  quorum_majority n = omega arith

  -- The last indexes that the leader knows of: its own and those of its peers.
  abbrev pub known_indexes : RoleNode P Leader → List ℕ
  known_indexes n = n.log.last_index ∷ map (λ p. p.1) n.role.peer_last_index

  -- As many logs as make a quorum reach the quorum index.
  pub quorum_index_reached :
      (n : RoleNode P Leader) (q : ℕ)
      → quorum_index n ≡ some q
      → quorum n ≤ count_ge q (known_indexes n)
  unfolding quorum_index
  quorum_index_reached n q h =
      let below =
        count_ge-descending (sort_desc (known_indexes n)) (quorum n - 1) q
          (IsDescending-sort (known_indexes n)) h in
      omega (arith, below, count_ge-sort q (known_indexes n))

  quorum_index-exists :
      (n : RoleNode P Leader)
      → length n.role.peer_last_index ≡ length n.peers
      → quorum_index n ≡ none
      → ⊥
  unfolding quorum_index
  quorum_index-exists n known miss =
      let long = get_elem?-none (sort_desc (known_indexes n)) (quorum n - 1) miss in
      omega (
        arith,
        long,
        known,
        quorum_majority n,
        length-sort_desc (known_indexes n),
        length-seconds n.role.peer_last_index,
      )

  -- The commit index after a commit: as before, or an index that a quorum has reached, with an entry
  -- of the leader's own term.
  abbrev pub Committed : RoleNode P Leader → List Entry → ℕ → Type 0
  Committed n es c =
      (c ≡ n.log.commit_index)
      ⊎ ((n.log.commit_index < c)
          × (term_at es c ≡ n.term)
          × (quorum n ≤ count_ge c (known_indexes n)))

  module _ (sound : IsSound P.disk) where
    commit_log :
        (n : RoleNode P Leader) (es : List Entry) (q : ℕ) (e : Entry)
        → IsValid sound n.log es
        → ltb q n.log.commit_index ≡ false
        → quorum_index n ≡ some q
        → entry_at es q ≡ some e
        → e.term ≡ n.term
        → let l = (Log.commit P.disk q n.log).1 in
          ((Log.commit P.disk q n.log).0 ≡ ok l.commit_index)
          × IsValid sound l es
          × Committed n es l.commit_index
    commit_log n es q e v high at hit own =
        let (returned, valid, index, _, _) = commit_lem sound q v in
        let inside : q ≤ length es = entry_at-some es q e hit in
        let same : (Log.commit P.disk q n.log).1.commit_index ≡ q =
          omega (arith, index, inside, ltb-false q n.log.commit_index high) in
        (
          returned ∙ ap ok (sym index),
          valid,
          rw same (elim (Bool-cases (ltb n.log.commit_index q)) [
            | inl more ↦ inr (
              ltb→lt n.log.commit_index q more,
              ap term_or_zero hit ∙ own,
              quorum_index_reached n q at,
            )
            | inr not_more ↦ inl (
                omega (
                  arith,
                  ltb-false q n.log.commit_index high,
                  ltb-false n.log.commit_index q not_more,
                ))
          ]),
        )

    -- Where the leader's log is valid and it has an index for each peer, a commit succeeds, keeps
    -- the log valid, and moves the commit index only forward, to an index that a quorum is known
    -- to have reached and whose entry is of the leader's term. This is for a store and a
    -- serialization that keep their laws.
    pub commit_quorum :
        (n : RoleNode P Leader) (es : List Entry)
        → IsValid sound n.log es
        → length n.role.peer_last_index ≡ length n.peers
        → ((commit n).0 ≡ ok (commit n).1.log.commit_index)
          × IsValid sound (commit n).1.log es
          × Committed n es (commit n).1.log.commit_index
    unfolding commit
    commit_quorum n es v known = elim (Option-cases (quorum_index n)) [
      | inl miss ↦ absurd (quorum_index-exists n known miss)
      | inr (q, at) ↦ rw at (elim (Bool-cases (ltb q n.log.commit_index)) [
        | inl low ↦ rw low (refl, v, inl refl)
        | inr high ↦ rw high (
            rw (get-entry_at sound v.represents q) (elim (Option-cases (entry_at es q)) [
              | inl absent ↦ rw absent (refl, v, inl refl)
              | inr (e, hit) ↦ rw hit (elim (Bool-cases (e.term == n.term)) [
                | inr other ↦ rw other (refl, v, inl refl)
                | inl own ↦ rw own (commit_log n es q e v high at hit ((==_iff _ _).0 own))
              ])
            ]))
      ])
    ]
