-- ===== src/Raft/Log/Replicate.antt =====
-- What `Log::splice` is for: afterwards the follower has the entries that were sent to it.
use mynode.Base.{
  ℕ, zero, suc, ◌+◌, ◌≤◌, ◌<◌, ◌≡◌, refl, ap, ◌∙◌, true, List, [], ◌∷◌, ◌++◌, length, take, drop,
  arith, ◌==◌, ==_iff, u64_mod, Bool-cases, inl, inr,
}
use mynode.Base.Result.{ok}
use mynode.Raft.Disk.{Entry, Disk, IsSound}
use mynode.Raft.Log.{Log, splice}
use mynode.Raft.Log.Represents.{Represents}
use mynode.Raft.Log.Append.{has_at, has_at-le}
use mynode.Raft.Log.Merge.{
  merge, conflict, ConflictAfter, merge-agree, merge-differ, merge-nil, take_all,
}
use mynode.Raft.Log.Splice.{splice-merge}

-- Entries in the same place with the same term are the same entry: what Raft's terms promise, since a
-- term has one leader, which writes one entry for an index.
abbrev pub TermsDecide : List Entry → List Entry → Type 0
TermsDecide (o ∷ old) (n ∷ new) = (o.term ≡ n.term → o ≡ n) × TermsDecide old new
TermsDecide _ _ = Unit

take-merge_new :
    (old new : List Entry) → TermsDecide old new → take (length new) (merge old new) ≡ new
take-merge_new old [] h = refl
take-merge_new [] (n ∷ new) h =
    rw (merge-nil (n ∷ new)) (take_all (n ∷ new) (length (n ∷ new)) (omega arith))
take-merge_new (o ∷ old) (n ∷ new) h = elim (Bool-cases (o.term == n.term)) [
  | inl same ↦
      rw (merge-agree o n old new same)
        (λ i. h.0 ((==_iff _ _).0 same) i ∷ take-merge_new old new h.1 i)
  | inr differ ↦
      rw (merge-differ o n old new differ) (take_all (n ∷ new) (length (n ∷ new)) (omega arith))
]

drop-take_append :
    (k : ℕ) (es more : List Entry) → k ≤ length es → drop k (take k es ++ more) ≡ more
drop-take_append zero es more h = refl
drop-take_append (suc k) [] more h = absurd (omega arith)
drop-take_append (suc k) (e ∷ es) more h = drop-take_append k es more (omega arith)

module _ {Kv : Type 0} {disk : Disk Kv} (sound : IsSound disk) (base base_term : ℕ) where
  -- Where the log has the base, no conflict lies in what is committed, and entries of the same
  -- place and term are the same, splice succeeds, and the log that it leaves has the new entries
  -- right after the base. What is applied is taken to be committed. This is for a store and a
  -- serialization that keep their laws, and indexes below 2^64.
  pub splice-replicates :
      (new : List Entry) {l : Log Kv} {es : List Entry}
      → Represents sound l es
      → has_at es base base_term ≡ true
      → length es + length new + 2 < u64_mod
      → l.apply_index ≤ l.commit_index
      → ConflictAfter l.commit_index base (conflict (drop base es) new)
      → TermsDecide (drop base es) new
      → (es' : List Entry) × Represents sound (splice disk base base_term new l).1 es'
        × ((splice disk base base_term new l).0 ≡ ok (length es'))
        × (take (length new) (drop base es') ≡ new)
  splice-replicates new {l} {es} r found fits marks safe decide =
      let y = splice-merge sound base base_term new r found fits marks safe in
      let rest =
        drop-take_append base es (merge (drop base es) new) (has_at-le es base base_term found) in
      (
        take base es ++ merge (drop base es) new,
        y.represents,
        y.result,
        ap (take (length new)) rest ∙ take-merge_new (drop base es) new decide,
      )
