-- ===== src/Raft/Log/Splice.antt =====
-- `Log::splice` against the list of entries: what agrees stays, and the first entry of another term
-- replaces what stands there and all that follows.
use mynode.Base.{
  ℕ, ◌+◌, ◌≤◌, ◌<◌, ◌≡◌, refl, ap, true, false, some, List, ◌++◌, length, take, drop, arith,
  length-append, length-take, length-drop, String, Bool-cases, inl, inr, u64_mod,
}
use mynode.Base.Result.{ok, err, value, raft_base_not_found}
use mynode.Raft.Disk.{Entry, Disk, IsSound}
use mynode.Raft.Log.{Log, splice}
use mynode.Raft.Log.Represents.{Represents, SameOthers, SameMarks, SameMarks-refl, Yields}
use mynode.Raft.Log.Merge.{
  conflict_cases, take-splice, ConflictAfter, conflict, merge, length-merge,
}
use mynode.Raft.Log.Append.{has_at, has_at-le, has-has_at}
use mynode.Raft.Log.Rounds.{splice_entries-merge, splice_entries_refused}

module _ {Kv : Type 0} {disk : Disk Kv} (sound : IsSound disk) (base base_term : ℕ) where
  -- Where the log does not have the base at its term, splice reports that base as not found and
  -- the log stays as it is. This is for a store and a serialization that keep their laws.
  splice_base_missing :
      (new : List Entry) {l : Log Kv} {es : List Entry}
      → Represents sound l es
      → has_at es base base_term ≡ false
      → splice disk base base_term new l ≡ (err (raft_base_not_found base base_term), l)
  unfolding splice
  splice_base_missing new r missing = rw (has-has_at sound r base base_term, missing)

  -- Where the log has the base and no conflict lies in what is committed, splice leaves a log that
  -- stands for the old entries up to the base followed by the merge of the old and the new ones
  -- after it, returns its length, and touches no other key. What is applied is taken to be
  -- committed. This is for a store and a serialization that keep their laws, and indexes below
  -- 2^64.
  pub splice-merge :
      (new : List Entry) {l : Log Kv} {es : List Entry}
      → Represents sound l es
      → has_at es base base_term ≡ true
      → length es + length new + 2 < u64_mod
      → l.apply_index ≤ l.commit_index
      → ConflictAfter l.commit_index base (conflict (drop base es) new)
      → Yields sound
          (splice disk base base_term new l)
          (length (take base es ++ merge (drop base es) new))
          l
          (take base es ++ merge (drop base es) new)
  unfolding splice
  splice-merge new {l} {es} r found fits marks safe =
      let y =
        splice_entries-merge sound base new 0 base r (omega arith)
          (has_at-le es base base_term found) fits marks safe in
      rw (has-has_at sound r base base_term, found)
        (rw y.result (record {
          result = ap ok y.represents.last_index;
          represents = y.represents;
          marks = y.marks;
          others = y.others;
        }))

  -- Where the first conflict of the new entries lies in what is committed, splice is an error and
  -- the log stays as it is. What is applied is taken to be committed. This is for a store and a
  -- serialization that keep their laws, and indexes below 2^64.
  pub splice_refused :
      (new : List Entry) (c : ℕ) {l : Log Kv} {es : List Entry}
      → Represents sound l es
      → has_at es base base_term ≡ true
      → length es + length new + 2 < u64_mod
      → l.apply_index ≤ l.commit_index
      → conflict (drop base es) new ≡ some c
      → base + c < l.commit_index
      → (text : String) × (splice disk base base_term new l ≡ (err (value text), l))
  unfolding splice
  splice_refused new c {l} {es} r found fits marks clash low =
      let (text, e) =
        splice_entries_refused sound base new 0 base c r (omega arith)
          (has_at-le es base base_term found) fits marks clash low in
      (text, rw (has-has_at sound r base base_term, found) (rw e))

  -- Whatever is spliced, and whether it succeeds or fails, the log stands for a list again whose
  -- committed entries are those of before, and what is committed and applied is as before; it is
  -- longer by no more than the new entries.
  pub splice_keeps_committed :
      (new : List Entry) {l : Log Kv} {es : List Entry}
      → Represents sound l es
      → length es + length new + 2 < u64_mod
      → l.apply_index ≤ l.commit_index
      → l.commit_index ≤ length es
      → (es' : List Entry) × Represents sound (splice disk base base_term new l).1 es'
        × (take l.commit_index es' ≡ take l.commit_index es)
        × SameMarks l (splice disk base base_term new l).1
        × SameOthers sound l.kv (splice disk base base_term new l).1.kv
        × (length es' ≤ length es + length new)
  splice_keeps_committed new {l} {es} r fits marks inside =
      elim (Bool-cases (has_at es base base_term)) [
        | inr missing ↦
            rw (splice_base_missing new r missing)
              (es, r, refl, SameMarks-refl l, λ k h. refl, omega arith)
        | inl found ↦ elim (conflict_cases l.commit_index base (conflict (drop base es) new)) [
          | inl safe ↦
              let y = splice-merge new r found fits marks safe in
              (
                take base es ++ merge (drop base es) new,
                y.represents,
                take-splice base l.commit_index es new (has_at-le es base base_term found) inside
                    safe,
                y.marks,
                y.others,
                omega (
                  arith,
                  length-append {0} (take base es) (merge (drop base es) new),
                  length-merge (drop base es) new,
                  length-take {0} base es,
                  length-drop {0} base es,
                  has_at-le es base base_term found,
                ),
              )
          | inr (n, clash, low) ↦
              let (text, e) = splice_refused new n r found fits marks clash low in
              rw e (es, r, refl, SameMarks-refl l, λ k h. refl, omega arith)
        ]
      ]
