-- ===== src/Tests/LogExamples.antt =====
-- The theorems of the log, at the log of two entries.
use mynode.Base.{
  String, ◌≡◌, refl, max, min, none, some, List, [], ◌∷◌, ◌++◌, take, arith, length, drop,
}
use mynode.Base.Result.{ok, err, value, Exec}
use mynode.Store.{Bytes}
use mynode.Raft.Disk.{Entry}
use mynode.Raft.Log.{append, commit, splice, truncate}
use mynode.Raft.Log.Represents.{Yields}
use mynode.Raft.Log.Append.{append-Represents, has_at}
use mynode.Raft.Log.Truncate.{truncate-Represents}
use mynode.Raft.Log.Merge.{merge, conflict}
use mynode.Raft.Log.Splice.{splice-merge, splice_refused}
use mynode.Raft.Log.Replicate.{splice-replicates}
use mynode.Raft.Log.Represents.{Represents}
use mynode.Raft.Log.Valid.{IsValid, commit_lem, splice-IsValid}
use mynode.Raft.Log.Open as LogOpen
use mynode.Raft.Log.Open.{new-IsValid}
use mynode.Raft.Log.Term.{load_term, save_term, load-save_term}
use mynode.Raft.Log.Apply.{StateMachine, apply, apply_idle}
use mynode.Raft.Log.Drain.{Drained, apply_all, apply_all-replay}
use mynode.Tests.Disk.{disk, sound}
use mynode.Tests.Log.{
  set_x, noop, two_entries, two_entries-IsValid, committed_log, committed_log-IsValid,
  committed_log_index, empty_log,
}

abbrev entries : List Entry
entries = set_x ∷ noop ∷ []

-- An entry of a later term, for the place of the second.
abbrev set_y : Entry
set_y = record { term = 3; command = some (9 ∷ []) }

append-Represents_example :
    Yields sound (append disk set_y committed_log) 3 committed_log (entries ++ set_y ∷ [])
append-Represents_example =
    append-Represents sound set_y committed_log-IsValid.represents (omega arith)

truncate-Represents_example :
    Yields sound (truncate disk 1 committed_log) 1 committed_log (set_x ∷ [])
truncate-Represents_example =
    truncate-Represents sound 1 committed_log-IsValid.represents (omega arith)
      (omega (arith, committed_log-IsValid.applied, committed_log_index))
      (omega (arith, committed_log_index))

splice-merge_example :
    Yields sound (splice disk 1 1 (set_y ∷ []) committed_log) 2 committed_log (set_x ∷ set_y ∷ [])
unfolding merge conflict
splice-merge_example =
    splice-merge sound 1 1 (set_y ∷ []) committed_log-IsValid.represents (unfold has_at in refl)
      (omega arith) committed_log-IsValid.applied (omega (arith, committed_log_index))

splice_refused_example :
    (text : String) × (splice disk 0 0 (set_y ∷ []) committed_log
      ≡ (err (value text), committed_log))
splice_refused_example =
    splice_refused sound 0 0 (set_y ∷ []) 0 committed_log-IsValid.represents (unfold has_at in refl)
      (omega arith) committed_log-IsValid.applied (unfold conflict in refl)
      (omega (arith, committed_log_index))

splice-IsValid_example :
    (es : List Entry) × IsValid sound (splice disk 0 0 (set_y ∷ []) committed_log).1 es
    × (take committed_log.commit_index es ≡ take committed_log.commit_index entries)
splice-IsValid_example = splice-IsValid sound committed_log-IsValid 0 0 (set_y ∷ []) (omega arith)

commit_lem_example :
    ((commit disk 5 two_entries).0 ≡ ok (max (min 5 2) two_entries.commit_index))
    × IsValid sound (commit disk 5 two_entries).1 entries
    × ((commit disk 5 two_entries).1.commit_index ≡ max (min 5 2) two_entries.commit_index)
    × ((commit disk 5 two_entries).1.kv ≡ two_entries.kv)
    × ((commit disk 5 two_entries).1.apply_index ≡ two_entries.apply_index)
commit_lem_example = commit_lem sound 5 two_entries-IsValid

new-IsValid_example :
    LogOpen.new disk committed_log.kv
    ≡ ok (record committed_log {
      commit_index = committed_log.apply_index;
      commit_term = committed_log.apply_term;
    })
new-IsValid_example = new-IsValid sound committed_log-IsValid (omega arith)

load-save_term_example :
    ((save_term disk 4 (some "b") committed_log).0 ≡ ok tt)
    × (load_term disk (save_term disk 4 (some "b") committed_log).1 ≡ ok (4, some "b"))
load-save_term_example = load-save_term sound 4 (some "b") committed_log

-- A state machine that remembers the last command, and refuses the empty one.
mutate : Bytes → Exec Bytes Bytes
mutate [] s = (err (value "empty command"), s)
mutate (b ∷ c) s = (ok s, b ∷ c)

abbrev machine : StateMachine Bytes
machine = record { read = λ command s. ok s; mutate = mutate }

apply_all-replay_example :
    Drained sound machine entries committed_log [] (apply_all disk machine (committed_log, []))
apply_all-replay_example =
    apply_all-replay sound machine committed_log entries [] committed_log-IsValid (omega arith)

apply_idle_example : apply disk machine (empty_log, []) ≡ (ok none, (empty_log, []))
apply_idle_example = apply_idle sound machine empty_log [] (omega arith)

splice-replicates_example :
    (es : List Entry) × Represents sound (splice disk 1 1 (set_y ∷ []) committed_log).1 es
    × ((splice disk 1 1 (set_y ∷ []) committed_log).0 ≡ ok (length es))
    × (take 1 (drop 1 es) ≡ set_y ∷ [])
splice-replicates_example =
    splice-replicates sound 1 1 (set_y ∷ []) committed_log-IsValid.represents
      (unfold has_at in refl) (omega arith) committed_log-IsValid.applied
      (unfold conflict in omega (arith, committed_log_index)) ((λ same. absurd (omega arith)), tt)
