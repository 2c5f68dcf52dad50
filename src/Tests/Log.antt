-- ===== src/Tests/Log.antt =====
-- A concrete log of two entries, the first of which is committed, and the theorems of the log at it.
use mathlib.Core.Option
use mynode.Base.{ℕ, zero, suc, ◌≡◌, refl, ap, none, some, [], ◌∷◌, inl, arith}
use mynode.Store.KvMemory.{KvMemory}
use mynode.Raft.Disk.{Entry}
use mynode.Raft.Log.{Log, append, commit}
use mynode.Raft.Log.Represents.{Represents, entry_at}
use mynode.Raft.Log.Valid.{IsValid, append-IsValid, commit_lem}
use mynode.Tests.Disk.{disk, sound}

abbrev pub set_x : Entry
set_x = record { term = 1; command = some (7 ∷ []) }

abbrev pub noop : Entry
noop = record { term = 2; command = none }

abbrev pub empty_log : Log KvMemory
empty_log = record {
  kv = record { pairs = [] };
  last_index = 0;
  last_term = 0;
  commit_index = 0;
  commit_term = 0;
  apply_index = 0;
  apply_term = 0;
}

no_entry : (i : ℕ) → none ≡ entry_at [] i
no_entry zero = refl
no_entry (suc i) = refl

empty_log-Represents : Represents sound empty_log []
unfolding sound
empty_log-Represents = record {
  stored = λ i. ap (Option.map sound.entry.bytes) (no_entry i);
  last_index = refl;
  last_term = refl;
}

pub empty_log-IsValid : IsValid sound empty_log []
unfolding sound
empty_log-IsValid = record {
  represents = empty_log-Represents;
  applied = omega arith;
  committed = omega arith;
  commit_term = refl;
  apply_term = refl;
  persisted = inl (refl, refl);
}

-- One entry, and two.
abbrev pub short_log : Log KvMemory
short_log = (append disk set_x empty_log).1

pub short_log-IsValid : IsValid sound short_log (set_x ∷ [])
short_log-IsValid = append-IsValid sound empty_log-IsValid set_x (omega arith)

abbrev pub two_entries : Log KvMemory
two_entries = (append disk noop short_log).1

pub two_entries-IsValid : IsValid sound two_entries (set_x ∷ noop ∷ [])
two_entries-IsValid = append-IsValid sound short_log-IsValid noop (omega arith)

-- The first of the two is committed.
abbrev pub committed_log : Log KvMemory
committed_log = (commit disk 1 two_entries).1

pub committed_log-IsValid : IsValid sound committed_log (set_x ∷ noop ∷ [])
committed_log-IsValid = (commit_lem sound 1 two_entries-IsValid).1

pub committed_log_index : committed_log.commit_index ≡ 1
unfolding append disk
committed_log_index = (commit_lem sound 1 two_entries-IsValid).2

pub committed_log_apply_index : committed_log.apply_index ≡ 0
unfolding append disk
committed_log_apply_index = (commit_lem sound 1 two_entries-IsValid).4
