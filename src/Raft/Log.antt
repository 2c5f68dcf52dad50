-- ===== src/Raft/Log.antt =====
-- raft/log.rs: the replicated log over a store. `u64` additions wrap, as in a release build.
pub mod Represents
pub mod Open
pub mod Term
pub mod Valid
pub mod Apply
pub mod Drain
pub mod Append
pub mod Truncate
pub mod Merge
pub mod Rounds
pub mod Splice
pub mod Replicate
pub mod Others
pub mod Grows
use mynode.Base.{
  ℕ, zero, suc, ◌+◌, ◌-◌, ◌%◌, min, max, String, Bool, true, false, ◌&&◌, Option, none, some, List,
  [], ◌∷◌, ltb, leb, ◌==◌, if◌then◌else◌, add64, u64_mod,
}
use mynode.Base.Text.{to_string, format}
use mynode.Base.Result.{
  Result, ok, err, raft_base_not_found, internal, value, Exec, and_then, continue, ◌>>=◌, ◌>>◌,
  pure, raise, reads, gets, modify, lift,
}
use mynode.Store.{Bytes}
use mynode.Raft.Disk.{Entry, Codec, Disk}

pub record Log (Kv : Type 0) : Type 0 where
  pub kv : Kv
  pub last_index : ℕ
  pub last_term : ℕ
  pub commit_index : ℕ
  pub commit_term : ℕ
  pub apply_index : ℕ
  pub apply_term : ℕ

-- `target - 1` on `u64`.
abbrev pub pred64 : ℕ → ℕ
pred64 n = (n + (u64_mod - 1)) % u64_mod

abbrev pub term_or_zero : Option Entry → ℕ
term_or_zero none = 0
term_or_zero (some e) = e.term

abbrev pub decode : {V : Type 0} → Codec V → Option Bytes → Result (Option V)
decode c none = ok none
decode c (some b) = and_then (c.deserialize b) λ v. ok (some v)

-- `if let Some(entry) = self.get(i)? { entries.push(entry) }`, before the entries that follow.
abbrev pub push_front : Option Entry → List Entry → List Entry
push_front none es = es
push_front (some e) es = e ∷ es

-- A method of the store, called on `self.kv`.
abbrev pub on_kv : {Kv A : Type 0} → Exec Kv A → Exec (Log Kv) A
on_kv m l = let r = m l.kv in (r.0, record l { kv = r.1 })

module _ {Kv : Type 0} (disk : Disk Kv) where
  unfoldable pub get : ℕ → Log Kv → Result (Option Entry)
  get index l = and_then (disk.store.get (to_string index) l.kv) (decode disk.entry)

  -- The last index and term are written before the store is, and stay written if it fails.
  unfoldable pub append : Entry → Exec (Log Kv) ℕ
  append entry l =
      let index = add64 l.last_index 1 in
      continue (disk.entry.serialize entry)
        (λ bytes. do on_kv (disk.store.set (to_string index) bytes); pure index)
        (record l { last_index = index; last_term = entry.term })

  commit_found : ℕ → Option Entry → Exec (Log Kv) ℕ
  commit_found index none l = (
    err (internal (format ("Entry at commit index " ∷ to_string index ∷ " does not exist" ∷ []))),
    l,
  )
  commit_found index (some entry) l =
      (ok index, record l { commit_index = index; commit_term = entry.term })

  unfoldable pub commit : ℕ → Exec (Log Kv) ℕ
  unfolding commit_found
  commit requested l =
      let index = max (min requested l.last_index) l.commit_index in
      if index == l.commit_index
      then (ok index, l)
      else continue (get index l) (commit_found index) l

  -- `for i in start..=last`, with the number of rounds.
  pub delete_range : ℕ → ℕ → Exec (Log Kv) (Unit {0})
  delete_range zero i = pure tt
  delete_range (suc n) i = on_kv (disk.store.delete (to_string i)) >> delete_range n (i + 1)

  pub truncate_to : ℕ → Exec (Log Kv) ℕ
  truncate_to index l =
      let start = add64 index 1 in
      (do
        delete_range (l.last_index + 1 - start) start
        modify (λ l. record l { last_index = min index l.last_index })
        last ← reads (λ l. get l.last_index l)
        modify (λ l. record l { last_term = term_or_zero last })
        gets (λ l. l.last_index))
        l

  unfoldable pub truncate : ℕ → Exec (Log Kv) ℕ
  truncate index l =
      if ltb index l.apply_index
      then (
        err (
            value (
              format (
                "Cannot remove applied log entry, current applied index: "
                ∷ to_string l.apply_index
                ∷ "."
                ∷ []))),
        l,
      )
      else if ltb index l.commit_index
      then (
        err (
            value (
              format (
                "Cannot remove committed log entry, current committed index: "
                ∷ to_string l.apply_index
                ∷ "."
                ∷ []))),
        l,
      )
      else truncate_to index l

  unfoldable pub has : ℕ → ℕ → Log Kv → Result Bool
  has index term l =
      if index == 0 && term == 0
      then ok true
      else and_then (get index l)
          λ found. elim found [ some entry ↦ ok (entry.term == term) | none ↦ ok false ]

  -- One round of the loop in `splice`.
  pub place : ℕ → Entry → Option Entry → Exec (Log Kv) (Unit {0})
  place target entry none = append entry >>= λ _. pure tt
  place target entry (some current) =
      if current.term == entry.term
      then pure tt
      else do truncate (pred64 target) >>= λ _. append entry >>= λ _. pure tt

  pub splice_entries : ℕ → ℕ → List Entry → Exec (Log Kv) (Unit {0})
  splice_entries base i [] = pure tt
  splice_entries base i (entry ∷ rest) =
      let target = add64 (add64 base i) 1 in
      (reads (get target) >>= place target entry) >> splice_entries base (i + 1) rest

  unfoldable pub splice : ℕ → ℕ → List Entry → Exec (Log Kv) ℕ
  splice base base_term entries = reads (has base base_term) >>= λ found.
      if found
      then (splice_entries base 0 entries >> gets (λ l. l.last_index))
      else raise (raft_base_not_found base base_term)

  -- The entries at `i`, `i + 1`, …, with the number of rounds.
  pub range_from : ℕ → ℕ → Log Kv → Result (List Entry)
  range_from zero i l = ok []
  range_from (suc n) i l =
      and_then (get i l) λ e. and_then (range_from n (i + 1) l) λ es. ok (push_front e es)

  unfoldable pub range : ℕ → Log Kv → Result (List Entry)
  range start l = range_from (l.last_index + 1 - start) start l

  abbrev pub get_applied : Log Kv → ℕ × ℕ
  get_applied l = (l.apply_index, l.apply_term)

  abbrev pub get_committed : Log Kv → ℕ × ℕ
  get_committed l = (l.commit_index, l.commit_term)

  abbrev pub get_last : Log Kv → ℕ × ℕ
  get_last l = (l.last_index, l.last_term)
