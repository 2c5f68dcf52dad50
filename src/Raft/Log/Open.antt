-- ===== src/Raft/Log/Open.antt =====
-- `Log::new`: what a log is read back as from its store.
use mathlib.Core.Option
use mynode.Base.{
  ℕ, zero, suc, ◌+◌, ◌-◌, ◌≤◌, ◌<◌, ◌≡◌, refl, sym, ap, ◌∙◌, Option, none, some, List, [], ◌∷◌,
  length, arith, ◌==◌, if◌then◌else◌, Option-cases, inl, inr, u64_mod,
}
use mynode.Base.Text.{to_string, format}
use mynode.Base.Result.{Result, ok, err, internal, and_then}
use mynode.Store.{Bytes}
use mynode.Raft.Disk.{Entry, Disk, IsSound}
use mynode.Raft.Log.{Log, term_or_zero}
use mynode.Raft.Log.Represents.{
  Stored, entry_at, entry_at-le, last_term_of, get_elem?-none, get_elem?-some,
}
use mynode.Raft.Log.Valid.{IsValid, term_at}

module _ {Kv : Type 0} (disk : Disk Kv) where
  -- `(index, term)` of the last entry, by trying one index after the other from `i`.
  pub scan_last : ℕ → ℕ → ℕ × ℕ → Kv → Result (ℕ × ℕ)
  scan_last zero i last kv = ok last
  scan_last (suc f) i last kv = and_then (disk.store.get (to_string i) kv) λ raw. elim raw [
    | none ↦ ok last
    | some b ↦ and_then (disk.entry.deserialize b) λ e. scan_last f (i + 1) (i, e.term) kv
  ]

  -- The loop runs over `1..u64::MAX`.
  pub get_last_index_and_term : Kv → Result (ℕ × ℕ)
  get_last_index_and_term kv = scan_last (u64_mod - 2) 1 (0, 0) kv

  -- The commit index and term, from the raw entry at the applied index.
  new_committed : ℕ → Option Bytes → Result (ℕ × ℕ)
  new_committed apply_index none =
      if apply_index == 0
      then ok (0, 0)
      else err (internal (format ("Applied Entry " ∷ to_string apply_index ∷ " not found" ∷ [])))
  new_committed apply_index (some b) =
      and_then (disk.entry.deserialize b) λ e. ok (apply_index, e.term)

  new_apply_index : Option Bytes → Result ℕ
  new_apply_index none = ok 0
  new_apply_index (some b) = disk.number.deserialize b

  pub new : Kv → Result (Log Kv)
  unfolding new_committed new_apply_index
  new kv = and_then (disk.store.get "apply_index" kv) λ raw.
      and_then (new_apply_index raw) λ apply_index.
        and_then (disk.store.get (to_string apply_index) kv) λ raw_entry.
          and_then (new_committed apply_index raw_entry) λ committed.
            and_then (get_last_index_and_term kv) λ last. ok (record {
              kv = kv;
              last_index = last.0;
              last_term = last.1;
              commit_index = committed.0;
              commit_term = committed.1;
              apply_index = apply_index;
              apply_term = committed.1;
            })

module _ {Kv : Type 0} {disk : Disk Kv} (sound : IsSound disk) where
  -- With enough rounds the search finds the last entry.
  scan_last_lem :
      (f i t : ℕ) (kv : Kv) (es : List Entry)
      → Stored sound kv es
      → i ≤ length es
      → length es < i + f
      → t ≡ term_or_zero (entry_at es i)
      → scan_last disk f (i + 1) (i, t) kv ≡ ok (length es, last_term_of es)
  unfolding scan_last
  scan_last_lem zero i t kv es h inside fuel at = absurd (omega arith)
  scan_last_lem (suc f) i t kv es h inside fuel at =
      let next : suc i ≡ i + 1 = omega arith in
      elim (Option-cases (entry_at es (i + 1))) [
        | inl miss ↦
            let end : i ≡ length es =
              omega (arith, get_elem?-none es i (ap (entry_at es) next ∙ miss)) in
            rw (sound.store.get_lem (to_string (i + 1)) kv, h (i + 1), miss)
              (ap ok (ground (arith, ap (λ n. term_or_zero (entry_at es n)) end)))
        | inr (e, hit) ↦
            let room = get_elem?-some es i e (ap (entry_at es) next ∙ hit) in
            rw (sound.store.get_lem (to_string (i + 1)) kv, h (i + 1), hit)
              (rw (sound.entry.deserialize_lem e) (
                scan_last_lem f (i + 1) e.term kv es h (omega arith) (omega arith)
                  (sym (ap term_or_zero hit))))
      ]

  new_committed_lem :
      (a : ℕ) (es : List Entry)
      → a ≤ length es
      → new_committed disk a (Option.map sound.entry.bytes (entry_at es a)) ≡ ok (a, term_at es a)
  unfolding new_committed
  new_committed_lem zero es h = refl
  new_committed_lem (suc a) es h =
      let (e, hit) = entry_at-le es (suc a) (omega arith) h in
      rw hit (rw (sound.entry.deserialize_lem e))

  module _ {l : Log Kv} {es : List Entry} (v : IsValid sound l es) where
    new_apply_index_lem :
        new_apply_index disk (sound.store.contents l.kv "apply_index") ≡ ok l.apply_index
    unfolding new_apply_index
    new_apply_index_lem = elim v.persisted [
      | inl (zero_index, absent) ↦ rw absent (ap ok (sym zero_index))
      | inr present ↦ rw present (sound.number.deserialize_lem l.apply_index)
    ]

    last_lem :
        length es + 2 < u64_mod → get_last_index_and_term disk l.kv ≡ ok (l.last_index, l.last_term)
    unfolding get_last_index_and_term
    last_lem fits =
        scan_last_lem (u64_mod - 2) 0 0 l.kv es v.represents.stored (omega arith) (omega arith) refl
        ∙ ground (arith, v.represents.last_index, v.represents.last_term)

    -- A valid log that is opened again from its store is the same log, but for the commit index
    -- and term, which fall back to what is applied. This is for a store and a serialization that
    -- keep their laws, and indexes below 2^64.
    pub new-IsValid :
        length es + 2 < u64_mod
        → new disk l.kv ≡ ok (record l { commit_index = l.apply_index; commit_term = l.apply_term })
    unfolding new
    new-IsValid fits =
        rw (sound.store.get_lem "apply_index" l.kv, new_apply_index_lem)
          (rw
            (sound.store.get_lem (to_string l.apply_index) l.kv, v.represents.stored l.apply_index)
            (rw (new_committed_lem l.apply_index es (omega (arith, v.applied, v.committed))) (
              rw (last_lem fits) (
                ap
                  (λ t.
                    ok (record l { commit_index = l.apply_index; commit_term = t; apply_term = t }))
                  (sym v.apply_term)))))
