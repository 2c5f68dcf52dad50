-- ===== src/Raft/Log/Truncate.antt =====
-- `Log::truncate`: what is committed or applied stays, and the entries after the index go.
use mynode.Base.{
  ℕ, zero, suc, ◌+◌, ◌-◌, ◌≤◌, ◌<◌, min, ◌≡◌, refl, sym, ap, ◌∙◌, ◌&&◌, none, List, [], ◌∷◌, length,
  take, arith, ltb, leb, if◌then◌else◌, length-take, String, ltb-ge, lt→ltb, Bool-cases, inl, inr,
  add64, u64_mod,
}
use mynode.Base.Text.{to_string, format}
use mynode.Base.Result.{ok, err, value}
use mynode.Raft.Disk.{Entry, Disk, IsSound}
use mynode.Raft.Log.{Log, delete_range, truncate_to, truncate, term_or_zero}
use mynode.Raft.Log.Represents.{
  Represents, Stored, SameMarks-entries, Yields, get-Stored, entry_at, same_key, other_key,
  SameOthers, entry_at-take, entry_at-ge,
}

module _ {Kv : Type 0} (disk : Disk Kv) where
  -- The store after the loop of `truncate`.
  deleted : ℕ → ℕ → Kv → Kv
  deleted zero i kv = kv
  deleted (suc n) i kv = deleted n (i + 1) (disk.store.delete (to_string i) kv).1

  -- Truncating below what is committed is an error, and the log stays as it is. What is applied is
  -- taken to be committed.
  pub truncate_refused :
      (index : ℕ) (l : Log Kv)
      → l.apply_index ≤ l.commit_index
      → index < l.commit_index
      → (text : String) × (truncate disk index l ≡ (err (value text), l))
  unfolding truncate
  truncate_refused index l applied committed = elim (Bool-cases (ltb index l.apply_index)) [
    | inl b ↦ (
      format (
          "Cannot remove applied log entry, current applied index: "
          ∷ to_string l.apply_index
          ∷ "."
          ∷ []),
      rw b,
    )
    | inr b ↦ (
      format (
          "Cannot remove committed log entry, current committed index: "
          ∷ to_string l.apply_index
          ∷ "."
          ∷ []),
      rw (b, lt→ltb index l.commit_index committed),
    )
  ]

module _ {Kv : Type 0} {disk : Disk Kv} (sound : IsSound disk) where
  delete_range_lem :
      (n i : ℕ) (l : Log Kv)
      → delete_range disk n i l ≡ (ok tt, record l { kv = deleted disk n i l.kv })
  unfolding delete_range deleted
  delete_range_lem zero i l = refl
  delete_range_lem (suc n) i l =
      rw (sound.store.delete_ok (to_string i) l.kv)
        (delete_range_lem n (i + 1) (record l { kv = (disk.store.delete (to_string i) l.kv).1 }))

  contents-deleted :
      (n i : ℕ) (kv : Kv) (j : ℕ)
      → sound.store.contents (deleted disk n i kv) (to_string j)
        ≡ (if leb i j && ltb j (i + n) then none else sound.store.contents kv (to_string j))
  unfolding deleted
  contents-deleted zero i kv j = ground arith
  contents-deleted (suc n) i kv j = ground (
    arith,
    contents-deleted n (i + 1) (disk.store.delete (to_string i) kv).1 j,
    sound.store.contents-delete (to_string i) kv (to_string j),
    same_key i j,
  )

  deleted-others : (n i : ℕ) (kv : Kv) → SameOthers sound kv (deleted disk n i kv)
  unfolding deleted
  deleted-others zero i kv k h = refl
  deleted-others (suc n) i kv k h =
      deleted-others n (i + 1) (disk.store.delete (to_string i) kv).1 k h
      ∙ rw (sound.store.contents-delete, other_key i k h)

  deleted-Stored :
      (index : ℕ) (l : Log Kv) (es : List Entry)
      → Represents sound l es
      → index + 1 < u64_mod
      → Stored sound
          (deleted disk (l.last_index + 1 - add64 index 1) (add64 index 1) l.kv)
          (take index es)
  deleted-Stored index l es r fits i =
      contents-deleted (l.last_index + 1 - add64 index 1) (add64 index 1) l.kv i
      ∙ rw entry_at-take (ground (arith, r.stored i, r.last_index, entry_at-ge es i))

  truncate_to_lem :
      (index : ℕ) (l : Log Kv) (es : List Entry)
      → Represents sound l es
      → index + 1 < u64_mod
      → truncate_to disk index l ≡ (
        ok (min index l.last_index),
        record l {
          kv = deleted disk (l.last_index + 1 - add64 index 1) (add64 index 1) l.kv;
          last_index = min index l.last_index;
          last_term = term_or_zero (entry_at (take index es) (min index l.last_index));
        },
      )
  unfolding truncate_to
  truncate_to_lem index l es r fits =
      rw (delete_range_lem (l.last_index + 1 - add64 index 1) (add64 index 1) l) (
        ground (
          arith,
          get-Stored sound
              (record l {
                kv = deleted disk (l.last_index + 1 - add64 index 1) (add64 index 1) l.kv;
                last_index = min index l.last_index;
              })
              (take index es) (deleted-Stored index l es r fits) (min index l.last_index),
        ))

  -- Truncating at an index that is neither below what is applied nor below what is committed
  -- leaves a log that stands for the entries up to that index, and returns their number. This is
  -- for a store and a serialization that keep their laws, and indexes below 2^64.
  pub truncate-Represents :
      (index : ℕ) {l : Log Kv} {es : List Entry}
      → Represents sound l es
      → index + 1 < u64_mod
      → l.apply_index ≤ index
      → l.commit_index ≤ index
      → Yields sound (truncate disk index l) (min index (length es)) l (take index es)
  unfolding truncate
  truncate-Represents index {l} {es} r fits applied committed =
      let len : length (take index es) ≡ min index l.last_index =
        omega (arith, length-take {0} index es, r.last_index) in
      rw
        (
          ltb-ge index l.apply_index applied,
          ltb-ge index l.commit_index committed,
          truncate_to_lem index l es r fits,
        )
        (record {
          result = ap ok (omega (arith, r.last_index));
          represents = record {
            stored = deleted-Stored index l es r fits;
            last_index = sym len;
            last_term = ap (λ n. term_or_zero (entry_at (take index es) n)) (sym len);
          };
          marks = SameMarks-entries l _ _ _;
          others = deleted-others (l.last_index + 1 - add64 index 1) (add64 index 1) l.kv;
        })
