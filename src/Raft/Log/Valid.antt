-- ===== src/Raft/Log/Valid.antt =====
-- The invariant of the log, and that `Log::commit`, `append` and `splice` keep it.
use mynode.Base.{
  ℕ, zero, suc, ◌+◌, ◌≤◌, ◌<◌, min, max, ◌≡◌, refl, sym, ap, ◌∙◌, false, none, some, List, [], ◌∷◌,
  ◌++◌, length, take, arith, ltb, ltb→lt, ◌==◌, length-take, Bool-cases, inl, inr, u64_mod, ◌⊎◌,
  ==_iff,
}
use mynode.Base.Text.{is_numeric}
use mynode.Base.Result.{ok}
use mynode.Raft.Disk.{Entry, Disk, IsSound}
use mynode.Raft.Log.{Log, append, commit, splice, get, term_or_zero}
use mynode.Raft.Log.Represents.{
  Represents, SameMarks, SameOthers, entry_at, entry_at-le, get-entry_at, entry_at-take,
}
use mynode.Raft.Log.Append.{append-Represents}
use mynode.Raft.Log.Splice.{splice_keeps_committed}

abbrev pub term_at : List Entry → ℕ → ℕ
term_at es i = term_or_zero (entry_at es i)

-- What is applied is committed, what is committed is in the log, and the terms are those of the
-- entries; the store has the applied index, or none where nothing has been applied.
pub record IsValid {Kv : Type 0} {disk : Disk Kv} (sound : IsSound disk) (l : Log Kv)
    (es : List Entry) : Type 0 where
  pub represents : Represents sound l es
  pub applied : l.apply_index ≤ l.commit_index
  pub committed : l.commit_index ≤ length es
  pub commit_term : l.commit_term ≡ term_at es l.commit_index
  pub apply_term : l.apply_term ≡ term_at es l.apply_index
  pub persisted :
      ((l.apply_index ≡ 0) × (sound.store.contents l.kv "apply_index" ≡ none))
      ⊎ (sound.store.contents l.kv "apply_index" ≡ some (sound.number.bytes l.apply_index))

-- Lists with the same first entries have the same terms there.
term_at-take :
    (es es' : List Entry) (c i : ℕ) → take c es' ≡ take c es → i ≤ c → term_at es' i ≡ term_at es i
term_at-take es es' c i e h =
    ap term_or_zero {x = entry_at es' i} {y = entry_at es i}
      (ground (arith, entry_at-take es c i, entry_at-take es' c i, ap (λ xs. entry_at xs i) e))

apply_index_key : is_numeric "apply_index" ≡ false
unfolding is_numeric
apply_index_key = refl

pub take-append :
    (es : List Entry) (n : Entry) (c : ℕ) → c ≤ length es → take c (es ++ n ∷ []) ≡ take c es
take-append es n zero h = refl
take-append [] n (suc c) h = absurd (omega arith)
take-append (e ∷ es) n (suc c) h = ap (◌∷◌ e) (take-append es n c (omega arith))

module _ {Kv : Type 0} {disk : Disk Kv} (sound : IsSound disk) where
  commit_same :
      (requested : ℕ) (l : Log Kv)
      → max (min requested l.last_index) l.commit_index ≡ l.commit_index
      → commit disk requested l ≡ (ok (max (min requested l.last_index) l.commit_index), l)
  unfolding commit
  commit_same requested l e = rw ((==_iff _ _).1 e)

  commit_moved :
      (requested index : ℕ) (l : Log Kv) (e : Entry)
      → max (min requested l.last_index) l.commit_index ≡ index
      → l.commit_index < index
      → get disk index l ≡ ok (some e)
      → commit disk requested l
        ≡ (ok index, record l { commit_index = index; commit_term = e.term })
  unfolding commit
  commit_moved requested index l e at more found =
      let new : (index == l.commit_index) ≡ false = ground arith in rw at (rw new (rw found))

  -- Committing on a valid log moves the commit index to the requested one as far as the log
  -- reaches, never down, returns it, keeps the log valid, and neither writes to the store nor
  -- applies anything. This is for a store and a serialization that keep their laws.
  pub commit_lem :
      (requested : ℕ) {l : Log Kv} {es : List Entry}
      → IsValid sound l es
      → ((commit disk requested l).0 ≡ ok (max (min requested (length es)) l.commit_index))
        × IsValid sound (commit disk requested l).1 es
        × ((commit disk requested l).1.commit_index
            ≡ max (min requested (length es)) l.commit_index)
        × ((commit disk requested l).1.kv ≡ l.kv)
        × ((commit disk requested l).1.apply_index ≡ l.apply_index)
  commit_lem requested {l} {es} v =
      let index = max (min requested l.last_index) l.commit_index in
      let reach : index ≡ max (min requested (length es)) l.commit_index =
        omega (arith, v.represents.last_index) in
      elim (Bool-cases (ltb l.commit_index index)) [
        | inr same ↦
            rw (commit_same requested l (ground arith)) (ap ok reach, v, ground arith, refl, refl)
        | inl more ↦
            let up = ltb→lt l.commit_index index more in
            let (e, hit) =
              entry_at-le es index (omega arith)
                (omega (arith, v.represents.last_index, v.committed)) in
            rw
              (commit_moved requested index l e refl up
                (get-entry_at sound v.represents index ∙ ap ok hit))
              (
                ap ok reach,
                record {
                  represents = record {
                    stored = v.represents.stored;
                    last_index = v.represents.last_index;
                    last_term = v.represents.last_term;
                  };
                  applied = omega (arith, v.applied);
                  committed = omega (arith, v.represents.last_index, v.committed);
                  commit_term = sym (ap term_or_zero hit);
                  apply_term = v.apply_term;
                  persisted = v.persisted;
                },
                reach,
                refl,
                refl,
              )
      ]

  module _ {l : Log Kv} {es : List Entry} (v : IsValid sound l es) where
    -- A log with the marks of `l` that still has its committed entries is valid.
    pub IsValid-keeps :
        (m : Log Kv) (es' : List Entry)
        → Represents sound m es'
        → take l.commit_index es' ≡ take l.commit_index es
        → SameMarks l m
        → SameOthers sound l.kv m.kv
        → IsValid sound m es'
    IsValid-keeps m es' r kept marks others = record {
      represents = r;
      applied = rw (marks.apply_index, marks.commit_index) v.applied;
      committed = omega (
        arith,
        v.committed,
        marks.commit_index,
        ap length kept,
        length-take {0} l.commit_index es,
        length-take {0} l.commit_index es',
      );
      commit_term =
          marks.commit_term
          ∙ v.commit_term
          ∙ sym (term_at-take es es' l.commit_index l.commit_index kept (omega arith))
          ∙ ap (term_at es') (sym marks.commit_index);
      apply_term =
          marks.apply_term
          ∙ v.apply_term
          ∙ sym (term_at-take es es' l.commit_index l.apply_index kept v.applied)
          ∙ ap (term_at es') (sym marks.apply_index);
      persisted = rw (marks.apply_index, others "apply_index" apply_index_key) v.persisted;
    }

    -- Appending to a valid log gives a valid log of the entries with the new one at the end. This
    -- is for a store and a serialization that keep their laws, and indexes below 2^64.
    pub append-IsValid :
        (e : Entry) → length es + 1 < u64_mod → IsValid sound (append disk e l).1 (es ++ e ∷ [])
    append-IsValid e fits =
        let y = append-Represents sound e v.represents fits in
        IsValid-keeps (append disk e l).1 (es ++ e ∷ []) y.represents
          (take-append es e l.commit_index v.committed) y.marks y.others

    -- Whatever is spliced into a valid log, and whether it succeeds or fails, the log is valid
    -- again and the committed entries are those of before. This is for a store and a serialization
    -- that keep their laws, and indexes below 2^64.
    pub splice-IsValid :
        (base base_term : ℕ) (new : List Entry)
        → length es + length new + 2 < u64_mod
        → (es' : List Entry) × IsValid sound (splice disk base base_term new l).1 es'
          × (take l.commit_index es' ≡ take l.commit_index es)
    splice-IsValid base base_term new fits =
        let (es', r, kept, marks, others, _) =
          splice_keeps_committed sound base base_term new v.represents fits v.applied v.committed in
        (es', IsValid-keeps (splice disk base base_term new l).1 es' r kept marks others, kept)
