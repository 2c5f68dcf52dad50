-- ===== src/Raft/Log/Grows.antt =====
-- How a log may change over a step of its node: a valid log is valid again, and what was committed
-- is kept and stays committed.
use mynode.Base.{
  ℕ, zero, suc, ◌+◌, ◌≤◌, ◌<◌, ◌≡◌, refl, sym, ap, ◌∙◌, Option, List, [], ◌∷◌, ◌++◌, length, take,
  arith, length-append, Bool-cases, inl, inr, u64_mod, ltb, ltb→lt, String, str_eq, eq_iff, false,
}
use mynode.Base.Text.{to_string, to_string-ne, is_numeric}
use mynode.Base.Result.{Exec-cases}
use mynode.Raft.Disk.{Entry, Disk, IsSound}
use mynode.Raft.Log.{Log, append, commit, splice}
use mynode.Raft.Log.Represents.{SameMarks, SameOthers, Represents}
use mynode.Raft.Log.Term.{save_term, save_term_lem, vote_kv, term_kv, contents-save_term}
use mynode.Raft.Log.Append.{append-Represents}
use mynode.Raft.Log.Splice.{splice_keeps_committed}
use mynode.Raft.Log.Valid.{IsValid, IsValid-keeps, commit_lem, take-append}
use mynode.Raft.Log.Apply.{
  StateMachine, apply, run, apply_idle, apply_ok, apply_err, applied, applied-IsValid, next_entry,
}
use mynode.Raft.Log.Drain.{apply_all, apply_all-replay}

take-take : (es : List Entry) (c d : ℕ) → c ≤ d → take c (take d es) ≡ take c es
take-take es zero d h = refl
take-take es (suc c) zero h = absurd (omega arith)
take-take [] (suc c) (suc d) h = refl
take-take (e ∷ es) (suc c) (suc d) h = ap (◌∷◌ e) (take-take es c d (omega arith))

-- Lists with the same first entries have fewer of them the same, too.
take_fewer :
    (es es' : List Entry) (c d : ℕ) → c ≤ d → take d es' ≡ take d es → take c es' ≡ take c es
take_fewer es es' c d h e = sym (take-take es' c d h) ∙ ap (take c) e ∙ take-take es c d h

module _ {Kv : Type 0} {disk : Disk Kv} (sound : IsSound disk) where
  -- The log `m` comes from `l`, which held the entries `es`, by at most `k` entries more.
  pub record Grown (l : Log Kv) (es : List Entry) (k : ℕ) (m : Log Kv) : Type 0 where
    pub entries : List Entry
    pub valid : IsValid sound m entries
    pub kept : take l.commit_index entries ≡ take l.commit_index es
    pub commit_index : l.commit_index ≤ m.commit_index
    pub longer : length entries ≤ length es + k

  -- So it is for whatever entries the log held, as long as the indexes stay below 2^64.
  abbrev pub Grows : ℕ → Log Kv → Log Kv → Type 0
  Grows k l m =
      (es : List Entry) → IsValid sound l es → length es + k + 2 < u64_mod → Grown l es k m

  pub Grows-more : (j k : ℕ) (l m : Log Kv) → j ≤ k → Grows j l m → Grows k l m
  Grows-more j k l m h g es v fits =
      let r = g es v (omega (arith, h, fits)) in
      record {
        entries = r.entries;
        valid = r.valid;
        kept = r.kept;
        commit_index = r.commit_index;
        longer = omega (arith, r.longer, h);
      }

  pub Grows-same : (l m : Log Kv) → m ≡ l → Grows 0 l m
  Grows-same l m e es v fits = rw e (record {
    entries = es;
    valid = v;
    kept = refl;
    commit_index = omega arith;
    longer = omega arith;
  })

  pub Grows-then : (j k : ℕ) (l m n : Log Kv) → Grows j l m → Grows k m n → Grows (j + k) l n
  Grows-then j k l m n f g es v fits =
      let r = f es v (omega (arith, fits)) in
      let s = g r.entries r.valid (omega (arith, fits, r.longer)) in
      record {
        entries = s.entries;
        valid = s.valid;
        kept =
            take_fewer r.entries s.entries l.commit_index m.commit_index r.commit_index s.kept
            ∙ r.kept;
        commit_index = omega (arith, r.commit_index, s.commit_index);
        longer = omega (arith, r.longer, s.longer);
      }

  -- A log with the marks of `l` that still has its committed entries.
  grown :
      {l : Log Kv} {es : List Entry} (k : ℕ) (m : Log Kv) (es' : List Entry)
      → IsValid sound l es
      → Represents sound m es'
      → take l.commit_index es' ≡ take l.commit_index es
      → SameMarks l m
      → SameOthers sound l.kv m.kv
      → length es' ≤ length es + k
      → Grown l es k m
  grown {l} {es} k m es' v r kept marks others longer = record {
    entries = es';
    valid = IsValid-keeps sound v m es' r kept marks others;
    kept = kept;
    commit_index = omega (arith, marks.commit_index);
    longer = longer;
  }

  pub append-Grows : (e : Entry) (l : Log Kv) → Grows 1 l (append disk e l).1
  append-Grows e l es v fits =
      let y = append-Represents sound e v.represents (omega (arith, fits)) in
      grown 1 (append disk e l).1 (es ++ e ∷ []) v y.represents
        (take-append es e l.commit_index v.committed) y.marks y.others
        (omega (arith, length-append {0} es (e ∷ [])))

  pub splice-Grows :
      (base base_term : ℕ) (new : List Entry) (l : Log Kv)
      → Grows (length new) l (splice disk base base_term new l).1
  splice-Grows base base_term new l es v fits =
      let (es', r, kept, marks, others, longer) =
        splice_keeps_committed sound base base_term new v.represents (omega (arith, fits)) v.applied
          v.committed in
      grown (length new) (splice disk base base_term new l).1 es' v r kept marks others longer

  pub commit-Grows : (requested : ℕ) (l : Log Kv) → Grows 0 l (commit disk requested l).1
  commit-Grows requested l es v fits =
      let (_, valid, index, _, _) = commit_lem sound requested v in
      record {
        entries = es;
        valid = valid;
        kept = refl;
        commit_index = omega (arith, index);
        longer = omega arith;
      }

  -- The same entries, marks and applied index, in another store.
  kv-Grows :
      (l : Log Kv) (kv : Kv)
      → ((i : ℕ) → sound.store.contents kv (to_string i) ≡ sound.store.contents l.kv (to_string i))
      → sound.store.contents kv "apply_index" ≡ sound.store.contents l.kv "apply_index"
      → Grows 0 l (record l { kv = kv })
  kv-Grows l kv stored index es v fits = record {
    entries = es;
    valid = record {
      represents = record {
        stored = λ i. stored i ∙ v.represents.stored i;
        last_index = v.represents.last_index;
        last_term = v.represents.last_term;
      };
      applied = v.applied;
      committed = v.committed;
      commit_term = v.commit_term;
      apply_term = v.apply_term;
      persisted = rw index v.persisted;
    };
    kept = refl;
    commit_index = omega arith;
    longer = omega arith;
  }

  numeric_key : (k : String) → is_numeric k ≡ false → (i : ℕ) → str_eq k (to_string i) ≡ false
  numeric_key k h i = elim (Bool-cases (str_eq k (to_string i))) [
    | inl e ↦ absurd (to_string-ne i k h (sym ((eq_iff _ _).0 e)))
    | inr n ↦ n
  ]

  pub save_term-Grows :
      (term : ℕ) (voted_for : Option String) (l : Log Kv)
      → Grows 0 l (save_term disk term voted_for l).1
  unfolding is_numeric
  save_term-Grows term o l = rw (save_term_lem sound term o l) (
      kv-Grows l (vote_kv sound o (term_kv sound term l.kv))
        (λ i.
          rw
            (
              contents-save_term sound term o l.kv (to_string i),
              numeric_key "voted_for" refl i,
              numeric_key "term" refl i,
            )
            refl)
        (contents-save_term sound term o l.kv "apply_index"))

  module _ {Sm : Type 0} (machine : StateMachine Sm) where
    pub apply_all-Grows : (l : Log Kv) (sm : Sm) → Grows 0 l (apply_all disk machine (l, sm)).1.0
    apply_all-Grows l sm es v fits =
        let d = apply_all-replay sound machine l es sm v (omega (arith, fits)) in
        record {
          entries = es;
          valid = d.valid;
          kept = refl;
          commit_index = omega (arith, d.commit_index);
          longer = omega arith;
        }

    -- One round of applying.
    pub apply-Grows : (l : Log Kv) (sm : Sm) → Grows 0 l (apply disk machine (l, sm)).1.0
    apply-Grows l sm es v fits = elim (Bool-cases (ltb l.apply_index l.commit_index)) [
      | inr idle ↦ rw (apply_idle sound machine l sm (ground arith)) (Grows-same l l refl es v fits)
      | inl busy ↦
          let more = ltb→lt l.apply_index l.commit_index busy in
          let room : length es + 1 < u64_mod = omega (arith, fits) in
          let (e, hit) = next_entry sound machine v sm room more in
          elim (Exec-cases (run machine e.command sm)) [
            | inl (output, sm', ran) ↦
                rw (apply_ok sound machine v sm room more e output sm' hit ran) (record {
                  entries = es;
                  valid = applied-IsValid sound machine e v more hit;
                  kept = refl;
                  commit_index = unfold applied in omega arith;
                  longer = omega arith;
                })
            | inr (x, sm', ran) ↦
                rw (apply_err sound machine v sm room more e x sm' hit ran)
                  (Grows-same l l refl es v fits)
          ]
    ]
