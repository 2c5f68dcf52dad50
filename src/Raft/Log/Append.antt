-- ===== src/Raft/Log/Append.antt =====
-- `Log::append`, `Log::has` and `Log::range` against the list of entries that a log stands for.
use mynode.Base.{
  Option-cases, inl, inr, ◌||◌, ℕ, zero, suc, ◌+◌, ◌-◌, ◌≤◌, ◌<◌, ◌≡◌, refl, sym, ap, ◌∙◌, Bool,
  true, false, ◌&&◌, none, some, List, [], ◌∷◌, ◌++◌, length, drop, arith, ◌==◌, length-append,
  add64, u64_mod, get_elem?,
}
use mynode.Base.Text.{to_string}
use mynode.Base.Result.{ok}
use mynode.Raft.Disk.{Entry, Disk, IsSound}
use mynode.Raft.Log.{Log, append, has, range_from, range, term_or_zero, push_front}
use mynode.Raft.Log.Represents.{
  Represents, SameMarks-entries, Yields, entry_at, same_key, other_key, get-entry_at,
  entry_at-append, get_elem?-none, get_elem?-ge,
}

-- What `has` answers for a list of entries: the base of every log is at index 0 and term 0.
unfoldable pub has_at : List Entry → ℕ → ℕ → Bool
has_at es i t = (i == 0 && t == 0) || elim (entry_at es i) [ none ↦ false | some e ↦ e.term == t ]

pub has_at-le : (es : List Entry) (i t : ℕ) → has_at es i t ≡ true → i ≤ length es
unfolding has_at
has_at-le es zero t h = omega arith
has_at-le es (suc i) t h = ground (arith, get_elem?-ge es i)

drop-ge : (es : List Entry) (n : ℕ) → length es ≤ n → drop n es ≡ []
drop-ge [] zero h = refl
drop-ge [] (suc n) h = refl
drop-ge (e ∷ es) zero h = absurd (omega arith)
drop-ge (e ∷ es) (suc n) h = drop-ge es n (omega arith)

drop-get_elem? :
    (es : List Entry) (i : ℕ) (e : Entry)
    → get_elem? es i ≡ some e
    → drop i es ≡ e ∷ drop (suc i) es
drop-get_elem? [] i e h = cc
drop-get_elem? (x ∷ es) zero e h = ground arith
drop-get_elem? (x ∷ es) (suc i) e h = drop-get_elem? es i e h

-- Skipping to an index puts the entry there, if any, in front of the entries after it.
push_front-drop :
    (es : List Entry) (i : ℕ) → push_front (entry_at es i) (drop (i + 1 - 1) es) ≡ drop (i - 1) es
push_front-drop es zero = refl
push_front-drop es (suc i) = elim (Option-cases (get_elem? es i)) [
  | inl miss ↦
      let past : length es ≤ i = get_elem?-none es i miss in
      rw miss
        (drop-ge es (suc i + 1 - 1) (omega arith) ∙ sym (drop-ge es (suc i - 1) (omega arith)))
  | inr (e, hit) ↦
      let at : suc i + 1 - 1 ≡ suc i = omega arith in
      let before : suc i - 1 ≡ i = omega arith in
      rw (hit, at, before) (sym (drop-get_elem? es i e hit))
]

entry_at-length-append :
    (e : Entry) (es : List Entry) → entry_at (es ++ e ∷ []) (length (es ++ e ∷ [])) ≡ some e
entry_at-length-append e es = rw entry_at-append (ground (arith, length-append es (e ∷ [])))

module _ {Kv : Type 0} {disk : Disk Kv} (sound : IsSound disk) where
  -- What `append` does to a store that does not fail.
  pub append_lem :
      (e : Entry) (l : Log Kv)
      → append disk e l ≡ (
        ok (add64 l.last_index 1),
        record l {
          kv = (disk.store.set (to_string (add64 l.last_index 1)) (sound.entry.bytes e) l.kv).1;
          last_index = add64 l.last_index 1;
          last_term = e.term;
        },
      )
  unfolding append
  append_lem e l = rw (sound.entry.serialize_lem e) (rw (sound.store.set_ok _ _ _))

  -- Appending to a log that stands for a list of entries returns the next index, leaves a log that
  -- stands for the list with the entry at its end, and touches no other key. This is for a store
  -- and a serialization that keep their laws, and indexes below 2^64.
  pub append-Represents :
      (e : Entry) {l : Log Kv} {es : List Entry}
      → Represents sound l es
      → length es + 1 < u64_mod
      → Yields sound (append disk e l) (length es + 1) l (es ++ e ∷ [])
  append-Represents e {l} {es} r fits =
      let next : add64 l.last_index 1 ≡ length es + 1 = omega (arith, r.last_index) in
      rw (append_lem e l, next)
        (record {
          result = refl;
          represents = record {
            stored = λ i.
                rw (sound.store.contents-set, same_key, entry_at-append)
                  (ground (arith, r.stored i));
            last_index = omega (arith, length-append {0} es (e ∷ []));
            last_term = sym (ap term_or_zero (entry_at-length-append e es));
          };
          marks = SameMarks-entries l _ _ _;
          others = λ k h. rw (sound.store.contents-set, other_key (length es + 1) k h);
        })

  -- The test for an entry of a term at an index looks the index up in the list that the log stands
  -- for; index 0 with term 0 is always there. This is for a store and a serialization that keep
  -- their laws.
  pub has-has_at :
      {l : Log Kv} {es : List Entry}
      → Represents sound l es
      → (i t : ℕ) → has disk i t l ≡ ok (has_at es i t)
  unfolding has has_at
  has-has_at {l} {es} r i t = rw (get-entry_at sound r i) (ground arith)

  range_from-drop :
      {l : Log Kv} {es : List Entry}
      → Represents sound l es
      → (n i : ℕ) → length es + 1 ≤ n + i
      → range_from disk n i l ≡ ok (drop (i - 1) es)
  unfolding range_from
  range_from-drop {es = es} r zero i h = ap ok (sym (drop-ge es (i - 1) (omega arith)))
  range_from-drop {es = es} r (suc n) i h =
      rw (get-entry_at sound r i, range_from-drop r n (i + 1) (omega arith))
        (ap ok (push_front-drop es i))

  -- A range of a log that stands for a list of entries is the entries from the start index on, in
  -- order. This is for a store and a serialization that keep their laws.
  range-drop :
      {l : Log Kv} {es : List Entry}
      → Represents sound l es
      → (start : ℕ) → range disk start l ≡ ok (drop (start - 1) es)
  unfolding range
  range-drop {l} r start =
      range_from-drop r (l.last_index + 1 - start) start (omega (arith, r.last_index))
