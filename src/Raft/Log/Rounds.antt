-- ===== src/Raft/Log/Rounds.antt =====
-- The rounds of the loop in `Log::splice`: what agrees stays, and the first entry of another term
-- replaces what stands there and all that follows.
use mathlib.Core.List.{append-nil, append_assoc}
use mathlib.Core.Path.{subst}
use mynode.Base.{
  ℕ, suc, ◌+◌, ◌≤◌, ◌<◌, ◌≡◌, refl, sym, ap, ◌∙◌, true, false, Option, none, some, List, [], ◌∷◌,
  ◌++◌, length, take, drop, arith, ◌==◌, length-take, length-append, String, Bool-cases,
  Option-cases, inl, inr, add64, u64_mod, get_elem?,
}
use mynode.Base.Result.{ok, err, value, Error}
use mynode.Raft.Disk.{Entry, Disk, IsSound}
use mynode.Raft.Log.{Log, get, truncate, pred64, place, splice_entries}
use mynode.Raft.Log.Represents.{
  Represents, SameMarks-refl, SameMarks-trans, Yields, entry_at, get_elem?-none, get_elem?-some,
  get-entry_at, entry_at-ge,
}
use mynode.Raft.Log.Merge.{
  conflict-nil, conflict-empty, map-suc-eq-some, ConflictAfter, ConflictAfter-suc, conflict,
  conflict-agree, conflict-differ, drop_past, merge, merge-agree, merge-differ, merge-nil,
  take-append-drop, take-drop_next, take_all,
}
use mynode.Raft.Log.Append.{append-Represents}
use mynode.Raft.Log.Truncate.{truncate-Represents, truncate_refused}

module _ {Kv : Type 0} {disk : Disk Kv} (sound : IsSound disk) (base : ℕ) where
  abbrev target : ℕ → ℕ
  target i = add64 (add64 base i) 1

  -- A round that succeeds is followed by the others.
  round_ok :
      (i : ℕ) (n : Entry) (new : List Entry) (l : Log Kv) (o : Option Entry)
      → get disk (target i) l ≡ ok o
      → (place disk (target i) n o l).0 ≡ ok tt
      → splice_entries disk base i (n ∷ new) l
        ≡ splice_entries disk base (i + 1) new (place disk (target i) n o l).1
  unfolding splice_entries
  round_ok i n new l o found placed = rw found (rw placed)

  round_err :
      (i : ℕ) (n : Entry) (new : List Entry) (l : Log Kv) (o : Option Entry) (e : Error)
      → get disk (target i) l ≡ ok o
      → (place disk (target i) n o l).0 ≡ err e
      → splice_entries disk base i (n ∷ new) l ≡ (err e, (place disk (target i) n o l).1)
  unfolding splice_entries
  round_err i n new l o e found placed = rw found (rw placed)

  round_Yields :
      (i : ℕ) (n : Entry) (new : List Entry) (l : Log Kv) (o : Option Entry) (es es' : List Entry)
      → get disk (target i) l ≡ ok o
      → Yields sound (place disk (target i) n o l) tt l es
      → Yields sound
          (splice_entries disk base (i + 1) new (place disk (target i) n o l).1)
          tt
          (place disk (target i) n o l).1
          es'
      → Yields sound (splice_entries disk base i (n ∷ new) l) tt l es'
  round_Yields i n new l o es es' found y z = rw (round_ok i n new l o found y.result) (record {
    result = z.result;
    represents = z.represents;
    marks = SameMarks-trans y.marks z.marks;
    others = λ k h. z.others k h ∙ y.others k h;
  })

  place_append :
      (t : ℕ) (n : Entry) {l : Log Kv} {es : List Entry}
      → Represents sound l es
      → length es + 1 < u64_mod
      → Yields sound (place disk t n none l) tt l (es ++ n ∷ [])
  unfolding place
  place_append t n r fits =
      let y = append-Represents sound n r fits in
      rw y.result
        (record { result = refl; represents = y.represents; marks = y.marks; others = y.others })

  -- Where the list ends, the entries are appended.
  extend :
      (new : List Entry) (i : ℕ) {l : Log Kv} {es : List Entry}
      → Represents sound l es
      → base + i ≡ length es
      → length es + length new + 1 < u64_mod
      → Yields sound (splice_entries disk base i new l) tt l (es ++ new)
  unfolding splice_entries
  extend [] i {l} {es} r at fits =
      rw append-nil
        (record { result = refl; represents = r; marks = SameMarks-refl l; others = λ k h. refl })
  extend (n ∷ new) i {l} {es} r at fits =
      let past : entry_at es (target i) ≡ none = entry_at-ge es (target i) (omega arith) in
      let y = place_append (target i) n r (omega arith) in
      let z =
        extend new (i + 1) y.represents (omega (arith, length-append {0} es (n ∷ [])))
          (omega (arith, length-append {0} es (n ∷ []))) in
      subst (λ xs. Yields sound (splice_entries disk base i (n ∷ new) l) tt l xs)
        (append_assoc es (n ∷ []) new)
        (round_Yields i n new l none _ _ (get-entry_at sound r (target i) ∙ ap ok past) y z)

  place_conflict :
      (k t : ℕ) (n c : Entry) {l : Log Kv} {es : List Entry}
      → Represents sound l es
      → (c.term == n.term) ≡ false
      → t ≡ suc k
      → k + 2 < u64_mod
      → k ≤ length es
      → l.apply_index ≤ k
      → l.commit_index ≤ k
      → Yields sound (place disk t n (some c) l) tt l (take k es ++ n ∷ [])
  unfolding place
  place_conflict k t n c {l} {es} r differ at fits inside applied committed =
      let before : pred64 t ≡ k = omega arith in
      let cut = truncate-Represents sound k r (omega arith) applied committed in
      let y = append-Represents sound n cut.represents (omega (arith, length-take {0} k es)) in
      rw (differ, before, cut.result, y.result)
        (record {
          result = refl;
          represents = y.represents;
          marks = SameMarks-trans cut.marks y.marks;
          others = λ k h. y.others k h ∙ cut.others k h;
        })

  place_agreed :
      (t : ℕ) (n c : Entry) (l : Log Kv)
      → (c.term == n.term) ≡ true
      → place disk t n (some c) l ≡ (ok tt, l)
  unfolding place
  place_agreed t n c l same = rw same

  agreed_step :
      (i : ℕ) (n c : Entry) (new : List Entry) (l : Log Kv)
      → get disk (target i) l ≡ ok (some c)
      → (c.term == n.term) ≡ true
      → splice_entries disk base i (n ∷ new) l ≡ splice_entries disk base (i + 1) new l
  unfolding splice_entries
  agreed_step i n c new l found same = rw (found, place_agreed (target i) n c l same)

  -- A conflict whose truncation is refused ends the loop.
  refused_step :
      (i k : ℕ) (n c : Entry) (new : List Entry) (l : Log Kv) (text : String)
      → get disk (target i) l ≡ ok (some c)
      → (c.term == n.term) ≡ false
      → pred64 (target i) ≡ k
      → truncate disk k l ≡ (err (value text), l)
      → splice_entries disk base i (n ∷ new) l ≡ (err (value text), l)
  unfolding splice_entries place
  refused_step i k n c new l text found differ before e = rw found (rw (differ, before, e))

  -- Where no conflict lies in what is committed, the entries are merged into the list.
  pub splice_entries-merge :
      (new : List Entry) (i k : ℕ) {l : Log Kv} {es : List Entry}
      → Represents sound l es
      → base + i ≡ k
      → k ≤ length es
      → length es + length new + 2 < u64_mod
      → l.apply_index ≤ l.commit_index
      → ConflictAfter l.commit_index k (conflict (drop k es) new)
      → Yields sound (splice_entries disk base i new l) tt l (take k es ++ merge (drop k es) new)
  splice_entries-merge [] i k {l} {es} r at inside fits marks safe =
      unfold merge splice_entries in
      rw take-append-drop
        (record { result = refl; represents = r; marks = SameMarks-refl l; others = λ k h. refl })
  splice_entries-merge (n ∷ new) i k {l} {es} r at inside fits marks safe =
      elim (Option-cases (get_elem? es k)) [
        | inl miss ↦
            let end = get_elem?-none es k miss in
            rw (drop_past es k miss, take_all es k end, merge-nil)
              (extend (n ∷ new) i r (omega arith) (omega arith))
        | inr (c, hit) ↦
            let (more, next) = take-drop_next es k c hit in
            let room = get_elem?-some es k c hit in
            let place_of : entry_at es (target i) ≡ some c =
              ap (entry_at es) {y = suc k} (omega arith) ∙ hit in
            let found = get-entry_at sound r (target i) ∙ ap ok place_of in
            elim (Bool-cases (c.term == n.term)) [
              | inl same ↦
                  rw
                    (
                      next,
                      merge-agree c n (drop (suc k) es) new same,
                      ← append_assoc (take k es) (c ∷ []) (merge (drop (suc k) es) new),
                      ← more,
                    )
                    (rw (agreed_step i n c new l found same) (
                      splice_entries-merge new (i + 1) (suc k) r (omega arith) room (omega arith)
                        marks
                        (ConflictAfter-suc l.commit_index k (conflict (drop (suc k) es) new) (
                          subst (ConflictAfter l.commit_index k)
                            (ap (λ old. conflict old (n ∷ new)) next
                              ∙ conflict-agree c n (drop (suc k) es) new same)
                            safe))))
              | inr differ ↦
                  let after : l.commit_index ≤ k + 0 =
                    subst (ConflictAfter l.commit_index k)
                      (ap (λ old. conflict old (n ∷ new)) next
                        ∙ conflict-differ c n (drop (suc k) es) new differ)
                      safe in
                  let y =
                    place_conflict k (target i) n c r differ (omega arith) (omega arith) inside
                      (omega arith) (omega arith) in
                  let z =
                    extend new (i + 1) y.represents
                      (omega (arith, length-append {0} (take k es) (n ∷ []), length-take {0} k es))
                      (omega
                        (arith, length-append {0} (take k es) (n ∷ []), length-take {0} k es)) in
                  rw
                    (
                      next,
                      merge-differ c n (drop (suc k) es) new differ,
                      ← append_assoc (take k es) (n ∷ []) new,
                    )
                    (round_Yields i n new l (some c) _ _ found y z)
            ]
      ]

  pub splice_entries_refused :
      (new : List Entry) (i k c : ℕ) {l : Log Kv} {es : List Entry}
      → Represents sound l es
      → base + i ≡ k
      → k ≤ length es
      → length es + length new + 2 < u64_mod
      → l.apply_index ≤ l.commit_index
      → conflict (drop k es) new ≡ some c
      → k + c < l.commit_index
      → (text : String) × (splice_entries disk base i new l ≡ (err (value text), l))
  splice_entries_refused [] i k c {l} {es} r at inside fits marks clash low =
      absurd (cc (conflict-nil (drop k es)))
  splice_entries_refused (n ∷ new) i k c {l} {es} r at inside fits marks clash low =
      elim (Option-cases (get_elem? es k)) [
        | inl miss ↦ absurd (cc (drop_past es k miss, conflict-empty n new))
        | inr (o, hit) ↦
            let (more, next) = take-drop_next es k o hit in
            let room = get_elem?-some es k o hit in
            let place_of : entry_at es (target i) ≡ some o =
              ap (entry_at es) {y = suc k} (omega arith) ∙ hit in
            let found = get-entry_at sound r (target i) ∙ ap ok place_of in
            let here = sym (ap (λ old. conflict old (n ∷ new)) next) ∙ clash in
            elim (Bool-cases (o.term == n.term)) [
              | inl same ↦
                  let (m, later, c_eq) =
                    map-suc-eq-some (conflict (drop (suc k) es) new) c
                      (sym (conflict-agree o n (drop (suc k) es) new same) ∙ here) in
                  let (text, e) =
                    splice_entries_refused new (i + 1) (suc k) m r (omega arith) room (omega arith)
                      marks later (omega arith) in
                  (text, agreed_step i n o new l found same ∙ e)
              | inr differ ↦
                  let zero_eq : some 0 ≡ some c =
                    sym (conflict-differ o n (drop (suc k) es) new differ) ∙ here in
                  let below : k < l.commit_index = ground arith in
                  let (text, e) = truncate_refused disk k l marks below in
                  (text, refused_step i k n o new l text found differ (omega arith) e)
            ]
      ]
