-- ===== src/Raft/Log/Others.antt =====
-- The methods of the log that write entries leave the other keys of the store alone.
use mynode.Base.{
  ℕ, zero, suc, ◌+◌, ◌-◌, ◌≡◌, refl, ap, ◌∙◌, Bool, true, false, Option, none, some, List, [], ◌∷◌,
  ltb, ◌==◌, if◌then◌else◌, add64, min, max, Bool-cases, inl, inr,
}
use mynode.Base.Text.{to_string, is_numeric}
use mynode.Base.Result.{
  Result, Exec, ◌>>=◌, ◌>>◌, reads, gets, modify, pure, raise, raft_base_not_found,
}
use mynode.Base.Preserves.{IsOrder, Preserves, bind-Preserves, continue-Preserves}
use mynode.Raft.Disk.{Entry, Disk, IsSound}
use mynode.Raft.Log.{
  Log, get, append, commit, commit_found, delete_range, truncate, truncate_to, place, splice,
  splice_entries, has, pred64, on_kv, term_or_zero,
}
use mynode.Raft.Log.Represents.{SameOthers, other_key}
use mynode.Raft.Log.Append.{append_lem}

module _ {Kv : Type 0} {disk : Disk Kv} (sound : IsSound disk) where
  abbrev KeepsOthers : Log Kv → Log Kv → Type 0
  KeepsOthers l m = SameOthers sound l.kv m.kv

  KeepsOthers-IsOrder : IsOrder KeepsOthers
  KeepsOthers-IsOrder = record { same = λ l k h. refl; then = λ l m n f g k h. g k h ∙ f k h }

  append-others : (e : Entry) → Preserves KeepsOthers (append disk e)
  append-others e l k h =
      rw (append_lem sound e l)
        (rw (sound.store.contents-set, other_key (add64 l.last_index 1) k h) refl)

  modify-others :
      (f : Log Kv → Log Kv) → ((l : Log Kv) → (f l).kv ≡ l.kv) → Preserves KeepsOthers (modify f)
  modify-others f same l k h = ap (λ kv. sound.store.contents kv k) (same l)

  reads-others : {A : Type 0} (f : Log Kv → Result A) → Preserves KeepsOthers (reads f)
  reads-others f l k h = refl

  delete_range-others : (n i : ℕ) → Preserves KeepsOthers (delete_range disk n i)
  unfolding delete_range
  delete_range-others zero i = λ l k h. refl
  delete_range-others (suc n) i =
      bind-Preserves KeepsOthers-IsOrder (on_kv (disk.store.delete (to_string i)))
        (λ _. delete_range disk n (i + 1))
        (λ l k h. rw (sound.store.contents-delete, other_key i k h) refl)
        (λ _. delete_range-others n (i + 1))

  -- The steps of `truncate` after the entries are deleted.
  abbrev set_last : Option Entry → Exec (Log Kv) ℕ
  set_last last =
      modify (λ l. record l { last_term = term_or_zero last }) >> gets (λ l. l.last_index)

  abbrev cut : ℕ → Exec (Log Kv) ℕ
  cut index =
      modify (λ l. record l { last_index = min index l.last_index })
      >> (reads (λ l. get disk l.last_index l) >>= set_last)

  cut-others : (index : ℕ) → Preserves KeepsOthers (cut index)
  cut-others index l =
      let l' : Log Kv = record l { last_index = min index l.last_index } in
      continue-Preserves KeepsOthers-IsOrder (get disk l'.last_index l') set_last l l' (λ k h. refl)
        (λ last l k h. refl)

  truncate_to-others : (index : ℕ) → Preserves KeepsOthers (truncate_to disk index)
  unfolding truncate_to
  truncate_to-others index l =
      let start = add64 index 1 in
      bind-Preserves KeepsOthers-IsOrder (delete_range disk (l.last_index + 1 - start) start)
        (λ _. cut index) (delete_range-others (l.last_index + 1 - start) start)
        (λ _. cut-others index) l

  truncate-others : (index : ℕ) → Preserves KeepsOthers (truncate disk index)
  unfolding is_numeric truncate
  truncate-others index l = elim (Bool-cases (ltb index l.apply_index)) [
    | inl low ↦ rw low (λ k h. refl)
    | inr high ↦ rw high (elim (Bool-cases (ltb index l.commit_index)) [
      | inl low ↦ rw low (λ k h. refl)
      | inr high ↦ rw high (truncate_to-others index l)
    ])
  ]

  place-others :
      (target : ℕ) (e : Entry) (o : Option Entry) → Preserves KeepsOthers (place disk target e o)
  unfolding place
  place-others target e none l =
      bind-Preserves KeepsOthers-IsOrder (append disk e) (λ _. pure tt) (append-others e)
        (λ _ l k h. refl) l
  place-others target e (some current) l = elim (Bool-cases (current.term == e.term)) [
    | inl same ↦ rw same (λ k h. refl)
    | inr differ ↦ rw differ (
        bind-Preserves KeepsOthers-IsOrder (truncate disk (pred64 target))
          (λ _. append disk e >>= λ _. pure tt) (truncate-others (pred64 target))
          (λ _.
            bind-Preserves KeepsOthers-IsOrder (append disk e) (λ _. pure tt) (append-others e)
              (λ _ l k h. refl))
          l)
  ]

  splice_entries-others :
      (base i : ℕ) (new : List Entry) → Preserves KeepsOthers (splice_entries disk base i new)
  unfolding splice_entries
  splice_entries-others base i [] = λ l k h. refl
  splice_entries-others base i (e ∷ new) =
      let target = add64 (add64 base i) 1 in
      bind-Preserves KeepsOthers-IsOrder (reads (get disk target) >>= place disk target e)
        (λ _. splice_entries disk base (i + 1) new)
        (bind-Preserves KeepsOthers-IsOrder (reads (get disk target)) (place disk target e)
          (λ l k h. refl) (place-others target e))
        (λ _. splice_entries-others base (i + 1) new)

  spliced-others :
      (base base_term : ℕ) (new : List Entry) (found : Bool)
      → Preserves KeepsOthers (
          if found
          then (splice_entries disk base 0 new >> gets (λ l. l.last_index))
          else raise (raft_base_not_found base base_term))
  spliced-others base base_term new true =
      bind-Preserves KeepsOthers-IsOrder (splice_entries disk base 0 new)
        (λ _. gets (λ l. l.last_index)) (splice_entries-others base 0 new) (λ _ l k h. refl)
  spliced-others base base_term new false = λ l k h. refl

  pub splice-others :
      (base base_term : ℕ) (new : List Entry)
      → Preserves KeepsOthers (splice disk base base_term new)
  unfolding splice
  splice-others base base_term new =
      bind-Preserves KeepsOthers-IsOrder (reads (has disk base base_term)) _ (λ l k h. refl)
        (spliced-others base base_term new)

  commit_found-others :
      (index : ℕ) (o : Option Entry) → Preserves KeepsOthers (commit_found disk index o)
  unfolding commit_found
  commit_found-others index none = λ l k h. refl
  commit_found-others index (some e) = λ l k h. refl

  pub commit-others : (requested : ℕ) → Preserves KeepsOthers (commit disk requested)
  unfolding is_numeric commit
  commit-others requested l =
      let index = max (min requested l.last_index) l.commit_index in
      elim (Bool-cases (index == l.commit_index)) [
        | inl same ↦ rw same (λ k h. refl)
        | inr moved ↦ rw moved (
            continue-Preserves KeepsOthers-IsOrder (get disk index l) (commit_found disk index) l l
              (λ k h. refl) (commit_found-others index))
      ]
