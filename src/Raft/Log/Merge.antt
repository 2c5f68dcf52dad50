-- ===== src/Raft/Log/Merge.antt =====
-- The list of entries that `Log::splice` is to leave: the new entries over the old ones, from the
-- first that has another term than the one in its place.
use mathlib.Core.Path.{subst}
use mathlib.Core.Option
use mynode.Base.{
  ltb→lt, ◌⊎◌, ℕ, zero, suc, ◌+◌, ◌≤◌, ◌<◌, ◌≡◌, refl, ap, true, false, Option, none, some, List,
  [], ◌∷◌, ◌++◌, length, take, drop, arith, ltb, ◌==◌, if◌then◌else◌, Bool-cases, inl, inr,
  get_elem?,
}
use mynode.Raft.Disk.{Entry}

-- The entries of `new` over those of `old` from one index on.
unfoldable pub merge : List Entry → List Entry → List Entry
merge old [] = old
merge [] (n ∷ new) = n ∷ new
merge (o ∷ old) (n ∷ new) = if o.term == n.term then o ∷ merge old new else n ∷ new

-- How many entries of `new` come before the first that has another term than the one in its place.
unfoldable pub conflict : List Entry → List Entry → Option ℕ
conflict (o ∷ old) (n ∷ new) =
    if o.term == n.term then Option.map suc (conflict old new) else some 0
conflict old new = none

-- Counted from the index `k`, the conflict comes after the index `c`, if there is one.
abbrev pub ConflictAfter : ℕ → ℕ → Option ℕ → Type 0
ConflictAfter c k none = Unit
ConflictAfter c k (some n) = c ≤ k + n

pub ConflictAfter-suc :
    (c k : ℕ) (o : Option ℕ) → ConflictAfter c k (Option.map suc o) → ConflictAfter c (suc k) o
ConflictAfter-suc c k none h = tt
ConflictAfter-suc c k (some n) h = omega arith

pub take-append-drop : (n : ℕ) (es : List Entry) → take n es ++ drop n es ≡ es
take-append-drop zero es = refl
take-append-drop (suc n) [] = refl
take-append-drop (suc n) (e ∷ es) = rw (take-append-drop n es)

pub take_all : (es : List Entry) (n : ℕ) → length es ≤ n → take n es ≡ es
take_all [] zero h = refl
take_all [] (suc n) h = refl
take_all (e ∷ es) zero h = absurd (omega arith)
take_all (e ∷ es) (suc n) h = ap (◌∷◌ e) (take_all es n (omega arith))

-- One entry more is taken, and one entry less is left.
pub take-drop_next :
    (es : List Entry) (n : ℕ) (e : Entry)
    → get_elem? es n ≡ some e
    → (take (suc n) es ≡ take n es ++ e ∷ []) × (drop n es ≡ e ∷ drop (suc n) es)
take-drop_next [] n e h = cc
take-drop_next (x ∷ es) zero e h = (ground arith, ground arith)
take-drop_next (x ∷ es) (suc n) e h = let (t, d) = take-drop_next es n e h in (rw t, d)

pub drop_past : (es : List Entry) (n : ℕ) → get_elem? es n ≡ none → drop n es ≡ []
drop_past [] zero h = refl
drop_past [] (suc n) h = refl
drop_past (e ∷ es) zero h = cc
drop_past (e ∷ es) (suc n) h = drop_past es n h

pub merge-nil : (new : List Entry) → merge [] new ≡ new
unfolding merge
merge-nil [] = refl
merge-nil (n ∷ new) = refl

pub length-merge : (old new : List Entry) → length (merge old new) ≤ length old + length new
unfolding merge
length-merge old [] = omega arith
length-merge [] (n ∷ new) = omega arith
length-merge (o ∷ old) (n ∷ new) = ground (arith, length-merge old new)

pub merge-agree :
    (o n : Entry) (old new : List Entry)
    → (o.term == n.term) ≡ true
    → merge (o ∷ old) (n ∷ new) ≡ o ∷ merge old new
unfolding merge
merge-agree o n old new same = rw same

pub merge-differ :
    (o n : Entry) (old new : List Entry)
    → (o.term == n.term) ≡ false
    → merge (o ∷ old) (n ∷ new) ≡ n ∷ new
unfolding merge
merge-differ o n old new differ = rw differ

pub conflict-agree :
    (o n : Entry) (old new : List Entry)
    → (o.term == n.term) ≡ true
    → conflict (o ∷ old) (n ∷ new) ≡ Option.map suc (conflict old new)
unfolding conflict
conflict-agree o n old new same = rw same

pub conflict-differ :
    (o n : Entry) (old new : List Entry)
    → (o.term == n.term) ≡ false
    → conflict (o ∷ old) (n ∷ new) ≡ some 0
unfolding conflict
conflict-differ o n old new differ = rw differ

ConflictAfter-pred :
    (c : ℕ) (o : Option ℕ) → ConflictAfter (suc c) 0 (Option.map suc o) → ConflictAfter c 0 o
ConflictAfter-pred c none h = tt
ConflictAfter-pred c (some n) h = omega arith

ConflictAfter-both :
    (c k : ℕ) (o : Option ℕ) → ConflictAfter (suc c) (suc k) o → ConflictAfter c k o
ConflictAfter-both c k none h = tt
ConflictAfter-both c k (some n) h = omega arith

-- The conflict comes after `c`, or lies before it.
pub conflict_cases :
    (c k : ℕ) (o : Option ℕ) → ConflictAfter c k o ⊎ ((n : ℕ) × (o ≡ some n) × (k + n < c))
conflict_cases c k none = inl tt
conflict_cases c k (some n) = elim (Bool-cases (ltb (k + n) c)) [
  | inl low ↦ inr (n, refl, ltb→lt (k + n) c low)
  | inr high ↦ inl (ground arith)
]

pub conflict-nil : (old : List Entry) → conflict old [] ≡ none
unfolding conflict
conflict-nil [] = refl
conflict-nil (o ∷ old) = refl

pub conflict-empty : (n : Entry) (new : List Entry) → conflict [] (n ∷ new) ≡ none
unfolding conflict
conflict-empty n new = refl

pub map-suc-eq-some :
    (o : Option ℕ) (c : ℕ) → Option.map suc o ≡ some c → (n : ℕ) × (o ≡ some n) × (c ≡ suc n)
map-suc-eq-some none c h = cc
map-suc-eq-some (some n) c h = (n, refl, ground arith)

-- Up to the conflict, and within the old entries, merging changes nothing.
take-merge :
    (old new : List Entry) (c : ℕ)
    → c ≤ length old
    → ConflictAfter c 0 (conflict old new)
    → take c (merge old new) ≡ take c old
unfolding merge conflict
take-merge old [] c h safe = refl
take-merge [] (n ∷ new) zero h safe = refl
take-merge [] (n ∷ new) (suc c) h safe = absurd (omega arith)
take-merge (o ∷ old) (n ∷ new) zero h safe = refl
take-merge (o ∷ old) (n ∷ new) (suc c) h safe = elim (Bool-cases (o.term == n.term)) [
  | inl same ↦
      let below =
        ConflictAfter-pred c (conflict old new)
          (subst (ConflictAfter (suc c) 0) (conflict-agree o n old new same) safe) in
      rw same (ap (◌∷◌ o) (take-merge old new c (omega arith) below))
  | inr differ ↦ absurd (ground arith)
]

-- So a splice whose conflict comes after `c` keeps the first `c` entries.
pub take-splice :
    (k c : ℕ) (es new : List Entry)
    → k ≤ length es
    → c ≤ length es
    → ConflictAfter c k (conflict (drop k es) new)
    → take c (take k es ++ merge (drop k es) new) ≡ take c es
take-splice zero c es new h inside safe = take-merge es new c inside safe
take-splice (suc k) c [] new h inside safe = absurd (omega arith)
take-splice (suc k) zero (e ∷ es) new h inside safe = refl
take-splice (suc k) (suc c) (e ∷ es) new h inside safe = ap (◌∷◌ e) (
    take-splice k c es new (omega arith) (omega arith)
      (ConflictAfter-both c k (conflict (drop k es) new) safe))
