-- ===== src/Raft/Log/Represents.antt =====
-- What a log stands for: a list of entries, the first at index 1. Reading is `entry_at`, and a key
-- of the store belongs to one index only.
use mathlib.Core.Option
use mynode.Base.{
  ℕ, zero, suc, ◌+◌, ◌≤◌, ◌<◌, String, ◌≡◌, refl, ◌∙◌, false, Option, inl, inr, none, some, List,
  [], ◌∷◌, ◌++◌, length, get_elem?, take, arith, ltb, ◌==◌, ==_iff, if◌then◌else◌, str_eq, eq_iff,
  eq_refl, Bool-cases,
}
use mynode.Base.Text.{to_string, to_string_inj, is_numeric, to_string-ne}
use mynode.Base.Result.{Result, ok}
use mynode.Raft.Disk.{Entry, Codec, IsFaithful, Disk, IsSound}
use mynode.Raft.Log.{Log, term_or_zero, decode, get}

-- The entry at an index, counted from 1; there is none at 0.
abbrev pub entry_at : List Entry → ℕ → Option Entry
entry_at es zero = none
entry_at es (suc i) = get_elem? es i

abbrev pub last_term_of : List Entry → ℕ
last_term_of es = term_or_zero (entry_at es (length es))

pub same_key : (a b : ℕ) → str_eq (to_string a) (to_string b) ≡ (a == b)
same_key a b = elim (Bool-cases (a == b)) [
  | inl e ↦ rw e (rw ((==_iff a b).0 e) (eq_refl _))
  | inr n ↦ elim (Bool-cases (str_eq (to_string a) (to_string b))) [
    | inl e ↦ ground (arith, to_string_inj a b ((eq_iff _ _).0 e))
    | inr m ↦ rw (m, n)
  ]
]

-- The keys that are no decimal numbers are those of the terms, the votes and the applied index.
pub other_key : (i : ℕ) (k : String) → is_numeric k ≡ false → str_eq (to_string i) k ≡ false
other_key i k h = elim (Bool-cases (str_eq (to_string i) k)) [
  | inl e ↦ absurd (to_string-ne i k h ((eq_iff _ _).0 e))
  | inr n ↦ n
]

pub decode-bytes :
    {V : Type 0} {c : Codec V} (f : IsFaithful c) (o : Option V)
    → decode c (Option.map f.bytes o) ≡ ok o
decode-bytes f none = refl
decode-bytes f (some v) = rw (f.deserialize_lem v)

pub get_elem?-ge : (es : List Entry) (i : ℕ) → length es ≤ i → get_elem? es i ≡ none
get_elem?-ge [] i h = refl
get_elem?-ge (e ∷ es) zero h = absurd (omega arith)
get_elem?-ge (e ∷ es) (suc i) h = get_elem?-ge es i (omega arith)

pub get_elem?-lt :
    (es : List Entry) (i : ℕ) → i < length es → (e : Entry) × (get_elem? es i ≡ some e)
get_elem?-lt [] i h = absurd (omega arith)
get_elem?-lt (e ∷ es) zero h = (e, refl)
get_elem?-lt (e ∷ es) (suc i) h = get_elem?-lt es i (omega arith)

pub get_elem?-none : (es : List Entry) (i : ℕ) → get_elem? es i ≡ none → length es ≤ i
get_elem?-none [] i h = omega arith
get_elem?-none (e ∷ es) zero h = cc
get_elem?-none (e ∷ es) (suc i) h = omega (arith, get_elem?-none es i h)

pub get_elem?-some :
    (es : List Entry) (i : ℕ) (e : Entry) → get_elem? es i ≡ some e → suc i ≤ length es
get_elem?-some [] i e h = cc
get_elem?-some (x ∷ es) zero e h = omega arith
get_elem?-some (x ∷ es) (suc i) e h = omega (arith, get_elem?-some es i e h)

get_elem?-append :
    (es : List Entry) (e : Entry) (i : ℕ)
    → get_elem? (es ++ e ∷ []) i ≡ (if length es == i then some e else get_elem? es i)
get_elem?-append [] e zero = refl
get_elem?-append [] e (suc i) = ground arith
get_elem?-append (x ∷ es) e zero = ground arith
get_elem?-append (x ∷ es) e (suc i) = ground (arith, get_elem?-append es e i)

get_elem?-take :
    (es : List Entry) (n i : ℕ)
    → get_elem? (take n es) i ≡ (if ltb i n then get_elem? es i else none)
get_elem?-take [] zero i = ground arith
get_elem?-take [] (suc n) i = ground arith
get_elem?-take (x ∷ es) zero i = ground arith
get_elem?-take (x ∷ es) (suc n) zero = ground arith
get_elem?-take (x ∷ es) (suc n) (suc i) = ground (arith, get_elem?-take es n i)

pub entry_at-ge : (es : List Entry) (i : ℕ) → length es < i → entry_at es i ≡ none
entry_at-ge es zero h = refl
entry_at-ge es (suc i) h = get_elem?-ge es i (omega arith)

-- There is an entry at each index from 1 to the length.
pub entry_at-le :
    (es : List Entry) (i : ℕ) → 0 < i → i ≤ length es → (e : Entry) × (entry_at es i ≡ some e)
entry_at-le es zero h k = absurd (omega arith)
entry_at-le es (suc i) h k = get_elem?-lt es i (omega arith)

pub entry_at-append :
    (es : List Entry) (e : Entry) (i : ℕ)
    → entry_at (es ++ e ∷ []) i ≡ (if length es + 1 == i then some e else entry_at es i)
entry_at-append es e zero = ground arith
entry_at-append es e (suc i) = ground (arith, get_elem?-append es e i)

pub entry_at-take :
    (es : List Entry) (n i : ℕ) → entry_at (take n es) i ≡ (if ltb n i then none else entry_at es i)
entry_at-take es n zero = ground arith
entry_at-take es n (suc i) = ground (arith, get_elem?-take es n i)

-- The store holds the entries `es`, and no other.
abbrev pub Stored : {Kv : Type 0} {disk : Disk Kv} → IsSound disk → Kv → List Entry → Type 0
Stored sound kv es =
    (i : ℕ) → sound.store.contents kv (to_string i) ≡ Option.map sound.entry.bytes (entry_at es i)

-- The keys that belong to no index have the same values in both stores.
abbrev pub SameOthers : {Kv : Type 0} {disk : Disk Kv} → IsSound disk → Kv → Kv → Type 0
SameOthers sound kv kv' =
    (k : String) → is_numeric k ≡ false → sound.store.contents kv' k ≡ sound.store.contents kv k

-- The log `l` holds the entries `es`, and no other.
pub record Represents {Kv : Type 0} {disk : Disk Kv} (sound : IsSound disk) (l : Log Kv)
    (es : List Entry) : Type 0 where
  pub stored : Stored sound l.kv es
  pub last_index : l.last_index ≡ length es
  pub last_term : l.last_term ≡ last_term_of es

-- What is known to be committed, and what is applied, is the same in both logs.
pub record SameMarks {Kv : Type 0} (l m : Log Kv) : Type 0 where
  pub commit_index : m.commit_index ≡ l.commit_index
  pub commit_term : m.commit_term ≡ l.commit_term
  pub apply_index : m.apply_index ≡ l.apply_index
  pub apply_term : m.apply_term ≡ l.apply_term

-- `append` and `truncate` write the other fields.
pub SameMarks-entries :
    {Kv : Type 0} (l : Log Kv) (kv : Kv) (i t : ℕ)
    → SameMarks l (record l { kv = kv; last_index = i; last_term = t })
SameMarks-entries l kv i t = record {
  commit_index = refl;
  commit_term = refl;
  apply_index = refl;
  apply_term = refl;
}

pub SameMarks-refl : {Kv : Type 0} (l : Log Kv) → SameMarks l l
SameMarks-refl l = record {
  commit_index = refl;
  commit_term = refl;
  apply_index = refl;
  apply_term = refl;
}

pub SameMarks-trans : {Kv : Type 0} {l m n : Log Kv} → SameMarks l m → SameMarks m n → SameMarks l n
SameMarks-trans f g = record {
  commit_index = g.commit_index ∙ f.commit_index;
  commit_term = g.commit_term ∙ f.commit_term;
  apply_index = g.apply_index ∙ f.apply_index;
  apply_term = g.apply_term ∙ f.apply_term;
}

-- A method called on `l` returned `a`, and left a log that holds `es` and has the marks of `l`.
pub record Yields {Kv A : Type 0} {disk : Disk Kv} (sound : IsSound disk) (r : Result A × Log Kv)
    (a : A) (l : Log Kv) (es : List Entry) : Type 0 where
  pub result : r.0 ≡ ok a
  pub represents : Represents sound r.1 es
  pub marks : SameMarks l r.1
  pub others : SameOthers sound l.kv r.1.kv

module _ {Kv : Type 0} {disk : Disk Kv} (sound : IsSound disk) where
  pub get-Stored :
      (l : Log Kv) (es : List Entry)
      → Stored sound l.kv es
      → (i : ℕ) → get disk i l ≡ ok (entry_at es i)
  unfolding get
  get-Stored l es h i = rw (sound.store.get_lem, h i) (decode-bytes sound.entry (entry_at es i))

  -- Reading an index of the log reads the list.
  pub get-entry_at :
      {l : Log Kv} {es : List Entry}
      → Represents sound l es
      → (i : ℕ) → get disk i l ≡ ok (entry_at es i)
  get-entry_at {l} {es} r i = get-Stored l es r.stored i
