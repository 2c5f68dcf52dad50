-- ===== src/Tests/Disk.antt =====
-- A concrete disk for the examples: the store in memory, with a serialization of its own that writes
-- a text as the numbers of its characters.
use text.Mathlib.TextEquality.{IsScalar-prop}
use Prim.Native.Char.{Char, char, code, IsScalar}
use Prim.Native.Nat.{compare, Ordering}
use mynode.Base.{ℕ, zero, suc, String, ◌≡◌, refl, ap, Option, none, some, [], ◌∷◌, ◌⊎◌, inl, inr}
use mynode.Base.Result.{Result, ok, err, parse, and_then}
use mynode.Store.{Bytes}
use mynode.Store.KvMemory.{KvMemory, kv_memory, kv_memory-IsLawful}
use mynode.Raft.Disk.{Entry, Disk, IsSound}

-- A number is that of a character, or it is not, by the three comparisons that say so.
abbrev Above : Ordering → Ordering → Type 0
Above Ordering.lt Ordering.lt = Unit
Above Ordering.lt Ordering.eq = ⊥
Above Ordering.lt Ordering.gt = ⊥
Above Ordering.eq _ = ⊥
Above Ordering.gt _ = ⊥

abbrev Fits : Ordering → Ordering → Ordering → Type 0
Fits Ordering.lt _ _ = Unit
Fits Ordering.eq o p = Above o p
Fits Ordering.gt o p = Above o p

above? : (o p : Ordering) → Above o p ⊎ (Above o p → ⊥)
above? Ordering.lt Ordering.lt = inl tt
above? Ordering.lt Ordering.eq = inr (λ x. x)
above? Ordering.lt Ordering.gt = inr (λ x. x)
above? Ordering.eq p = inr (λ x. x)
above? Ordering.gt p = inr (λ x. x)

fits? : (o p q : Ordering) → Fits o p q ⊎ (Fits o p q → ⊥)
fits? Ordering.lt p q = inl tt
fits? Ordering.eq p q = above? p q
fits? Ordering.gt p q = above? p q

scalar? : (n : ℕ) → IsScalar n ⊎ (IsScalar n → ⊥)
scalar? n = fits? (compare n 55296) (compare 57343 n) (compare n 1114112)

to_char : (n : ℕ) → IsScalar n ⊎ (IsScalar n → ⊥) → Result Char
to_char n (inl p) = ok (char n p)
to_char n (inr _) = err (parse "no character")

codes : String → Bytes
codes String.[] = []
codes (String.◌∷◌ c s) = code c ∷ codes s

read_codes : Bytes → Result String
unfolding to_char scalar? fits? above?
read_codes [] = ok ""
read_codes (n ∷ ns) =
    and_then (to_char n (scalar? n)) λ c. and_then (read_codes ns) λ s. ok (String.◌∷◌ c s)

to_char-code :
    (c : Char) (d : IsScalar (code c) ⊎ (IsScalar (code c) → ⊥)) → to_char (code c) d ≡ ok c
unfolding to_char
to_char-code (char n p) (inl q) = ap (λ r. ok (char n r)) (IsScalar-prop n q p)
to_char-code (char n p) (inr refute) = absurd (refute p)

-- The character of a number.
unfoldable pub char_of : ℕ → Result Char
unfolding to_char scalar? fits? above?
char_of n = to_char n (scalar? n)

pub char_of-code : (c : Char) → char_of (code c) ≡ ok c
unfolding char_of
char_of-code c = to_char-code c (scalar? (code c))

read_codes-codes : (s : String) → read_codes (codes s) ≡ ok s
unfolding read_codes codes
read_codes-codes String.[] = refl
read_codes-codes (String.◌∷◌ c s) =
    rw (to_char-code c (scalar? (code c))) (rw (read_codes-codes s) refl)

write_command : Option Bytes → Bytes
write_command none = 0 ∷ []
write_command (some c) = 1 ∷ c

read_number : Bytes → Result ℕ
read_number (n ∷ []) = ok n
read_number _ = err (parse "no number")

read_entry : Bytes → Result Entry
read_entry (t ∷ zero ∷ _) = ok (record { term = t; command = none })
read_entry (t ∷ suc _ ∷ c) = ok (record { term = t; command = some c })
read_entry _ = err (parse "no entry")

write_entry : Entry → Bytes
write_entry e = e.term ∷ write_command e.command

read-write_command :
    (t : ℕ) (c : Option Bytes)
    → read_entry (t ∷ write_command c) ≡ ok (record { term = t; command = c })
unfolding read_entry write_command
read-write_command t none = refl
read-write_command t (some c) = refl

unfoldable pub disk : Disk KvMemory
unfolding kv_memory read_number read_codes codes read_entry write_entry write_command
disk = record {
  store = kv_memory;
  number = record { serialize = λ n. ok (n ∷ []); deserialize = read_number };
  text = record { serialize = λ s. ok (codes s); deserialize = read_codes };
  entry = record { serialize = λ e. ok (write_entry e); deserialize = read_entry };
}

unfoldable pub sound : IsSound disk
unfolding disk kv_memory-IsLawful read_codes-codes read-write_command to_char-code
sound = record {
  store = kv_memory-IsLawful;
  number = record { bytes = λ n. n ∷ []; serialize_lem = λ n. refl; deserialize_lem = λ n. refl };
  text = record { bytes = codes; serialize_lem = λ s. refl; deserialize_lem = read_codes-codes };
  entry = record {
    bytes = write_entry;
    serialize_lem = λ e. refl;
    deserialize_lem = λ e. read-write_command e.term e.command;
  };
}
