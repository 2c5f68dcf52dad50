-- ===== src/Tests/Wire.antt =====
-- A serialization for the examples, put together from parts: each writes a value in front of what
-- follows, and reads it back with what follows.
use Prim.Native.Char.{code}
use mynode.Base.{
  ◌++◌, ◌∙◌, ap, sym, drop, arith, ℕ, zero, suc, String, ◌≡◌, refl, Bool, true, false, Option, none,
  some, List, [], ◌∷◌, length,
}
use mynode.Base.Int.{pos, negsuc}
use mynode.Base.Text.{size}
use mynode.Base.Result.{Result, ok, err, parse, and_then}
use mynode.Store.{Bytes, KvPair}
use mynode.Store.Raft.{
  Mutation, Read, delete_key, set_key, get_key, naive_lower_bound, Codecs, IsSound,
}
use mathlib.Core.List.{append_assoc}
use mynode.Store.File.{Device, IsReliable as IsReliableDevice}
use mynode.Serializer.{Codec, IsFaithful}
use mynode.Sql.Ast.{DataType}
use mynode.Sql.Value.{Value, Row}
use mynode.Sql.Schema.{Column, Table}
use mynode.Tests.Disk.{char_of, char_of-code}

record Wire (A : Type 0) : Type 0 where
  write : A → Bytes → Bytes
  read : Bytes → Result (A × Bytes)
  read-write : (a : A) (rest : Bytes) → read (write a rest) ≡ ok (a, rest)
  write-append : (a : A) (rest : Bytes) → write a rest ≡ write a [] ++ rest

short : {A : Type 0} → Result A
short = err (parse "short")

read_number : Bytes → Result (ℕ × Bytes)
unfolding short
read_number [] = short
read_number (n ∷ rest) = ok (n, rest)

number : Wire ℕ
unfolding read_number
number = record {
  write = λ n rest. n ∷ rest;
  read = read_number;
  read-write = λ n rest. refl;
  write-append = λ n rest. refl;
}

write_chars : String → Bytes → Bytes
write_chars String.[] rest = rest
write_chars (String.◌∷◌ c s) rest = code c ∷ write_chars s rest

read_chars : ℕ → Bytes → Result (String × Bytes)
unfolding short
read_chars zero rest = ok ("", rest)
read_chars (suc n) [] = short
read_chars (suc n) (c ∷ rest) =
    and_then (char_of c) λ c. and_then (read_chars n rest) λ (s, rest). ok (String.◌∷◌ c s, rest)

read-write_chars :
    (s : String) (rest : Bytes) → read_chars (size s) (write_chars s rest) ≡ ok (s, rest)
unfolding write_chars read_chars
read-write_chars String.[] rest = refl
read-write_chars (String.◌∷◌ c s) rest = rw (char_of-code c) (rw (read-write_chars s rest) refl)

write_chars-append : (s : String) (rest : Bytes) → write_chars s rest ≡ write_chars s [] ++ rest
unfolding write_chars
write_chars-append String.[] rest = refl
write_chars-append (String.◌∷◌ c s) rest = ap (λ bytes. code c ∷ bytes) (write_chars-append s rest)

read_text : Bytes → Result (String × Bytes)
unfolding read_chars short
read_text [] = short
read_text (n ∷ rest) = read_chars n rest

text : Wire String
unfolding read_text write_chars read-write_chars
text = record {
  write = λ s rest. size s ∷ write_chars s rest;
  read = read_text;
  read-write = read-write_chars;
  write-append = λ s rest. ap (λ bytes. size s ∷ bytes) (write_chars-append s rest);
}

module _ {A B : Type 0} (a : Wire A) (b : Wire B) where
  pair : Wire (A × B)
  pair = record {
    write = λ (x, y) rest. a.write x (b.write y rest);
    read = λ bytes.
        and_then (a.read bytes) λ (x, rest). and_then (b.read rest) λ (y, rest). ok ((x, y), rest);
    read-write =
        λ (x, y) rest. rw (a.read-write x (b.write y rest)) (rw (b.read-write y rest) refl);
    write-append = λ (x, y) rest.
        a.write-append x (b.write y rest)
        ∙ ap (λ bytes. a.write x [] ++ bytes) (b.write-append y rest)
        ∙ sym (append_assoc (a.write x []) (b.write y []) rest)
        ∙ ap (λ bytes. bytes ++ rest) (sym (a.write-append x (b.write y [])));
  }

module _ {A B : Type 0} (a : Wire A) where
  -- A type whose values are read off those of another.
  via : (to : A → Result B) (from : B → A) → ((y : B) → to (from y) ≡ ok y) → Wire B
  via to from law = record {
    write = λ y rest. a.write (from y) rest;
    read = λ bytes. and_then (a.read bytes) λ (x, rest). and_then (to x) λ y. ok (y, rest);
    read-write = λ y rest. rw (a.read-write (from y) rest) (rw (law y) refl);
    write-append = λ y rest. a.write-append (from y) rest;
  }

module _ {A : Type 0} (a : Wire A) where
  write_items : List A → Bytes → Bytes
  write_items [] rest = rest
  write_items (x ∷ xs) rest = a.write x (write_items xs rest)

  read_items : ℕ → Bytes → Result (List A × Bytes)
  read_items zero rest = ok ([], rest)
  read_items (suc n) rest =
      and_then (a.read rest)
        λ (x, rest). and_then (read_items n rest) λ (xs, rest). ok (x ∷ xs, rest)

  read-write_items :
      (xs : List A) (rest : Bytes) → read_items (length xs) (write_items xs rest) ≡ ok (xs, rest)
  unfolding write_items read_items
  read-write_items [] rest = refl
  read-write_items (x ∷ xs) rest =
      rw (a.read-write x (write_items xs rest)) (rw (read-write_items xs rest) refl)

  write_items-append :
      (xs : List A) (rest : Bytes) → write_items xs rest ≡ write_items xs [] ++ rest
  unfolding write_items
  write_items-append [] rest = refl
  write_items-append (x ∷ xs) rest =
      a.write-append x (write_items xs rest)
      ∙ ap (λ bytes. a.write x [] ++ bytes) (write_items-append xs rest)
      ∙ sym (append_assoc (a.write x []) (write_items xs []) rest)
      ∙ ap (λ bytes. bytes ++ rest) (sym (a.write-append x (write_items xs [])))

  read_list : Bytes → Result (List A × Bytes)
  unfolding read_items short
  read_list [] = short
  read_list (n ∷ rest) = read_items n rest

  list : Wire (List A)
  unfolding read_list write_items read-write_items
  list = record {
    write = λ xs rest. length xs ∷ write_items xs rest;
    read = read_list;
    read-write = read-write_items;
    write-append = λ xs rest. ap (λ bytes. length xs ∷ bytes) (write_items-append xs rest);
  }

  codec : Codec A
  codec = record {
    serialize = λ x. ok (a.write x []);
    deserialize = λ bytes. and_then (a.read bytes) λ (x, rest). ok x;
  }

  codec-IsFaithful : IsFaithful codec
  unfolding codec
  codec-IsFaithful = record {
    bytes = λ x. a.write x [];
    serialize_lem = λ x. refl;
    deserialize_lem = λ x. rw (a.read-write x []) refl;
  }

-- A value as its constructor's number, a number and a text.
Parts : Type 0
Parts = ℕ × (ℕ × String)

parts : Wire Parts
unfolding pair number text Parts
parts = pair number (pair number text)

value_parts : Value ℕ → Parts
unfolding Parts
value_parts Value.null = (0, (0, ""))
value_parts (Value.boolean false) = (1, (0, ""))
value_parts (Value.boolean true) = (1, (1, ""))
value_parts (Value.integer (pos n)) = (2, (n, ""))
value_parts (Value.integer (negsuc n)) = (3, (n, ""))
value_parts (Value.float n) = (4, (n, ""))
value_parts (Value.text s) = (5, (0, s))

value_of : Parts → Result (Value ℕ)
unfolding Parts short
value_of (zero, _) = ok Value.null
value_of (suc zero, (zero, _)) = ok (Value.boolean false)
value_of (suc zero, (suc _, _)) = ok (Value.boolean true)
value_of (suc (suc zero), (n, _)) = ok (Value.integer (pos n))
value_of (suc (suc (suc zero)), (n, _)) = ok (Value.integer (negsuc n))
value_of (suc (suc (suc (suc zero))), (n, _)) = ok (Value.float n)
value_of (suc (suc (suc (suc (suc _)))), (_, s)) = ok (Value.text s)

value_of-parts : (v : Value ℕ) → value_of (value_parts v) ≡ ok v
unfolding value_of value_parts
value_of-parts Value.null = refl
value_of-parts (Value.boolean false) = refl
value_of-parts (Value.boolean true) = refl
value_of-parts (Value.integer (pos n)) = refl
value_of-parts (Value.integer (negsuc n)) = refl
value_of-parts (Value.float n) = refl
value_of-parts (Value.text s) = refl

type_number : DataType → ℕ
type_number DataType.boolean = 0
type_number DataType.integer = 1
type_number DataType.float = 2
type_number DataType.text = 3

type_of : ℕ → DataType
type_of zero = DataType.boolean
type_of (suc zero) = DataType.integer
type_of (suc (suc zero)) = DataType.float
type_of _ = DataType.text

type_of-number : (t : DataType) → type_of (type_number t) ≡ t
unfolding type_of type_number
type_of-number DataType.boolean = refl
type_of-number DataType.integer = refl
type_of-number DataType.float = refl
type_of-number DataType.text = refl

bit : Bool → ℕ
bit false = 0
bit true = 1

is_set : ℕ → Bool
is_set zero = false
is_set (suc _) = true

is_set-bit : (b : Bool) → is_set (bit b) ≡ b
unfolding is_set bit
is_set-bit false = refl
is_set-bit true = refl

column : Wire Column
unfolding parts pair via Parts
column =
    via parts
      (λ (t, (n, name)). ok (record { name = name; datatype = type_of t; nullable = is_set n }))
      (λ c. (type_number c.datatype, (bit c.nullable, c.name)))
      (λ c. rw (type_of-number c.datatype, is_set-bit c.nullable) refl)

table : Wire Table
unfolding pair text list via
table =
    via (pair text (pair text (list column)))
      (λ (name, (key, columns)). ok (record { name = name; columns = columns; primary_key = key }))
      (λ t. (t.name, (t.primary_key, t.columns))) (λ t. refl)

pub table_codec : Codec Table
unfolding codec table list
table_codec = codec table

pub table-IsFaithful : IsFaithful table_codec
unfolding table_codec
table-IsFaithful = codec-IsFaithful table

pub row_codec : Codec (Row ℕ)
unfolding codec list
row_codec = codec (list (via parts value_of value_parts value_of-parts))

pub row-IsFaithful : IsFaithful row_codec
unfolding row_codec
row-IsFaithful = codec-IsFaithful (list (via parts value_of value_parts value_of-parts))

pair_of : Wire KvPair
unfolding pair text
pair_of = pair text (list number)

mutation : Wire Mutation
unfolding pair number
mutation = via (pair number pair_of) mutation_of mutation_parts law
  where
    mutation_parts : Mutation → ℕ × KvPair
    mutation_parts (delete_key k) = (0, (k, []))
    mutation_parts (set_key k v) = (1, (k, v))

    mutation_of : ℕ × KvPair → Result Mutation
    mutation_of (zero, (k, _)) = ok (delete_key k)
    mutation_of (suc _, (k, v)) = ok (set_key k v)

    law : (m : Mutation) → mutation_of (mutation_parts m) ≡ ok m
    law (delete_key k) = refl
    law (set_key k v) = refl

read_command : Wire Read
unfolding pair number text
read_command = via (pair number text) read_of read_parts law
  where
    read_parts : Read → ℕ × String
    read_parts (get_key k) = (0, k)
    read_parts (naive_lower_bound k) = (1, k)

    read_of : ℕ × String → Result Read
    read_of (zero, k) = ok (get_key k)
    read_of (suc _, k) = ok (naive_lower_bound k)

    law : (m : Read) → read_of (read_parts m) ≡ ok m
    law (get_key k) = refl
    law (naive_lower_bound k) = refl

item : Wire (Option Bytes)
unfolding list number
item = via (list (list number)) item_of item_parts law
  where
    item_parts : Option Bytes → List Bytes
    item_parts none = []
    item_parts (some b) = b ∷ []

    item_of : List Bytes → Result (Option Bytes)
    item_of [] = ok none
    item_of (b ∷ _) = ok (some b)

    law : (m : Option Bytes) → item_of (item_parts m) ≡ ok m
    law none = refl
    law (some b) = refl

pub codecs : Codecs
unfolding codec mutation read_command item pair_of list
codecs = record {
  mutation = codec mutation;
  read = codec read_command;
  item = codec item;
  pairs = codec (list pair_of);
}

pub codecs-IsSound : IsSound codecs
unfolding codecs
codecs-IsSound = record {
  mutation = codec-IsFaithful mutation;
  read = codec-IsFaithful read_command;
  item = codec-IsFaithful item;
  pairs = codec-IsFaithful (list pair_of);
}

-- A file of bytes: a map is written over its start.
pub device : Device Bytes
unfolding list pair_of
device = record {
  len = λ d. ok (length d);
  decode = λ d. and_then ((list pair_of).read d) λ (m, rest). ok m;
  write = λ m d. let bytes = (list pair_of).write m [] in (ok tt, bytes ++ drop (length bytes) d);
}

pub device-IsReliable : IsReliableDevice device
unfolding device list
device-IsReliable = record {
  contents = λ d. d;
  bytes = λ m. (list pair_of).write m [];
  some_bytes = λ m. omega arith;
  len_lem = λ d. refl;
  write_lem = λ m d. refl;
  contents-write = λ m d. refl;
  decode_lem = λ m rest d held.
      rw (held ∙ sym ((list pair_of).write-append m rest))
        (rw ((list pair_of).read-write m rest) refl);
}
