-- ===== src/Store/KvMemory.antt =====
-- store/kvmemory.rs: the store in memory, a `BTreeMap` behind a lock. The map is the list of its
-- pairs in the order of their keys. The lock is taken for one call at a time and is never poisoned,
-- so a call does not fail. Texts compare by code points, which is the order of their UTF-8 bytes.
use Prim.Native.Nat.{compare as compare_nat, Ordering}
use Prim.Native.Char.{Char, char, code}
use Prim.Native.String.{compare, then as lexicographic, ◌++◌ as ◌<>◌}
use Prim.Native.String.append as append_laws
use Prim.Native.String.compare as compare_laws
use text.Mathlib.Text.{is_lt}
use mynode.Base.{
  String, ◌≡◌, refl, ap, Bool, true, false, not, ◌&&◌, Option, none, some, List, [], ◌∷◌, ltb, ◌==◌,
  if◌then◌else◌, arith, str_eq, eq_iff, map,
}
use mynode.Base.Result.{Result, ok, Exec}
use mynode.Store.{Bytes, KvPair, Store, IsLawful}

pub record KvMemory : Type 0 where
  pub pairs : List KvPair

unfoldable pub map_get : String → List KvPair → Option Bytes
map_get k [] = none
map_get k ((j, v) ∷ m) = if str_eq j k then some v else map_get k m

unfoldable pub map_insert : String → Bytes → List KvPair → List KvPair
map_insert k v [] = (k, v) ∷ []
map_insert k v ((j, w) ∷ m) =
    if str_eq j k
    then (k, v) ∷ m
    else if is_lt (compare k j)
    then (k, v) ∷ (j, w) ∷ m
    else (j, w) ∷ map_insert k v m

unfoldable pub map_remove : String → List KvPair → List KvPair
map_remove k [] = []
map_remove k ((j, w) ∷ m) = let rest = map_remove k m in if str_eq j k then rest else (j, w) ∷ rest

-- `char::MAX`, as a text.
char_max : String
char_max = String.◌∷◌ (char 0x10FFFF tt) ""

-- `data.range(from..to)`: the keys that are not below `from`, and are below `to`.
in_range : String → String → String → Bool
in_range from to k = not (is_lt (compare k from)) && is_lt (compare k to)

map_range : String → String → List KvPair → List KvPair
map_range from to [] = []
map_range from to ((k, v) ∷ m) =
    let rest = map_range from to m in if in_range from to k then (k, v) ∷ rest else rest

pub get : String → KvMemory → Result (Option Bytes)
unfolding map_get
get k s = ok (map_get k s.pairs)

unfoldable pub set : String → Bytes → Exec KvMemory (Unit {0})
unfolding map_insert
set k v s = (ok tt, record { pairs = map_insert k v s.pairs })

pub delete : String → Exec KvMemory (Unit {0})
unfolding map_remove
delete k s = (ok tt, record { pairs = map_remove k s.pairs })

unfoldable pub iter_prefix : String → KvMemory → List (Result KvPair)
unfolding map_range in_range char_max
iter_prefix prefix s = map ok (map_range prefix (prefix <> char_max) s.pairs)

unfoldable pub kv_memory : Store KvMemory
unfolding get set delete iter_prefix
kv_memory = record { delete = delete; get = get; set = set; iter_prefix = iter_prefix }

pub map_get-insert :
    (k : String) (v : Bytes) (m : List KvPair) (j : String)
    → map_get j (map_insert k v m) ≡ (if str_eq k j then some v else map_get j m)
unfolding map_get map_insert
map_get-insert k v [] j = refl
map_get-insert k v ((i, w) ∷ m) j =
    ground (arith, map_get-insert k v m j, eq_iff k j, eq_iff i k, eq_iff i j)

pub map_get-remove :
    (k : String) (m : List KvPair) (j : String)
    → map_get j (map_remove k m) ≡ (if str_eq k j then none else map_get j m)
unfolding map_get map_remove
map_get-remove k [] j = ground arith
map_get-remove k ((i, w) ∷ m) j =
    ground (arith, map_get-remove k m j, eq_iff k j, eq_iff i k, eq_iff i j)

-- The store in memory does not fail, and reads back what was written.
unfoldable pub kv_memory-IsLawful : IsLawful kv_memory
unfolding kv_memory
kv_memory-IsLawful = record {
  contents = λ s k. map_get k s.pairs;
  get_lem = λ k s. refl;
  set_ok = λ k v s. refl;
  contents-set = λ k v s j. map_get-insert k v s.pairs j;
  delete_ok = λ k s. refl;
  contents-delete = λ k s j. map_get-remove k s.pairs j;
}

-- The key starts with the prefix, and does not go on with the greatest character.
unfoldable pub extends : String → String → Bool
extends String.[] String.[] = true
extends String.[] (String.◌∷◌ c k) = ltb (code c) 0x10FFFF
extends (String.◌∷◌ p ps) String.[] = false
extends (String.◌∷◌ p ps) (String.◌∷◌ c k) = (code p == code c) && extends ps k

pub compare-cons :
    (c d : Char) (s t : String)
    → compare (String.◌∷◌ c s) (String.◌∷◌ d t)
      ≡ lexicographic (compare_nat (code c) (code d)) (compare s t)
compare-cons c d s t = λ i. compare_laws.cons-cons c d s t i

compare-nil : (s : String) → is_lt (compare s "") ≡ false
compare-nil String.[] = refl
compare-nil (String.◌∷◌ c s) = ap is_lt (λ i. compare_laws.cons-nil c s i)

nil-compare : (d : Char) (t : String) → compare "" (String.◌∷◌ d t) ≡ Ordering.lt
nil-compare d t = λ i. compare_laws.nil-cons d t i

append-cons : (c : Char) (s t : String) → String.◌∷◌ c s <> t ≡ String.◌∷◌ c (s <> t)
append-cons c s t = λ i. append_laws.cons c s t i

in_range-extends : (p k : String) → in_range p (p <> char_max) k ≡ extends p k
unfolding in_range extends char_max
in_range-extends String.[] String.[] = refl
in_range-extends String.[] (String.◌∷◌ c k) =
    ground
      (arith, compare-cons c (char 0x10FFFF tt) k "", compare-nil k, compare-nil (String.◌∷◌ c k))
in_range-extends (String.◌∷◌ p ps) String.[] = rw (nil-compare p ps)
in_range-extends (String.◌∷◌ p ps) (String.◌∷◌ c k) =
    rw (append-cons p ps char_max, compare-cons c p k ps, compare-cons c p k (ps <> char_max))
      (ground (arith, in_range-extends ps k))

-- The keys and values in the order of the map whose key passes a test.
unfoldable pub keep : (String → Bool) → List KvPair → List KvPair
keep p [] = []
keep p ((k, v) ∷ m) = let rest = keep p m in if p k then (k, v) ∷ rest else rest

map_range-keep :
    (prefix : String) (m : List KvPair)
    → map_range prefix (prefix <> char_max) m ≡ keep (extends prefix) m
unfolding map_range keep
map_range-keep prefix [] = refl
map_range-keep prefix ((k, v) ∷ m) = rw (in_range-extends prefix k, map_range-keep prefix m)

-- Iterating over a prefix gives, in the order of the keys, exactly the pairs whose key starts with
-- the prefix and does not go on with the greatest character.
pub iter_prefix-extends :
    (prefix : String) (s : KvMemory) → iter_prefix prefix s ≡ map ok (keep (extends prefix) s.pairs)
unfolding iter_prefix
iter_prefix-extends prefix s = ap (map ok) (map_range-keep prefix s.pairs)
