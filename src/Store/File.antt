-- ===== src/Store/File.antt =====
-- store/file.rs: the store in a file: all data in memory, written to the file as a whole after every
-- change. The file and rmp_serde are parameters.
use mynode.Base.{
  ℕ, String, ◌≡◌, refl, ap, ◌∙◌, Bool, true, false, Option, none, some, List, [], ◌++◌, length,
  drop, arith, length-append, ltb, ◌<◌, lt→ltb, if◌then◌else◌, str_eq,
}
use mynode.Base.Result.{Result, ok, and_then, Exec}
use mynode.Store.{Bytes, KvPair, Store, IsLawful}
use mynode.Store.KvMemory.{
  KvMemory, map_get, map_insert, map_remove, map_get-insert, map_get-remove,
}
use mynode.Store.KvMemory as KvMemory

-- A file: its length, the map that is read from it, and writing a map to its start.
pub record Device (D : Type 0) : Type 0 where
  pub len : D → Result ℕ
  pub decode : D → Result (List KvPair)
  pub write : List KvPair → Exec D (Unit {0})

-- A device that takes every write: the serialization of the map lies over the start of what the file
-- held, and nothing is cut off. Deserializing reads one value from the start of the file.
pub record IsReliable {D : Type 0} (device : Device D) : Type 0 where
  pub contents : D → Bytes
  pub bytes : List KvPair → Bytes
  pub some_bytes : (m : List KvPair) → 0 < length (bytes m)
  pub len_lem : (d : D) → device.len d ≡ ok (length (contents d))
  pub write_lem : (m : List KvPair) (d : D) → (device.write m d).0 ≡ ok tt
  pub contents-write :
      (m : List KvPair) (d : D)
      → contents (device.write m d).1 ≡ bytes m ++ drop (length (bytes m)) (contents d)
  pub decode_lem :
      (m : List KvPair) (rest : Bytes) (d : D)
      → contents d ≡ bytes m ++ rest
      → device.decode d ≡ ok m

pub record File (D : Type 0) : Type 0 where
  pub file : D
  pub map : List KvPair

ok_if : {A : Type 0} (b : Bool) (x y : A) → ok (if b then x else y) ≡ (if b then ok x else ok y)
ok_if true x y = refl
ok_if false x y = refl

module _ {D : Type 0} (device : Device D) where
  unfoldable pub new : D → Result (File D)
  new file = and_then (device.len file) λ n.
      and_then (if ltb 0 n then device.decode file else ok [])
        λ m. ok (record { file = file; map = m })

  unfoldable pub flush : Exec (File D) (Unit {0})
  flush s = let r = device.write s.map s.file in (r.0, record { file = r.1; map = s.map })

  unfoldable pub delete : String → Exec (File D) (Unit {0})
  unfolding flush
  delete key s = flush (record { file = s.file; map = map_remove key s.map })

  unfoldable pub get : String → File D → Result (Option Bytes)
  get key s = ok (map_get key s.map)

  unfoldable pub set : String → Bytes → Exec (File D) (Unit {0})
  unfolding flush
  set key value s = flush (record { file = s.file; map = map_insert key value s.map })

  unfoldable pub iter_prefix : String → File D → List (Result KvPair)
  iter_prefix prefix s = KvMemory.iter_prefix prefix (record { pairs = s.map })

  unfoldable pub file_store : Store (File D)
  unfolding delete get set iter_prefix
  file_store = record { delete = delete; get = get; set = set; iter_prefix = iter_prefix }

  -- On a device that takes every write, the store in a file does not fail and reads back what was
  -- written.
  unfoldable pub file_store-IsLawful : IsReliable device → IsLawful file_store
  unfolding file_store
  file_store-IsLawful reliable = record {
    contents = λ s k. map_get k s.map;
    get_lem = λ k s. refl;
    set_ok = λ k v s. reliable.write_lem _ _;
    contents-set = λ k v s j. map_get-insert k v s.map j;
    delete_ok = λ k s. reliable.write_lem _ _;
    contents-delete = λ k s j. map_get-remove k s.map j;
  }

  -- Whether the write to the file succeeds or fails, the change is made in memory: after `set` the key
  -- reads as the value, after `delete` it is gone, and all other keys read as before.
  pub get-changed :
      (key : String) (value : Bytes) (s : File D) (other : String)
      → (get other (set key value s).1
          ≡ (if str_eq key other then ok (some value) else get other s))
        × (get other (delete key s).1 ≡ (if str_eq key other then ok none else get other s))
  unfolding set delete get
  get-changed key value s other = (
    ap ok (map_get-insert key value s.map other)
        ∙ ok_if (str_eq key other) (some value) (map_get other s.map),
    ap ok (map_get-remove key s.map other) ∙ ok_if (str_eq key other) none (map_get other s.map),
  )

  new-flush : IsReliable device → (s : File D) → new (flush s).1.file ≡ ok (flush s).1
  unfolding new flush
  new-flush reliable s =
      let d = (device.write s.map s.file).1 in
      let bytes = reliable.bytes s.map in
      let rest = drop (length bytes) (reliable.contents s.file) in
      let held : reliable.contents d ≡ bytes ++ rest = reliable.contents-write s.map s.file in
      let positive : 0 < length (reliable.contents d) =
        omega (arith, reliable.some_bytes s.map, ap length held, length-append {0} bytes rest) in
      rw
        (
          reliable.len_lem d,
          lt→ltb 0 (length (reliable.contents d)) positive,
          reliable.decode_lem s.map rest d held,
        )
        refl

  -- After a key was set, a file that is opened again reads the value under that key, and after it
  -- was deleted, nothing; every other key reads as in the store that wrote the file. The device
  -- takes every write, which lies over the start of what the file held without cutting off the
  -- rest, and deserializing reads one value from the start.
  pub new-written :
      IsReliable device
      → (key : String) (value : Bytes) (s : File D) (other : String)
      → (and_then (new (set key value s).1.file) (get other)
          ≡ (if str_eq key other then ok (some value) else get other s))
        × (and_then (new (delete key s).1.file) (get other)
            ≡ (if str_eq key other then ok none else get other s))
  unfolding set delete
  new-written reliable key value s other =
      let (kept, gone) = get-changed key value s other in
      (
        rw (new-flush reliable (record { file = s.file; map = map_insert key value s.map })) kept,
        rw (new-flush reliable (record { file = s.file; map = map_remove key s.map })) gone,
      )
