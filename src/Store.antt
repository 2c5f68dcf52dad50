-- ===== src/Store.antt =====
-- store/mod.rs: the trait `Store`, and what its callers rely on.
pub mod KvMemory
pub mod File
pub mod Raft
pub mod Objects
pub mod Iter
use mynode.Base.{ℕ, String, ◌≡◌, Option, none, some, List, if◌then◌else◌, str_eq}
use mynode.Base.Result.{Result, ok, Exec}

abbrev pub Bytes : Type 0
Bytes = List ℕ

abbrev pub KvPair : Type 0
KvPair = String × Bytes

-- `iter_prefix` gives the items that the iterator yields, in their order.
pub record Store (Kv : Type 0) : Type 0 where
  pub delete : String → Exec Kv (Unit {0})
  pub get : String → Kv → Result (Option Bytes)
  pub set : String → Bytes → Exec Kv (Unit {0})
  pub iter_prefix : String → Kv → List (Result KvPair)

-- A store that does not fail and reads back what was written: `contents` is what it holds.
pub record IsLawful {Kv : Type 0} (st : Store Kv) : Type 0 where
  pub contents : Kv → String → Option Bytes
  pub get_lem : (k : String) (s : Kv) → st.get k s ≡ ok (contents s k)
  pub set_ok : (k : String) (v : Bytes) (s : Kv) → (st.set k v s).0 ≡ ok tt
  pub contents-set :
      (k : String) (v : Bytes) (s : Kv) (j : String)
      → contents (st.set k v s).1 j ≡ (if str_eq k j then some v else contents s j)
  pub delete_ok : (k : String) (s : Kv) → (st.delete k s).0 ≡ ok tt
  pub contents-delete :
      (k : String) (s : Kv) (j : String)
      → contents (st.delete k s).1 j ≡ (if str_eq k j then none else contents s j)
