-- ===== src/Raft/Disk.antt =====
-- What the log stands on: a store, and serializer.rs at the types that the log stores.
use mynode.Base.{ℕ, String, Option}
use mynode.Store.{Bytes, Store, IsLawful}
pub use mynode.Serializer.{Codec, IsFaithful}

-- log.rs: `Entry`. A command of `none` is the no-op of a new leader.
pub record Entry : Type 0 where
  pub term : ℕ
  pub command : Option Bytes

pub record Disk (Kv : Type 0) : Type 0 where
  pub store : Store Kv
  pub number : Codec ℕ
  pub text : Codec String
  pub entry : Codec Entry

pub record IsSound {Kv : Type 0} (disk : Disk Kv) : Type 0 where
  pub store : IsLawful disk.store
  pub number : IsFaithful disk.number
  pub text : IsFaithful disk.text
  pub entry : IsFaithful disk.entry
