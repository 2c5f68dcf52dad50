-- ===== src/Serializer.antt =====
-- serializer.rs: `serialize` and `deserialize` at one type. Serialization itself is rmp_serde's, a
-- package, so each type's pair of functions is a parameter.
use mynode.Base.{◌≡◌}
use mynode.Base.Result.{Result, ok}
use mynode.Store.{Bytes}

pub record Codec (V : Type 0) : Type 0 where
  pub serialize : V → Result Bytes
  pub deserialize : Bytes → Result V

-- What is serialized deserializes to the same value.
pub record IsFaithful {V : Type 0} (c : Codec V) : Type 0 where
  pub bytes : V → Bytes
  pub serialize_lem : (v : V) → c.serialize v ≡ ok (bytes v)
  pub deserialize_lem : (v : V) → c.deserialize (bytes v) ≡ ok v
