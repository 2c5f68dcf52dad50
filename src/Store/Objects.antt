-- ===== src/Store/Objects.antt =====
-- store/mod.rs: `get_obj` and `set_obj`, which store what is serialized.
use mynode.Base.{String, ◌≡◌, refl, Bool, true, false, Option, none, some, if◌then◌else◌, str_eq}
use mynode.Base.Result.{Result, ok, Exec, and_then, ◌>>=◌, lift}
use mynode.Store.{Bytes, Store, IsLawful}
use mynode.Serializer.{Codec, IsFaithful}

module _ {Kv V : Type 0} (store : Store Kv) (codec : Codec V) where
  unfoldable pub found : Option Bytes → Result (Option V)
  found none = ok none
  found (some v) = and_then (codec.deserialize v) λ value. ok (some value)

  unfoldable pub get_obj : String → Kv → Result (Option V)
  unfolding found
  get_obj key s = and_then (store.get key s) found

  unfoldable pub set_obj : String → V → Exec Kv (Unit {0})
  set_obj key value = lift (codec.serialize value) >>= λ buffer. store.set key buffer

module _ {Kv V : Type 0} {store : Store Kv} {codec : Codec V} (lawful : IsLawful store)
    (faithful : IsFaithful codec) where
  -- The store after an object is set.
  abbrev pub after_set : String → V → Kv → Kv
  after_set key value s = (store.set key (faithful.bytes value) s).1

  pub set_obj_lem :
      (key : String) (value : V) (s : Kv)
      → set_obj store codec key value s ≡ (ok tt, after_set key value s)
  unfolding set_obj
  set_obj_lem key value s =
      rw (faithful.serialize_lem value) (rw (lawful.set_ok key (faithful.bytes value) s))

  found_at :
      (same : Bool) (value : V) (old : Option Bytes)
      → found store codec (if same then some (faithful.bytes value) else old)
        ≡ (if same then ok (some value) else found store codec old)
  unfolding found
  found_at true value old = rw (faithful.deserialize_lem value)
  found_at false value old = refl

  -- An object is read under the key it was set to, and what is under other keys is as before.
  pub get_obj-set_obj :
      (key other : String) (value : V) (s : Kv)
      → get_obj store codec other (set_obj store codec key value s).1
        ≡ (if str_eq key other then ok (some value) else get_obj store codec other s)
  unfolding get_obj
  get_obj-set_obj key other value s = rw (set_obj_lem key value s) (
      rw (lawful.get_lem other (after_set key value s)) (
        rw (lawful.contents-set key (faithful.bytes value) s other) (
          rw (lawful.get_lem other s)
            (found_at (str_eq key other) value (lawful.contents s other)))))
