-- ===== src/Handlers/KvTest.antt =====
-- handlers/kvtest.rs: a service that gets and sets texts in a store. The lock around the store is never
-- poisoned.
use mynode.Base.{String, ◌≡◌, refl, Bool, true, false, Option, none, some, if◌then◌else◌, str_eq}
use mynode.Base.Result.{Error, Result, ok, err, not_found}
use mynode.Store.{Store, IsLawful}
use mynode.Store.Objects.{get_obj, set_obj, set_obj_lem, get_obj-set_obj}
use mynode.Serializer.{Codec, IsFaithful}
use mynode.Handlers.Store.{display}

-- `SingleResponse`: the response, or the text of the error.
pub data SingleResponse (A : Type 0) : Type 0 where
  completed : A → SingleResponse A
  refused : String → SingleResponse A

pub record GetResponse : Type 0 where
  pub key : String
  pub value : String

pub record SetResponse : Type 0 where
  pub key : String
  pub value : String

-- `error_response`.
unfoldable pub error_response : {A : Type 0} → Error → SingleResponse A
unfolding display
error_response e = refused (display e)

module _ {Kv : Type 0} (store : Store Kv) (codec : Codec String) where
  unfoldable pub get_response : String → Result (Option String) → SingleResponse GetResponse
  unfolding error_response
  get_response key (err e) = error_response e
  get_response key (ok none) = error_response not_found
  get_response key (ok (some value)) = completed (record { key = key; value = value })

  unfoldable pub get : String → Kv → SingleResponse GetResponse
  unfolding get_response
  get key s = get_response key (get_obj store codec key s)

  unfoldable pub set_response : String → String → Result (Unit {0}) → SingleResponse SetResponse
  unfolding error_response
  set_response key value (err e) = error_response e
  set_response key value (ok _) = completed (record { key = key; value = value })

  unfoldable pub set : String → String → Kv → SingleResponse SetResponse × Kv
  unfolding set_response
  set key value s = let r = set_obj store codec key value s in (set_response key value r.0, r.1)

module _ {Kv : Type 0} {store : Store Kv} {codec : Codec String} (lawful : IsLawful store)
    (faithful : IsFaithful codec) where
  response_at :
      (same : Bool) (value other : String) (old : Result (Option String))
      → get_response store codec other (if same then ok (some value) else old) ≡ (
          if same
          then completed (record { key = other; value = value })
          else get_response store codec other old)
  unfolding get_response
  response_at true value other old = refl
  response_at false value other old = refl

  -- Setting a key answers with the key and the value; getting that key then answers with the
  -- value, and getting another key answers as before. This is for a store and a serialization that
  -- keep their laws.
  pub get-set :
      (key value other : String) (s : Kv)
      → ((set store codec key value s).0 ≡ completed (record { key = key; value = value }))
        × (get store codec other (set store codec key value s).1 ≡ (
            if str_eq key other
            then completed (record { key = other; value = value })
            else get store codec other s))
  unfolding get set set_response
  get-set key value other s = (
    rw (set_obj_lem lawful faithful key value s) refl,
    rw (get_obj-set_obj lawful faithful key other value s)
        (response_at (str_eq key other) value other (get_obj store codec other s)),
  )
