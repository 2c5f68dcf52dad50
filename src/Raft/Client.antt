-- ===== src/Raft/Client.antt =====
-- raft/mod.rs: the calls of `Raft`, which another thread answers. Sending a call and waiting for its
-- response, and the new call ID (uuid's), are parameters.
use mynode.Base.{String, [], ◌∷◌}
use mynode.Base.Text.{format}
use mynode.Base.Result.{network, internal, Exec, ◌>>=◌, pure, raise}
use mynode.Store.{Bytes}
use mynode.Raft.Message.{Event, read_state, mutate_state, respond_state, respond_error}

-- `ask` sends a call with a channel for its response and receives from that channel.
pub record Thread (S : Type 0) : Type 0 where
  pub new_v4 : S → Bytes × S
  pub ask : Event → Exec S Event
  pub debug_event : Event → String

module _ {S : Type 0} (thread : Thread S) where
  answered : Event → Exec S Event
  answered (respond_error id error) = raise (network error)
  answered e = pure e

  unfoldable call : Event → Exec S Event
  unfolding answered
  call event = thread.ask event >>= answered

  mutated : Event → Exec S Bytes
  mutated (respond_state id response) = pure response
  mutated event =
      raise (internal (format ("Unexpected Raft mutate response " ∷ thread.debug_event event ∷ [])))

  pub mutate : Bytes → Exec S Bytes
  unfolding mutated
  mutate command s = let r = thread.new_v4 s in (call (mutate_state r.0 command) >>= mutated) r.1

  was_read : Event → Exec S Bytes
  was_read (respond_state id response) = pure response
  was_read event =
      raise (internal (format ("Unexpected Raft read response " ∷ thread.debug_event event ∷ [])))

  unfoldable read : Bytes → Exec S Bytes
  unfolding was_read
  read command s = let r = thread.new_v4 s in (call (read_state r.0 command) >>= was_read) r.1
