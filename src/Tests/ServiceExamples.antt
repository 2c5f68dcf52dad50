-- ===== src/Tests/ServiceExamples.antt =====
-- The theorems of the stores and of the messages on the wire, at concrete inputs.
use mynode.Base.{◌≡◌, refl, ap, if◌then◌else◌, str_eq, none, some, [], ◌∷◌}
use mynode.Base.Result.{Result, ok, err, network, and_then}
use mynode.Base.Outcome.{returned}
use mynode.Store.{Bytes}
use mynode.Store.KvMemory.{KvMemory, kv_memory}
use mynode.Store.File.{File, new, get, set, delete, new-written}
use mynode.Store.Raft.{state, Serves}
use mynode.Store.Raft as RaftStore
use mynode.Raft.Message.{Event, Message}
use mynode.Handlers.Raft.{
  ProtoMessage, message_to_protobuf, message_from_protobuf, carried, message_from-message_to,
}
use mynode.Handlers.KvTest.{SingleResponse, completed, get-set}
use mynode.Handlers.KvTest as KvTest
use mynode.Store.KvMemory.{kv_memory-IsLawful}
use mynode.Tests.Disk.{disk, sound}
use mynode.Tests.Wire.{codecs, device, device-IsReliable}
use mynode.Raft.Log.Apply.{StateMachine}

-- A file that is longer than what will be written.
abbrev file : File Bytes
file = record {
  file = 9 ∷ 9 ∷ 9 ∷ 9 ∷ 9 ∷ 9 ∷ 9 ∷ 9 ∷ 9 ∷ 9 ∷ 9 ∷ 9 ∷ [];
  map = ("a", 1 ∷ []) ∷ [];
}

new-written_example :
    (and_then (new device (set device "b" (2 ∷ []) file).1.file) (get device "b")
      ≡ (if str_eq "b" "b" then ok (some (2 ∷ [])) else get device "b" file))
    × (and_then (new device (delete device "b" file).1.file) (get device "b")
        ≡ (if str_eq "b" "b" then ok none else get device "b" file))
new-written_example = new-written device device-IsReliable "b" (2 ∷ []) file "b"

abbrev kv : KvMemory
kv = record { pairs = ("a", 1 ∷ []) ∷ [] }

-- A cluster that stops for good where its state machine fails.
abbrev stop : Result Bytes → Result Bytes
stop (ok output) = ok output
stop (err e) = err (network "receiving on a closed channel")

abbrev cluster : StateMachine KvMemory
cluster = record {
  read = λ command s. stop ((state codecs kv_memory).read command s);
  mutate = λ command s. let r = (state codecs kv_memory).mutate command s in (stop r.0, r.1);
}

cluster-Serves : Serves cluster (state codecs kv_memory)
cluster-Serves = record {
  view = λ s. s;
  mutate_lem = λ command output s kv done. (ap stop (ap (λ p. p.0) done), ap (λ p. p.1) done);
  read_lem = λ command output s done. ap stop done;
}

abbrev message : Message
message = record {
  term = 1;
  sender = some "a";
  receiver = some "b";
  event = Event.replicate_entries 0 0 (record { term = 1; command = some (7 ∷ []) } ∷ []);
}

message_from-message_to_example :
    (pb : ProtoMessage) × (message_to_protobuf message ≡ returned pb)
    × (message_from_protobuf pb
        ≡ ok (record {
          term = 1;
          sender = some "a";
          receiver = some "b";
          event = carried message.event;
        }))
message_from-message_to_example = message_from-message_to message "a" "b" refl refl

get-set_example :
    ((KvTest.set kv_memory disk.text "b" "two" kv).0
      ≡ completed (record { key = "b"; value = "two" }))
    × (KvTest.get kv_memory disk.text "a" (KvTest.set kv_memory disk.text "b" "two" kv).1
        ≡ KvTest.get kv_memory disk.text "a" kv)
get-set_example = get-set kv_memory-IsLawful sound.text "b" "two" "a" kv
