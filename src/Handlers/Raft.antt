-- ===== src/Handlers/Raft.antt =====
-- handlers/raft.rs: the messages of the nodes as Protobuf messages, and the transport. The types of
-- the Protobuf messages are those of protobuf/raft.proto.
use mynode.Base.{
  ℕ, String, ◌≡◌, refl, ap, Bool, Option, none, some, List, [], ◌∷◌, map, if◌then◌else◌,
}
use mynode.Base.Text.{format}
use mynode.Base.Result.{Result, ok, err, network}
use mynode.Base.Outcome.{Outcome, returned, or_panic}
use mynode.Base.Outcome as Outcome
use mynode.Store.{Bytes}
use mynode.Raft.Disk.{Entry}
use mynode.Raft.Message.{Event, Message}

pub record ProtoEntry : Type 0 where
  pub term : ℕ
  pub command : Bytes

pub data ProtoEvent : Type 0 where
  heartbeat solicit_vote : ℕ → ℕ → ProtoEvent
  confirm_leader : ℕ → Bool → ProtoEvent
  grant_vote reject_entries : ProtoEvent
  read_state mutate_state respond_state : Bytes → Bytes → ProtoEvent
  respond_error : Bytes → String → ProtoEvent
  replicate_entries : ℕ → ℕ → List ProtoEntry → ProtoEvent
  accept_entries : ℕ → ProtoEvent

pub record ProtoMessage : Type 0 where
  pub term : ℕ
  pub sender : String
  pub receiver : String
  pub event : Option ProtoEvent

-- An empty command is no command.
abbrev some_command : Bytes → Option Bytes
some_command [] = none
some_command (b ∷ bytes) = some (b ∷ bytes)

abbrev command_bytes : Option Bytes → Bytes
command_bytes none = []
command_bytes (some bytes) = bytes

abbrev pub entry_from_protobuf : ProtoEntry → Entry
entry_from_protobuf e = record { term = e.term; command = some_command e.command }

abbrev pub entry_to_protobuf : Entry → ProtoEntry
entry_to_protobuf e = record { term = e.term; command = command_bytes e.command }

unfoldable pub event_from_protobuf : ProtoEvent → Event
event_from_protobuf (ProtoEvent.heartbeat index term) = Event.heartbeat index term
event_from_protobuf (ProtoEvent.confirm_leader index has) = Event.confirm_leader index has
event_from_protobuf (ProtoEvent.solicit_vote index term) = Event.solicit_vote index term
event_from_protobuf ProtoEvent.grant_vote = Event.grant_vote
event_from_protobuf (ProtoEvent.read_state id command) = Event.read_state id command
event_from_protobuf (ProtoEvent.mutate_state id command) = Event.mutate_state id command
event_from_protobuf (ProtoEvent.respond_state id response) = Event.respond_state id response
event_from_protobuf (ProtoEvent.respond_error id error) = Event.respond_error id error
event_from_protobuf (ProtoEvent.replicate_entries index term entries) =
    Event.replicate_entries index term (map entry_from_protobuf entries)
event_from_protobuf (ProtoEvent.accept_entries index) = Event.accept_entries index
event_from_protobuf ProtoEvent.reject_entries = Event.reject_entries

with_event : ProtoMessage → Option ProtoEvent → Result Message
with_event pb none = err (network "No event found in protobuf message")
with_event pb (some e) = ok (record {
  term = pb.term;
  sender = some pb.sender;
  receiver = some pb.receiver;
  event = event_from_protobuf e;
})

unfoldable pub message_from_protobuf : ProtoMessage → Result Message
unfolding with_event event_from_protobuf
message_from_protobuf pb = with_event pb pb.event

unfoldable pub event_to_protobuf : Event → ProtoEvent
event_to_protobuf (Event.heartbeat index term) = ProtoEvent.heartbeat index term
event_to_protobuf (Event.confirm_leader index has) = ProtoEvent.confirm_leader index has
event_to_protobuf (Event.solicit_vote index term) = ProtoEvent.solicit_vote index term
event_to_protobuf Event.grant_vote = ProtoEvent.grant_vote
event_to_protobuf (Event.read_state id command) = ProtoEvent.read_state id command
event_to_protobuf (Event.mutate_state id command) = ProtoEvent.mutate_state id command
event_to_protobuf (Event.respond_state id response) = ProtoEvent.respond_state id response
event_to_protobuf (Event.respond_error id error) = ProtoEvent.respond_error id error
event_to_protobuf (Event.replicate_entries index term entries) =
    ProtoEvent.replicate_entries index term (map entry_to_protobuf entries)
event_to_protobuf (Event.accept_entries index) = ProtoEvent.accept_entries index
event_to_protobuf Event.reject_entries = ProtoEvent.reject_entries

-- `unwrap` panics where the message has no sender or no receiver.
unfoldable pub message_to_protobuf : Message → Outcome ProtoMessage
unfolding event_to_protobuf
message_to_protobuf m = Outcome.and_then (or_panic m.sender) λ sender.
    Outcome.and_then (or_panic m.receiver) λ receiver. returned (record {
      term = m.term;
      sender = sender;
      receiver = receiver;
      event = some (event_to_protobuf m.event);
    })

-- The transport's peers, and what becomes of a message: the peer that it is sent to, and as what. What
-- the peer answers is not looked at.
unfoldable pub send : (String → Bool) → Message → Outcome (String × ProtoMessage)
unfolding message_to_protobuf
send is_peer m = elim m.receiver [
  | none ↦ Outcome.failed (network "No receiver")
  | some to ↦
      if is_peer to
      then (Outcome.and_then (message_to_protobuf m) λ pb. returned (to, pb))
      else Outcome.failed (network (format ("Unknown Raft peer " ∷ to ∷ [])))
]

-- What a command becomes on its way: an empty one is lost.
abbrev pub carried_entry : Entry → Entry
carried_entry e = record { term = e.term; command = some_command (command_bytes e.command) }

abbrev pub carried : Event → Event
carried (Event.replicate_entries index term entries) =
    Event.replicate_entries index term (map carried_entry entries)
carried e = e

map-carried_entry :
    (entries : List Entry)
    → map entry_from_protobuf (map entry_to_protobuf entries) ≡ map carried_entry entries
map-carried_entry [] = refl
map-carried_entry (e ∷ entries) = ap (λ es. carried_entry e ∷ es) (map-carried_entry entries)

event_from-event_to : (e : Event) → event_from_protobuf (event_to_protobuf e) ≡ carried e
unfolding event_from_protobuf event_to_protobuf
event_from-event_to (Event.replicate_entries index term entries) =
    ap (Event.replicate_entries index term) (map-carried_entry entries)
event_from-event_to e = refl

-- A message with a sender and a receiver that is turned into a Protobuf message and back is as it
-- was, except that an entry with an empty command comes back as one without a command.
pub message_from-message_to :
    (m : Message) (sender receiver : String)
    → m.sender ≡ some sender
    → m.receiver ≡ some receiver
    → (pb : ProtoMessage) × (message_to_protobuf m ≡ returned pb)
      × (message_from_protobuf pb
          ≡ ok (record {
            term = m.term;
            sender = some sender;
            receiver = some receiver;
            event = carried m.event;
          }))
unfolding message_to_protobuf message_from_protobuf with_event
message_from-message_to m sender receiver h g = (
  record {
    term = m.term;
    sender = sender;
    receiver = receiver;
    event = some (event_to_protobuf m.event);
  },
  rw (message_to_protobuf, h, g) refl,
  ap (λ e. ok (record { term = m.term; sender = some sender; receiver = some receiver; event = e }))
      (event_from-event_to m.event),
)
