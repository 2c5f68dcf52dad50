-- ===== src/Raft/Message.antt =====
-- raft/transport.rs: the messages between the nodes, and what a node accepts.
use mynode.Base.{
  ℕ, String, Bool, true, false, Option, none, some, List, [], ◌∷◌, ltb, ◌==◌, str_eq, if◌then◌else◌,
}
use mynode.Base.Text.{to_string, format}
use mynode.Base.Result.{Result, ok, err, network}
use mynode.Store.{Bytes}
use mynode.Raft.Disk.{Entry}

pub data Event : Type 0 where
  -- the commit index and the commit term
  heartbeat : ℕ → ℕ → Event
  -- the commit index, and whether the sender has that entry
  confirm_leader : ℕ → Bool → Event
  -- the last index and the last term
  solicit_vote : ℕ → ℕ → Event
  grant_vote : Event
  -- the base index, the base term and the entries
  replicate_entries : ℕ → ℕ → List Entry → Event
  -- the last index
  accept_entries : ℕ → Event
  reject_entries : Event
  -- the call ID, and the command or the response
  read_state mutate_state respond_state : Bytes → Bytes → Event
  respond_error : Bytes → String → Event

abbrev pub call_id : Event → Option Bytes
call_id (read_state id _) = some id
call_id (mutate_state id _) = some id
call_id (respond_state id _) = some id
call_id (respond_error id _) = some id
call_id _ = none

pub record Message : Type 0 where
  pub term : ℕ
  pub sender : Option String
  pub receiver : Option String
  pub event : Event

abbrev pub is_none {ℓ} : {A : Type ℓ} → Option A → Bool
is_none none = true
is_none (some _) = false

-- A message of the local caller is addressed to the node, in its term.
unfoldable pub normalize : String → ℕ → Message → Message
normalize node_id term m =
    if is_none m.sender
    then (if is_none m.receiver
        then record m { receiver = some node_id; term = if m.term == 0 then term else m.term }
        else m)
    else m

-- The receiver is the node.
unfoldable pub validate_receiver : String → Option String → Result (Unit {0})
validate_receiver node_id none = err (network "Ignoring message for local client")
validate_receiver node_id (some to) =
    if str_eq to node_id
    then ok tt
    else err (network (format ("Ignoring message for other node " ∷ to ∷ [])))

-- `debug` is the text that `{:?}` makes of an event.
unfoldable pub validate : (Event → String) → String → ℕ → Message → Result (Unit {0})
unfolding validate_receiver
validate debug node_id term m =
    if is_none m.sender
    then (if is_none (call_id m.event)
        then err (network (format ("Received local non-call event: " ∷ debug m.event ∷ [])))
        else if ltb m.term term
        then err (network (format ("Ignoring message from stale term " ∷ to_string m.term ∷ [])))
        else validate_receiver node_id m.receiver)
    else if ltb m.term term
    then err (network (format ("Ignoring message from stale term " ∷ to_string m.term ∷ [])))
    else validate_receiver node_id m.receiver
