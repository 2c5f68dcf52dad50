-- ===== src/Raft/Node.antt =====
-- raft/node/mod.rs: a node of the cluster, over its platform, with what its three roles share.
pub mod Roles
pub mod Follower
pub mod Leader
pub mod Candidate
pub mod Machine
pub mod Quorum
pub mod Keeps
pub mod Votes
pub mod Stale
pub mod Elections
pub mod Waits
pub mod Advances
use mynode.Base.{
  ℕ, zero, suc, ◌+◌, ◌/◌, ◌*◌, String, Bool, true, false, Option, none, some, List, [], ◌∷◌, length,
  if◌then◌else◌,
}
use mynode.Base.Result.{Result, ok, err, Exec, continue, ◌>>=◌, ◌>>◌, pure, modify}
use mynode.Store.{Bytes}
use mynode.Raft.Disk.{Disk}
use mynode.Raft.Log.{Log}
use mynode.Raft.Log.Term as LogTerm
use mynode.Raft.Log.Apply.{StateMachine}
use mynode.Raft.Calls.{Call}
use mynode.Raft.Message.{Event, Message, normalize, validate}

abbrev pub heartbeat_interval : ℕ
heartbeat_interval = 1

abbrev pub election_timeout_min : ℕ
election_timeout_min = 8 * heartbeat_interval

abbrev pub election_timeout_max : ℕ
election_timeout_max = 15 * heartbeat_interval

-- What a node runs on: the store and serialization of its log, the state machine, the channel to
-- which it sends (crossbeam's), the random numbers of its thread (rand's), and the texts that `{:?}`
-- makes.
pub record Platform : Type 1 where
  pub Kv : Type 0
  pub Sm : Type 0
  pub Channel : Type 0
  pub Rng : Type 0
  pub disk : Disk Kv
  pub machine : StateMachine Sm
  pub send : Message → Exec Channel (Unit {0})
  pub gen_range : ℕ → ℕ → Rng → ℕ × Rng
  pub debug_event : Event → String
  pub debug_call : Call → String

pub record RoleNode (P : Platform) (R : Type 0) : Type 0 where
  pub id : String
  pub peers : List String
  pub term : ℕ
  pub log : Log P.Kv
  pub state : P.Sm
  pub sender : P.Channel
  pub rng : P.Rng
  pub role : R

module _ {P : Platform} where
  -- Methods of the log, on `self.log`, and of the log and the state machine.
  abbrev pub on_log : {R A : Type 0} → Exec (Log P.Kv) A → Exec (RoleNode P R) A
  on_log m n = let r = m n.log in (r.0, record n { log = r.1 })

  abbrev pub on_log_state : {R A : Type 0} → Exec (Log P.Kv × P.Sm) A → Exec (RoleNode P R) A
  on_log_state m n = let r = m (n.log, n.state) in (r.0, record n { log = r.1.0; state = r.1.1 })

  abbrev pub become_role : {R T : Type 0} → T → RoleNode P R → RoleNode P T
  become_role role n = record {
    id = n.id;
    peers = n.peers;
    term = n.term;
    log = n.log;
    state = n.state;
    sender = n.sender;
    rng = n.rng;
    role = role;
  }

  -- `gen_range(ELECTION_TIMEOUT_MIN..ELECTION_TIMEOUT_MAX)`, for a role that is made of it.
  abbrev pub with_timeout : {R T : Type 0} → (ℕ → T) → RoleNode P R → RoleNode P T
  with_timeout make n =
      let r = P.gen_range election_timeout_min election_timeout_max n.rng in
      become_role (make r.0) (record n { rng = r.1 })

  module _ {R : Type 0} where
    unfoldable pub send : Option String → Event → Exec (RoleNode P R) (Unit {0})
    send to event n =
        let r =
          P.send (record { term = n.term; sender = some n.id; receiver = to; event = event })
            n.sender in
        (r.0, record n { sender = r.1 })

    send_all : List String → Event → Exec (RoleNode P R) (Unit {0})
    send_all [] event = pure tt
    send_all (peer ∷ peers) event = send (some peer) event >> send_all peers event

    pub broadcast : Event → Exec (RoleNode P R) (Unit {0})
    broadcast event n = send_all n.peers event n

    -- The normalized message, and whether it is valid.
    unfoldable pub normalize_message : Message → RoleNode P R → Message × Bool
    normalize_message msg n =
        let m = normalize n.id n.term msg in
        (m, elim (validate P.debug_event n.id n.term m) [ ok _ ↦ true | err _ ↦ false ])

    -- More than half of the cluster, the peers and the node itself.
    unfoldable pub quorum : RoleNode P R → ℕ
    quorum n = (length n.peers + 1) / 2 + 1

    unfoldable pub save_term : ℕ → Option String → Exec (RoleNode P R) (Unit {0})
    save_term term voted_for =
        on_log (LogTerm.save_term P.disk term voted_for) >> modify (λ n. record n { term = term })
