-- ===== src/Tests/LoopExamples.antt =====
-- A cluster of one with a caller, and the theorems of the event loop at it.
use mynode.Base.{ℕ, refl, List, [], ◌∷◌, ◌++◌, arith}
use mynode.Base.Result.{ok}
use mynode.Raft.Message.{Event, read_state, mutate_state, respond_state}
use mynode.Raft.Node.{RoleNode}
use mynode.Raft.Node.Roles.{Leader, follower, leader}
use mynode.Raft.Node.Machine as MachineNode
use mynode.Raft.Node.Advances.{node_core}
use mynode.Raft.Node.Machine.Advances.{Moves, node_step-Moves}
use mynode.Raft.Node.Leader.Alone.{IsAlone}
use mynode.Raft.EventLoop.{queued, Ports, Ready, ticked, called, outbound, Driver, run}
use mynode.Raft.EventLoop.Routes.{IsRecording, AnswersTo, calls, run-AnswersTo}
use mynode.Raft.EventLoop.Runs.{LoopMoves, room, run-Moves}
use mynode.Raft.EventLoop.Alone.{Request, schedule, serve, Serves, run-Serves}
use mynode.Tests.Disk.{sound}
use mynode.Tests.Log.{set_x, noop, committed_log-IsValid, empty_log, empty_log-IsValid}
use mynode.Tests.NodeExamples.{platform, following, request}

node_step-Moves_example :
    Moves sound 1
      (node_core (follower following))
      (set_x ∷ noop ∷ [])
      (MachineNode.step request (follower following))
node_step-Moves_example =
    node_step-Moves sound request (follower following) (set_x ∷ noop ∷ []) committed_log-IsValid
      (omega arith)

-- What is sent to the callers, who are numbers, is recorded.
abbrev World : Type 0
World = List (ℕ × Event)

abbrev ports : Ports World ℕ
ports = record {
  respond = λ tx e w. (ok tt, w ++ (tx, e) ∷ []);
  transmit = λ msg w. (ok tt, w);
  recv_error = "receiving on an empty and disconnected channel";
}

abbrev recording : IsRecording ports
recording = record {
  answers = λ w. w;
  respond_lem = λ tx e w sent. refl;
  transmit_lem = λ msg w. refl;
}

abbrev lone : RoleNode (queued platform) Leader
lone = record {
  id = "a";
  peers = [];
  term = 1;
  log = empty_log;
  state = [];
  sender = [];
  rng = 0;
  role = record { heartbeat_ticks = 0; peer_next_index = []; peer_last_index = []; calls = [] };
}

lone-IsAlone : IsAlone {P = queued platform} sound lone []
lone-IsAlone = record {
  valid = empty_log-IsValid;
  applied = refl;
  peers = refl;
  peer_last_index = refl;
  calls = refl;
}

abbrev driver : Driver platform World ℕ
driver = record { node = leader lone; response_txs = []; world = [] }

-- A read and then a write, each with a tick in front of it.
abbrev asked : List (Ready ℕ)
asked =
    ticked
    ∷ called (read_state (1 ∷ []) []) 4
    ∷ outbound
    ∷ called (mutate_state (2 ∷ []) (7 ∷ [])) 5
    ∷ outbound
    ∷ []

run-AnswersTo_example : AnswersTo recording (calls asked) (run ports asked driver)
run-AnswersTo_example = run-AnswersTo recording asked driver refl refl

run-Moves_example :
    LoopMoves ports sound (room asked) (node_core (leader lone)) [] (run ports asked driver)
run-Moves_example =
    run-Moves ports sound asked driver []
      (omega arith, λ d1 _. (tt, λ d2 _. (tt, λ d3 _. (tt, λ d4 _. (tt, λ d5 _. tt)))))
      empty_log-IsValid (omega arith)

-- Two writes of two callers.
abbrev writes : List (Request ℕ)
writes =
    record { id = 1 ∷ []; command = 7 ∷ []; tx = 4 }
    ∷ record { id = 2 ∷ []; command = 8 ∷ []; tx = 5 }
    ∷ []

run-Serves_example :
    Serves platform ports sound
      (λ tx e w. refl)
      recording
      []
      (run ports (schedule writes) driver)
      ((4, respond_state (1 ∷ []) []) ∷ (5, respond_state (2 ∷ []) (7 ∷ [])) ∷ [])
      (8 ∷ [])
unfolding serve
run-Serves_example =
    run-Serves platform ports sound (λ tx e w. refl) recording writes lone [] [] []
      ((4, respond_state (1 ∷ []) []) ∷ (5, respond_state (2 ∷ []) (7 ∷ [])) ∷ []) (8 ∷ [])
      lone-IsAlone refl (omega arith) refl
