-- ===== src/Raft.antt =====
-- src/raft: the replicated log, the messages, the node in its three roles, the loop that runs it, and
-- the calls of its users.
pub mod Disk
pub mod Log
pub mod Message
pub mod Calls
pub mod Node
pub mod EventLoop
pub mod Client
