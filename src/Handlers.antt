-- ===== src/Handlers.antt =====
-- src/handlers: the messages of the nodes on the wire, and the service that runs queries.
pub mod Raft
pub mod Store
pub mod KvTest
