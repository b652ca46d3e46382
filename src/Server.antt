-- ===== src/Server.antt =====
-- server/: the parts of the server program, one module each, and the proofs below them.
pub mod Types
pub mod Remote
pub mod Account
pub mod Trust
pub mod Peer
pub mod Dispatch
pub mod Connection
pub mod Sessions
pub mod Faults
pub mod Peering
pub mod Main
pub mod Threads
pub mod Registry
