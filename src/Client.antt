-- ===== src/Client.antt =====
-- client/: the relaying client.
pub mod Errors
pub mod Memory
pub mod Unsafe
pub mod MString
pub mod Queue
pub mod Peer
pub mod Message
pub mod Commands
pub mod Connection
pub mod FileParser
pub mod Examples
pub mod Tree
pub mod Master
pub mod Select
pub mod Worker
pub mod Fsm
