-- ===== src/Network.antt =====
-- network/: connections, the packets that a connection reads and the calls that wait on it.
pub mod Stream
pub mod Contexts
pub mod Writes
pub mod Dialling
