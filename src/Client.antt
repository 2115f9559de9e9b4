-- ===== src/Client.antt =====
-- client/: the library with which a program registers at the agents, serves calls and makes them.
pub mod Pool
pub mod Agents
pub mod Library
