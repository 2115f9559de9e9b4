-- ===== src/CliAgent.antt =====
-- The agent's server for its clients, cli_agent/.
pub mod Client
pub mod Handler
pub mod State
pub mod Uris
pub mod Manager
