-- ===== src/Examples.antt =====
-- Concrete inputs, and the theorems at them.
pub mod Protocol
pub mod Nodes
pub mod Managers
pub mod Coding
pub mod Agents
pub mod Servers
pub mod Replicas
pub mod Crossing
pub mod Calls
pub mod Clients
pub mod Logs
pub mod Texts
