-- ===== src/Node/Manager/Run.antt =====
-- The steps of the node manager in any order, and the routing table after them.
pub mod Peers
pub mod Own
pub mod Steps
