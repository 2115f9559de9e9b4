-- ===== src/Node.antt =====
-- node/: what a node knows of its peers, and the node manager.
pub mod Entry
pub mod Info
pub mod Manager
